-- ===== src/Text.antt =====
-- src/xty_global_function.h: numbers as decimal strings, and what strings are checked for. A
-- std::string is the list of its characters' codes, which are below 128 where `char` is signed.
pub mod Decimal
pub mod Split
pub mod Fields
mod Tests
use xty.Base.{
  ℕ, zero, suc, ◌+◌, ◌-◌, ◌*◌, ◌/◌, ◌%◌, ◌^◌, Bool, true, false, not, ◌&&◌, ◌||◌, List, [], ◌∷◌,
  ◌++◌, if◌then◌else◌, ltb, ◌==◌,
}

-- The codes of '0' and of '.'
abbrev pub zero_char : ℕ
zero_char = 48

abbrev pub dot : ℕ
dot = 46

-- `c < '0' || c > '9'`, negated
abbrev pub is_digit : ℕ → Bool
is_digit c = not (ltb c 48 || ltb 57 c)

-- NumericStringCheck
unfoldable pub numeric_string_check : List ℕ → Bool
numeric_string_check [] = true
numeric_string_check (c ∷ s) =
    let rest = numeric_string_check s in if is_digit c then rest else false

-- The loop of IPStringCheck, with `temp` and `dot_count`
unfoldable pub ip_check_from : ℕ → ℕ → List ℕ → Bool
ip_check_from temp dot_count [] = dot_count == 3
ip_check_from temp dot_count (c ∷ s) =
    let after_dot = ip_check_from 0 (dot_count + 1) s in
    let after_digit = ip_check_from (temp * 10 + (c - 48)) dot_count s in
    if c == dot
    then (if ltb 3 (dot_count + 1) then false else after_dot)
    else (if is_digit c
        then (if ltb 255 (temp * 10 + (c - 48)) then false else after_digit)
        else false)

unfoldable pub ip_string_check : List ℕ → Bool
unfolding ip_check_from
ip_string_check s = ip_check_from 0 0 s

-- StringToUint16 and StringToUint32, at 16 and 32 `bits`: the loop, from the value so far. A
-- character below '0' takes the value down, and it wraps.
module _ (bits : ℕ) where
  unfoldable pub to_uint_from : ℕ → List ℕ → ℕ
  to_uint_from res [] = res
  to_uint_from res (c ∷ s) = to_uint_from ((res * 10 % 2 ^ bits + c + 2 ^ bits - 48) % 2 ^ bits) s

  unfoldable pub string_to_uint : List ℕ → ℕ
  unfolding to_uint_from
  string_to_uint s = to_uint_from 0 s

-- Uint16ToString and Uint32ToString: the loop over the buffer, from its last place but one to
-- its first, with the characters written so far. Where the buffer is full, start_pos is 0 and
-- what has been written is not cut.
unfoldable pub to_string_from : ℕ → ℕ → List ℕ → List ℕ
to_string_from zero uint written = written
to_string_from (suc places) uint written =
    let written' = (uint % 10 + 48) ∷ written in
    let rest = to_string_from places (uint / 10) written' in
    if uint / 10 == 0 then written' else rest

-- XTY_UINT16_STR_LEN and XTY_UINT32_STR_LEN, less the place of the '\0'
abbrev pub uint16_places : ℕ
uint16_places = 7

abbrev pub uint32_places : ℕ
uint32_places = 15

unfoldable pub uint_to_string : ℕ → ℕ → List ℕ
unfolding to_string_from
uint_to_string places n = to_string_from places n []

-- SplitStringByChar: the loop, with the characters since the last split, and the segments.
unfoldable pub split_from : ℕ → List ℕ → List ℕ → List (List ℕ)
split_from c segment [] = []
split_from c segment (x ∷ s) =
    let cut = segment ∷ split_from c [] s in
    let longer = split_from c (segment ++ (x ∷ [])) s in if x == c then cut else longer

unfoldable pub split_string_by_char : List ℕ → ℕ → List (List ℕ)
unfolding split_from
split_string_by_char s c = split_from c [] s
