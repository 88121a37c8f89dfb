-- ===== src/Text/Tests.antt =====
-- Runs of the functions of src/xty_global_function.h, and the theorems at them.
use xty.Base.{List, ℕ, suc, ◌≡◌, refl, true, false, [], ◌∷◌, arith, length, All, ◌↔◌}
use xty.Text.{
  dot, ip_check_from, ip_string_check, to_uint_from, string_to_uint, to_string_from, uint_to_string,
}
use xty.Text.Decimal.{string_to_uint-uint_to_string}
use xty.Text.Fields.{fields, IsField, ip_string_check_iff}

run_port : uint_to_string 7 8080 ≡ 56 ∷ 48 ∷ 56 ∷ 48 ∷ []
unfolding uint_to_string to_string_from
run_port = refl

-- "99999" wraps.
run_wrap : string_to_uint 16 (57 ∷ 57 ∷ 57 ∷ 57 ∷ 57 ∷ []) ≡ 34463
unfolding string_to_uint to_uint_from
run_wrap = refl

-- "..." is accepted.
run_dots : ip_string_check (dot ∷ dot ∷ dot ∷ []) ≡ true
unfolding ip_string_check ip_check_from
run_dots = refl

run_256 : ip_string_check (50 ∷ 53 ∷ 54 ∷ dot ∷ 49 ∷ dot ∷ 49 ∷ dot ∷ 49 ∷ []) ≡ false
unfolding ip_string_check ip_check_from
run_256 = refl

string_to_uint-uint_to_string_example : string_to_uint 16 (uint_to_string (suc 6) 8080) ≡ 8080
string_to_uint-uint_to_string_example =
    string_to_uint-uint_to_string 16 6 8080 (omega arith) (omega arith)

-- 1.2.3.4
abbrev address : List ℕ
address = 49 ∷ dot ∷ 50 ∷ dot ∷ 51 ∷ dot ∷ 52 ∷ []

ip_string_check_iff_example :
    (ip_string_check address ≡ true)
    ↔ ((length (fields address) ≡ 4) × All (IsField 0) (fields address))
ip_string_check_iff_example = ip_string_check_iff address
