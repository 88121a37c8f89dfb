-- ===== src/Text/Decimal.antt =====
-- src/xty_global_function.h: a number is written in decimal, and read back.
use native.Mathlib.Nat.{pow-suc, mod-eq_of_lt, add-mod_right}
use xty.Base.{
  ℕ, zero, suc, ◌+◌, ◌-◌, ◌*◌, ◌/◌, ◌%◌, ◌^◌, ◌<◌, ◌≡◌, ap, sym, ◌∙◌, Bool-cases, inl, inr, true,
  List, [], ◌∷◌, ◌==◌, ==_iff, All, arith,
}
use xty.Text.{is_digit, to_uint_from, string_to_uint, to_string_from, uint_to_string}

module _ (bits : ℕ) where
  -- One digit more
  digit_step :
      (n : ℕ)
      → n < 2 ^ bits
      → (n / 10 * 10 % 2 ^ bits + (n % 10 + 48) + 2 ^ bits - 48) % 2 ^ bits ≡ n
  digit_step n h =
      ap (λ z. (z + (n % 10 + 48) + 2 ^ bits - 48) % 2 ^ bits)
        (mod-eq_of_lt {n = n / 10 * 10} {m = 2 ^ bits} (omega (arith, h)))
      ∙ ap (λ z. z % 2 ^ bits) (shift n)
      ∙ add-mod_right n (2 ^ bits)
      ∙ mod-eq_of_lt {n = n} {m = 2 ^ bits} h
    where
      shift : (m : ℕ) → m / 10 * 10 + (m % 10 + 48) + 2 ^ bits - 48 ≡ m + 2 ^ bits
      shift m = omega arith

  last_digit :
      (n : ℕ) (written : List ℕ)
      → n < 2 ^ bits
      → n / 10 ≡ 0
      → to_uint_from bits 0 ((n % 10 + 48) ∷ written) ≡ to_uint_from bits n written
  unfolding to_uint_from
  last_digit n written h e =
      ap (λ z. to_uint_from bits z written)
        (ap (λ z. (z * 10 % 2 ^ bits + (n % 10 + 48) + 2 ^ bits - 48) % 2 ^ bits) (sym e)
          ∙ digit_step n h)

  -- The digits written, and then what was there, are read as the number and what follows.
  to_string_from_lem :
      (places n : ℕ) (written : List ℕ)
      → n < 2 ^ bits
      → n < 10 ^ suc places
      → to_uint_from bits 0 (to_string_from (suc places) n written) ≡ to_uint_from bits n written
  unfolding to_string_from to_uint_from
  to_string_from_lem zero n written h k =
      rw (small (omega arith)) (last_digit n written h (omega arith))
    where
      small : n < 10 → (n / 10 == 0) ≡ true
      small lt = ground arith
  to_string_from_lem (suc places) n written h k = elim (Bool-cases (n / 10 == 0)) [
    | inl e ↦ rw e (last_digit n written h ((==_iff (n / 10) 0).0 e))
    | inr e ↦ rw e (
        to_string_from_lem places (n / 10) ((n % 10 + 48) ∷ written) (omega (arith, h))
          (omega (arith, k, pow-suc 10 (suc places)))
        ∙ ap (λ z. to_uint_from bits z written) (digit_step n h))
  ]

  -- A number that is written is read back: in a buffer with places enough for its digits, and if
  -- it is below the modulus of the type.
  pub string_to_uint-uint_to_string :
      (places n : ℕ)
      → n < 2 ^ bits
      → n < 10 ^ suc places
      → string_to_uint bits (uint_to_string (suc places) n) ≡ n
  unfolding string_to_uint uint_to_string to_uint_from
  string_to_uint-uint_to_string places n h k = to_string_from_lem places n [] h k

digits :
    (places n : ℕ) (written : List ℕ)
    → All (λ c. is_digit c ≡ true) written
    → All (λ c. is_digit c ≡ true) (to_string_from places n written)
unfolding to_string_from
digits zero n written h = h
digits (suc places) n written h = elim (Bool-cases (n / 10 == 0)) [
  | inl e ↦ rw e (digit n, h)
  | inr e ↦ rw e (digits places (n / 10) ((n % 10 + 48) ∷ written) (digit n, h))
]
  where
    digit : (m : ℕ) → is_digit (m % 10 + 48) ≡ true
    digit m = ground arith

-- A number is written in digits only.
pub uint_to_string-digits : (places n : ℕ) → All (λ c. is_digit c ≡ true) (uint_to_string places n)
unfolding uint_to_string
uint_to_string-digits places n = digits places n [] tt
