-- ===== src/Text/Fields.antt =====
-- src/xty_global_function.h, IPStringCheck: which strings it accepts.
use xty.Base.{
  ℕ, ◌+◌, ◌-◌, ◌*◌, ◌≤◌, ◌≡◌, ◌↔◌, refl, ap, sym, ◌∙◌, Bool-cases, inl, inr, true, false, List, [],
  ◌∷◌, if◌then◌else◌, ◌==◌, ==_iff, ltb, ltb→lt, All, arith, length, subst,
}
use xty.Text.{dot, is_digit, ip_check_from, ip_string_check}

abbrev pub AreDigits : List ℕ → Type 0
AreDigits s = All (λ c. is_digit c ≡ true) s

-- The value of a field of digits, as IPStringCheck counts it up.
abbrev pub field_value : ℕ → List ℕ → ℕ
field_value temp [] = temp
field_value temp (c ∷ s) = field_value (temp * 10 + (c - 48)) s

field_value_le : (temp : ℕ) (s : List ℕ) → temp ≤ field_value temp s
field_value_le temp [] = omega arith
field_value_le temp (c ∷ s) = omega (arith, field_value_le (temp * 10 + (c - 48)) s)

-- The parts of a string between its dots
abbrev pub extend : ℕ → List (List ℕ) → List (List ℕ)
extend c [] = (c ∷ []) ∷ []
extend c (f ∷ fs) = (c ∷ f) ∷ fs

unfoldable pub fields : List ℕ → List (List ℕ)
fields [] = [] ∷ []
fields (c ∷ s) = let rest = fields s in if c == dot then [] ∷ rest else extend c rest

-- Digits, and a number of at most 255; `temp` is the number that the digits before make.
abbrev pub IsField : ℕ → List ℕ → Type 0
IsField temp f = AreDigits f × (field_value temp f ≤ 255)

abbrev AreFields : ℕ → ℕ → List (List ℕ) → Type 0
AreFields temp dot_count [] = ⊥
AreFields temp dot_count (f ∷ fs) =
    IsField temp f × All (IsField 0) fs × (dot_count + length fs ≡ 3)

fields_cases : (s : List ℕ) → (f : List ℕ) × (fs : List (List ℕ)) × (fields s ≡ f ∷ fs)
unfolding fields
fields_cases [] = ([], [], refl)
fields_cases (c ∷ s) = elim (Bool-cases (c == dot)) [
  | inl e ↦ ([], fields s, rw e refl)
  | inr e ↦ let (f, fs, same) = fields_cases s in (c ∷ f, fs, rw e (ap (extend c) same))
]

false≢true : false ≡ true → ⊥
false≢true e = cc

-- After a dot
dot_step :
    (temp dot_count : ℕ) (s : List ℕ)
    → temp ≤ 255
    → ((ip_check_from 0 (dot_count + 1) s ≡ true) ↔ AreFields 0 (dot_count + 1) (fields s))
    → ((if ltb 3 (dot_count + 1) then false else ip_check_from 0 (dot_count + 1) s) ≡ true)
      ↔ AreFields temp dot_count ([] ∷ fields s)
dot_step temp dot_count s le rest =
    let (f, fs, same) = fields_cases s in
    let rest' : (ip_check_from 0 (dot_count + 1) s ≡ true) ↔ AreFields 0 (dot_count + 1) (f ∷ fs) =
      subst (λ z. (ip_check_from 0 (dot_count + 1) s ≡ true) ↔ AreFields 0 (dot_count + 1) z) same
        rest in
    elim (Bool-cases (ltb 3 (dot_count + 1))) [
      | inl e ↦
          rw (e, same)
            (
              (λ z. absurd (false≢true z)),
              (λ h. absurd (omega (arith, h.2, ltb→lt 3 (dot_count + 1) e))),
            )
      | inr e ↦
          rw (e, same)
            (
              (λ z. let (i, a, n) = rest'.0 z in ((tt, le), (i, a), omega (arith, n))),
              (λ h. rest'.1 (h.1.0, h.1.1, omega (arith, h.2))),
            )
    ]

-- After a digit, or what is none
digit_step :
    (temp dot_count c : ℕ) (s : List ℕ)
    → (temp * 10 + (c - 48) ≤ 255
        → (ip_check_from (temp * 10 + (c - 48)) dot_count s ≡ true)
          ↔ AreFields (temp * 10 + (c - 48)) dot_count (fields s))
    → ((if is_digit c
          then (if ltb 255 (temp * 10 + (c - 48))
              then false
              else ip_check_from (temp * 10 + (c - 48)) dot_count s)
          else false)
        ≡ true)
      ↔ AreFields temp dot_count (extend c (fields s))
digit_step temp dot_count c s rest =
    let v = temp * 10 + (c - 48) in
    let (f, fs, same) = fields_cases s in
    elim (Bool-cases (is_digit c)) [
      | inr e ↦
          rw (e, same) ((λ z. absurd (false≢true z)), (λ h. absurd (false≢true (sym e ∙ h.0.0.0))))
      | inl e ↦ elim (Bool-cases (ltb 255 v)) [
        | inl big ↦
            rw (e, big, same)
              (
                (λ z. absurd (false≢true z)),
                (λ h. absurd (omega (arith, h.0.1, field_value_le v f, ltb→lt 255 v big))),
              )
        | inr small ↦
            let rest' : (ip_check_from v dot_count s ≡ true) ↔ AreFields v dot_count (f ∷ fs) =
              subst (λ z. (ip_check_from v dot_count s ≡ true) ↔ AreFields v dot_count z) same
                (rest (ground arith)) in
            rw (e, small, same)
              (
                (λ z. let (i, a, n) = rest'.0 z in ((((e, i.0)), i.1), a, n)),
                (λ h. rest'.1 ((h.0.0.1, h.0.1), h.1, h.2)),
              )
      ]
    ]

ip_check_from_lem :
    (temp dot_count : ℕ) (s : List ℕ)
    → temp ≤ 255
    → (ip_check_from temp dot_count s ≡ true) ↔ AreFields temp dot_count (fields s)
unfolding ip_check_from fields
ip_check_from_lem temp dot_count [] le = (
  (λ z. ((tt, le), tt, omega (arith, (==_iff dot_count 3).0 z))),
  (λ h. (==_iff dot_count 3).1 (omega (arith, h.2))),
)
ip_check_from_lem temp dot_count (c ∷ s) le = elim (Bool-cases (c == dot)) [
  | inl e ↦
      rw e (dot_step temp dot_count s le (ip_check_from_lem 0 (dot_count + 1) s (omega arith)))
  | inr e ↦ rw e (
      digit_step temp dot_count c s
        (λ le'. ip_check_from_lem (temp * 10 + (c - 48)) dot_count s le'))
]

-- IPStringCheck accepts a string exactly if it has four parts between its dots, and each of them
-- is a number of digits, or empty, of at most 255.
pub ip_string_check_iff :
    (s : List ℕ)
    → (ip_string_check s ≡ true) ↔ ((length (fields s) ≡ 4) × All (IsField 0) (fields s))
unfolding ip_string_check
ip_string_check_iff s =
    let (f, fs, same) = fields_cases s in
    let h = ip_check_from_lem 0 0 s (omega arith) in
    let h' : (ip_check_from 0 0 s ≡ true) ↔ AreFields 0 0 (f ∷ fs) =
      subst (λ z. (ip_check_from 0 0 s ≡ true) ↔ AreFields 0 0 z) same h in
    rw same (
      (λ z. let (i, a, n) = h'.0 z in (omega (arith, n), (i, a))),
      (λ g. h'.1 (g.1.0, g.1.1, omega (arith, g.0))),
    )
