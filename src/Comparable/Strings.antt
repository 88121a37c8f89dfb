-- ===== src/Comparable/Strings.antt =====
-- The operators `<`, `>` and `==` of std::string, which compare lexicographically, on lists of
-- characters: the keys of the maps in src/xty_msg_server.h.
use xty.Base.{
  sym, ==_same, ℕ, ◌≡◌, refl, ap, ◌∙◌, Bool, Bool-cases, inl, inr, true, false, List, [], ◌∷◌,
  if◌then◌else◌, ltb, ◌==◌, ==_iff, arith,
}
use xty.Comparable.{Comparable}

pub string_lt : List ℕ → List ℕ → Bool
string_lt a [] = false
string_lt [] (y ∷ ys) = true
string_lt (x ∷ xs) (y ∷ ys) = let rest = string_lt xs ys in if x == y then rest else ltb x y

unfoldable pub string_eq : List ℕ → List ℕ → Bool
string_eq [] [] = true
string_eq [] (y ∷ ys) = false
string_eq (x ∷ xs) [] = false
string_eq (x ∷ xs) (y ∷ ys) = let rest = string_eq xs ys in if x == y then rest else false

pub string_lt_trans :
    (a b c : List ℕ) → string_lt a b ≡ true → string_lt b c ≡ true → string_lt a c ≡ true
unfolding string_lt
string_lt_trans a b [] h k = ground arith
string_lt_trans a [] (z ∷ zs) h k = ground arith
string_lt_trans [] (y ∷ ys) (z ∷ zs) h k = refl
string_lt_trans (x ∷ xs) (y ∷ ys) (z ∷ zs) h k = ground (arith, string_lt_trans xs ys zs)

pub string_lt_ne :
    (a b : List ℕ)
    → string_lt a b ≡ true
    → (string_eq a b ≡ false) × (string_eq b a ≡ false) × (string_lt b a ≡ false)
unfolding string_lt string_eq
string_lt_ne a [] h = ground arith
string_lt_ne [] (y ∷ ys) h = (refl, refl, refl)
string_lt_ne (x ∷ xs) (y ∷ ys) h = ground (arith, string_lt_ne xs ys)

pub string_trichotomy :
    (a b : List ℕ) → string_eq a b ≡ false → string_lt b a ≡ false → string_lt a b ≡ true
unfolding string_lt string_eq
string_trichotomy [] [] h k = ground arith
string_trichotomy (x ∷ xs) [] h k = ground arith
string_trichotomy [] (y ∷ ys) h k = refl
string_trichotomy (x ∷ xs) (y ∷ ys) h k = ground (arith, string_trichotomy xs ys)

pub string_eq_sound : (a b : List ℕ) → string_eq a b ≡ true → a ≡ b
unfolding string_eq
string_eq_sound [] [] h = refl
string_eq_sound [] (y ∷ ys) h = absurd (ground arith)
string_eq_sound (x ∷ xs) [] h = absurd (ground arith)
string_eq_sound (x ∷ xs) (y ∷ ys) h = elim (Bool-cases (x == y)) [
  | inl e ↦
      ap (λ z. z ∷ xs) ((==_iff x y).0 e) ∙ ap (λ z. y ∷ z) (string_eq_sound xs ys (rw e at h))
  | inr e ↦ absurd (ground arith)
]

string_eq_refl : (c : List ℕ) → string_eq c c ≡ true
unfolding string_eq
string_eq_refl [] = refl
string_eq_refl (x ∷ c) = rw (==_same x) (string_eq_refl c)

pub string_eq_complete : (a b : List ℕ) → a ≡ b → string_eq a b ≡ true
string_eq_complete a b h = ap (string_eq a) (sym h) ∙ string_eq_refl a

pub string_eq_lt :
    (a b c : List ℕ)
    → string_eq a b ≡ true
    → (string_lt a c ≡ string_lt b c)
      × (string_lt c a ≡ string_lt c b)
      × (string_eq c a ≡ string_eq c b)
string_eq_lt a b c h =
    let e = string_eq_sound a b h in
    (ap (λ z. string_lt z c) e, ap (string_lt c) e, ap (string_eq c) e)

instance abbrev pub string_comparable : Comparable (List ℕ)
string_comparable = record {
  lt = string_lt;
  gt = λ a b. string_lt b a;
  eq = string_eq;
  gt_lt = λ a b. refl;
  lt_trans = string_lt_trans;
  lt_ne = string_lt_ne;
  trichotomy = string_trichotomy;
  eq_lt = string_eq_lt;
}
