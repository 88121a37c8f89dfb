-- ===== src/RbTree/Sorted.antt =====
-- The abstract view of src/xty_rbtree.h: a list in strict order, with search and insertion on it.
use xty.Base.{
  ◌≡◌, refl, ap, sym, ◌∙◌, true, false, Option, none, some, List, [], ◌∷◌, ◌++◌, All, All-append,
  All-left, All-right, All-mono, Bool-cases, Option-cases, inl, inr, if◌then◌else◌,
}
use xty.Comparable.{Comparable}

module _ {ℓ} {A : Type ℓ} ⦃o : Comparable A⦄ where
  abbrev pub IsBelow : A → A → Type 0
  IsBelow x y = o.lt x y ≡ true

  abbrev pub Differs : A → A → Type 0
  Differs x y = o.eq y x ≡ false

  abbrev pub IsSorted : List A → Type 0
  IsSorted [] = Unit
  IsSorted (x ∷ xs) = All (IsBelow x) xs × IsSorted xs

  -- The first element equal to `x`.
  unfoldable pub find : A → List A → Option A
  find x [] = none
  find x (y ∷ ys) = if o.eq y x then some y else find x ys

  -- `x` before the first larger element
  unfoldable pub place : A → List A → List A
  place x [] = x ∷ []
  place x (y ∷ ys) = if o.lt x y then x ∷ (y ∷ ys) else y ∷ place x ys

  -- Insertion into a set: an element that is there already stays, and is the answer.
  unfoldable pub insert_once : A → List A → A × List A
  insert_once x xs = elim (find x xs) [ some old ↦ (old, xs) | none ↦ (x, place x xs) ]

  pub find-append_left :
      (x : A) (xs ys : List A) → All (Differs x) ys → find x (xs ++ ys) ≡ find x xs
  unfolding find
  find-append_left x [] [] h = refl
  find-append_left x [] (y ∷ ys) h = rw (h.0) (find-append_left x [] ys h.1)
  find-append_left x (z ∷ xs) ys h = rw (find-append_left x xs ys h)

  pub find-append_right :
      (x : A) (xs ys : List A) → All (Differs x) xs → find x (xs ++ ys) ≡ find x ys
  unfolding find
  find-append_right x [] ys h = refl
  find-append_right x (z ∷ xs) ys h = rw (h.0) (find-append_right x xs ys h.1)

  pub IsSorted-append :
      (xs : List A) (k : A) (ys : List A)
      → IsSorted (xs ++ (k ∷ ys))
      → IsSorted xs × All (λ y. IsBelow y k) xs × All (IsBelow k) ys × IsSorted ys
  IsSorted-append [] k ys h = (tt, tt, h.0, h.1)
  IsSorted-append (x ∷ xs) k ys h =
      let (sx, lx, ly, sy) = IsSorted-append xs k ys h.1 in
      (
        (All-left (IsBelow x) xs (k ∷ ys) h.0, sx),
        ((All-right (IsBelow x) xs (k ∷ ys) h.0).0, lx),
        ly,
        sy,
      )

  pub Differs-of_above :
      (x k : A) (ys : List A) → IsBelow x k → All (IsBelow k) ys → All (Differs x) ys
  Differs-of_above x k ys h =
      All-mono (IsBelow k) ys (λ y p. (o.lt_ne x y (o.lt_trans x k y h p)).1)

  pub Differs-of_below :
      (x k : A) (ys : List A) → IsBelow k x → All (λ y. IsBelow y k) ys → All (Differs x) ys
  Differs-of_below x k ys h =
      All-mono (λ y. IsBelow y k) ys (λ y p. (o.lt_ne y x (o.lt_trans y k x p h)).0)

  pub Differs-of_eq :
      (x k : A) (ys : List A) → o.eq k x ≡ true → All (λ y. IsBelow y k) ys → All (Differs x) ys
  Differs-of_eq x k ys h =
      All-mono (λ y. IsBelow y k) ys (λ y p. (o.lt_ne y x (sym ((o.eq_lt k x y h).1) ∙ p)).0)

  pub place-append :
      (x : A) (xs ys : List A)
      → All (λ y. IsBelow y x) xs
      → All (IsBelow x) ys
      → place x (xs ++ ys) ≡ xs ++ (x ∷ ys)
  unfolding place
  place-append x [] [] hx hy = refl
  place-append x [] (y ∷ ys) hx hy = rw (hy.0)
  place-append x (z ∷ xs) ys hx hy =
      rw ((o.lt_ne z x hx.0).2) (ap (◌∷◌ z) (place-append x xs ys hx.1 hy))

  pub IsSorted-insert :
      (x : A) (xs ys : List A)
      → All (λ y. IsBelow y x) xs
      → All (IsBelow x) ys
      → IsSorted (xs ++ ys)
      → IsSorted (xs ++ (x ∷ ys))
  IsSorted-insert x [] ys hx hy s = (hy, s)
  IsSorted-insert x (z ∷ xs) ys hx hy s = (
    All-append (IsBelow z) xs (x ∷ ys) (All-left (IsBelow z) xs ys s.0)
        (hx.0, All-right (IsBelow z) xs ys s.0),
    IsSorted-insert x xs ys hx.1 hy s.1,
  )

  pub find_congr : (x y : A) (xs : List A) → o.eq x y ≡ true → find x xs ≡ find y xs
  unfolding find
  find_congr x y [] h = refl
  find_congr x y (z ∷ xs) h = rw ((o.eq_lt x y z h).2, find_congr x y xs h)

  find-place :
      (x y : A) (xs : List A)
      → find x xs ≡ none
      → find y (place x xs) ≡ (if o.eq x y then some x else find y xs)
  unfolding find place
  find-place x y [] h = refl
  find-place x y (z ∷ xs) h = elim (Bool-cases (o.eq z x)) [
    | inl same ↦ absurd (none≢some z (sym h ∙ rw same))
    | inr apart ↦ elim (Bool-cases (o.lt x z)) [
      | inl first ↦ rw first
      | inr later ↦ rw (later, find-place x y xs (rw apart at h)) (swap apart)
    ]
  ]
    where
      none≢some : (a : A) → none ≡ some a → ⊥
      none≢some a e = cc

      swap :
          o.eq z x ≡ false
          → (if o.eq z y then some z else (if o.eq x y then some x else find y xs))
            ≡ (if o.eq x y then some x else (if o.eq z y then some z else find y xs))
      swap apart = elim (Bool-cases (o.eq x y)) [
        | inl e ↦ rw (e, sym ((o.eq_lt x y z e).2) ∙ apart) refl
        | inr e ↦ rw e refl
      ]

  -- After an insertion a search finds the element inserted, or the one that kept it out, for all
  -- that is equal to it, and what it found before for everything else.
  pub find-insert_once :
      (x y : A) (xs : List A)
      → find y (insert_once x xs).1 ≡ (if o.eq x y then some (insert_once x xs).0 else find y xs)
  unfolding insert_once
  find-insert_once x y xs = elim (Option-cases (find x xs)) [
    | inl new ↦ rw (new, insert_once) (find-place x y xs new)
    | inr (old, e) ↦ rw (e, insert_once) (there e)
  ]
    where
      there :
          {old : A} → find x xs ≡ some old → find y xs ≡ (if o.eq x y then some old else find y xs)
      there e = elim (Bool-cases (o.eq x y)) [
        | inl same ↦ rw (same, ← find_congr x y xs same) e
        | inr apart ↦ rw apart refl
      ]
