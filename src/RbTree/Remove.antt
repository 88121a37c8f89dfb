-- ===== src/RbTree/Remove.antt =====
-- The abstract view of Delete of src/xty_rbtree.h: a list in strict order without one element.
use xty.Base.{
  ◌≡◌, refl, ap, sym, ◌∙◌, true, false, none, some, List, [], ◌∷◌, ◌++◌, All, Bool-cases, inl, inr,
  if◌then◌else◌,
}
use xty.Comparable.{Comparable}
use xty.RbTree.Sorted.{IsSorted, IsBelow, Differs, find}

false≢true : false ≡ true → ⊥
false≢true e = cc

module _ {ℓ} {A : Type ℓ} ⦃o : Comparable A⦄ where
  -- Without the first element equal to `x`.
  unfoldable pub remove : A → List A → List A
  remove x [] = []
  remove x (y ∷ ys) = if o.eq y x then ys else y ∷ remove x ys

  pub eq_refl : (x : A) → o.eq x x ≡ true
  eq_refl x = elim (Bool-cases (o.eq x x)) [
    | inl e ↦ e
    | inr apart ↦ elim (Bool-cases (o.lt x x)) [
      | inl below ↦ absurd (false≢true (sym ((o.lt_ne x x below).2) ∙ below))
      | inr level ↦ absurd (false≢true (sym level ∙ o.trichotomy x x apart level))
    ]
  ]

  pub eq_symm : (x y : A) → o.eq x y ≡ true → o.eq y x ≡ true
  eq_symm x y e = (o.eq_lt x y y e).2 ∙ eq_refl y

  pub eq_apart : (z x y : A) → o.eq z x ≡ true → o.eq x y ≡ false → o.eq z y ≡ false
  eq_apart z x y e apart = elim (Bool-cases (o.eq z y)) [
    | inl same ↦ absurd (false≢true (sym apart ∙ sym ((o.eq_lt z y x same).2) ∙ eq_symm z x e))
    | inr ne ↦ ne
  ]

  pub remove-append :
      (x k : A) (xs ys : List A)
      → All (Differs x) xs
      → o.eq k x ≡ true
      → remove x (xs ++ (k ∷ ys)) ≡ xs ++ ys
  unfolding remove
  remove-append x k [] ys h e = rw e refl
  remove-append x k (z ∷ xs) ys h e = rw (h.0) (ap (◌∷◌ z) (remove-append x k xs ys h.1 e))

  find_of_Differs : (x : A) (xs : List A) → All (Differs x) xs → find x xs ≡ none
  unfolding find
  find_of_Differs x [] h = refl
  find_of_Differs x (y ∷ xs) h = rw (h.0) (find_of_Differs x xs h.1)

  -- Nothing after `z` is equal to what is equal to `z`.
  find_after : (z y : A) (xs : List A) → o.eq z y ≡ true → All (IsBelow z) xs → find y xs ≡ none
  find_after z y xs e h = find_of_Differs y xs (above xs h)
    where
      above : (ys : List A) → All (IsBelow z) ys → All (Differs y) ys
      above [] h = tt
      above (w ∷ ys) h = ((o.lt_ne y w (sym ((o.eq_lt z y w e).0) ∙ h.0)).1, above ys h.1)

  pub find-remove :
      (x y : A) (xs : List A)
      → IsSorted xs
      → find y (remove x xs) ≡ (if o.eq x y then none else find y xs)
  unfolding find remove
  find-remove x y [] s = elim (Bool-cases (o.eq x y)) [ inl e ↦ rw e refl | inr e ↦ rw e refl ]
  find-remove x y (z ∷ xs) s = elim (Bool-cases (o.eq z x)) [
    | inl here ↦ elim (Bool-cases (o.eq x y)) [
      | inl same ↦ rw (here, same) (find_after z y xs (sym ((o.eq_lt x y z same).2) ∙ here) s.0)
      | inr apart ↦ rw (here, apart, eq_apart z x y here apart) refl
    ]
    | inr there ↦ elim (Bool-cases (o.eq x y)) [
      | inl same ↦
          rw (there, same, sym ((o.eq_lt x y z same).2) ∙ there, find-remove x y xs s.1)
            (rw same refl)
      | inr apart ↦ rw (there, apart, find-remove x y xs s.1) (rw apart refl)
    ]
  ]

  pub IsSorted-remove : (x : A) (xs : List A) → IsSorted xs → IsSorted (remove x xs)
  unfolding remove
  IsSorted-remove x [] s = tt
  IsSorted-remove x (z ∷ xs) s = elim (Bool-cases (o.eq z x)) [
    | inl e ↦ rw e s.1
    | inr e ↦ rw e (keep (IsBelow z) xs s.0, IsSorted-remove x xs s.1)
  ]
    where
      keep : (P : A → Type 0) (ys : List A) → All P ys → All P (remove x ys)
      keep P [] h = tt
      keep P (y ∷ ys) h = elim (Bool-cases (o.eq y x)) [
        | inl e ↦ rw e h.1
        | inr e ↦ rw e (h.0, keep P ys h.1)
      ]

  pub remove_of_find : (x : A) (xs : List A) → find x xs ≡ none → remove x xs ≡ xs
  unfolding find remove
  remove_of_find x [] h = refl
  remove_of_find x (y ∷ xs) h = elim (Bool-cases (o.eq y x)) [
    | inl e ↦ absurd (some≢none (sym (rw e refl) ∙ h))
    | inr e ↦ rw e (ap (◌∷◌ y) (remove_of_find x xs (rw e at h)))
  ]
    where
      some≢none : some y ≡ none → ⊥
      some≢none e = cc
