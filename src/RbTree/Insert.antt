-- ===== src/RbTree/Insert.antt =====
-- src/xty_rbtree.h, Insert: it refines insertion into a sorted list and keeps the tree valid.
use xty.Base.{
  ℕ, ◌≡◌, refl, ap, ◌⊎◌, sym, ◌∙◌, ◌+◌, ◌%◌, ◌^◌, none, some, List, [], ◌∷◌, ◌++◌, All, All-append,
  All-left, All-right, All-mono, append-nil, Bool-cases, Option-cases, inl, inr, if◌then◌else◌,
  arith, length, zero, suc,
}
use xty.Comparable.{Comparable}
use xty.RbTree.{
  red, Tree, leaf, node, Frame, in_left, in_right, RbTree, empty, search, find_parent, attach,
  insert_new, insert,
}
use xty.RbTree.Inorder.{to_list, before, after, around, around-fill, to_list-insert_fix_up}
use xty.RbTree.Balance.{
  IsBalanced, Surrounds, IsRedBlack, insert_fix_up-IsRedBlack, Admits, enter_left, enter_right,
}
use xty.RbTree.Search.{search-eq-find, search_from-eq-find}
use xty.RbTree.Sorted.{
  IsSorted, IsBelow, Differs, find, place, insert_once, place-append, IsSorted-append,
  IsSorted-insert, find-insert_once,
}

module _ {ℓ} {A : Type ℓ} ⦃o : Comparable A⦄ where
  -- The cursor stands where `x` belongs.
  abbrev Fits : A → List (Frame A) → Type 0
  Fits x fs = All (λ y. IsBelow y x) (before fs) × All (IsBelow x) (after fs)

  find_parent_list :
      (t : Tree A) (x : A) (fs : List (Frame A)) → around leaf (find_parent t x fs) ≡ around t fs
  unfolding find_parent
  find_parent_list leaf x fs = refl
  find_parent_list (node c l k r) x fs = elim (Bool-cases (o.gt k x)) [
    | inl g ↦
        rw g (find_parent_list l x (in_left c k r ∷ fs) ∙ sym (around-fill l (in_left c k r) fs))
    | inr g ↦
        rw g (find_parent_list r x (in_right c l k ∷ fs) ∙ sym (around-fill r (in_right c l k) fs))
  ]

  find_parent-Fits :
      (t : Tree A) (x : A) (fs : List (Frame A))
      → All (Differs x) (to_list t)
      → IsSorted (to_list t)
      → Fits x fs
      → Fits x (find_parent t x fs)
  unfolding find_parent
  find_parent-Fits leaf x fs new s f = f
  find_parent-Fits (node c l k r) x fs new s f =
      let (sl, hl, hr, sr) = IsSorted-append (to_list l) k (to_list r) s in
      let apart = All-right (Differs x) (to_list l) (k ∷ to_list r) new in
      elim (Bool-cases (o.gt k x)) [
        | inl g ↦
            let p : IsBelow x k = sym (o.gt_lt k x) ∙ g in
            rw g (
              find_parent-Fits l x (in_left c k r ∷ fs)
                (All-left (Differs x) (to_list l) (k ∷ to_list r) new) sl
                (
                  f.0,
                  (
                    p,
                    All-append (IsBelow x) (to_list r) (after fs)
                        (All-mono (IsBelow k) (to_list r) (λ y q. o.lt_trans x k y p q) hr) f.1,
                  ),
                ))
        | inr g ↦
            let p : IsBelow k x = o.trichotomy k x apart.0 (sym (o.gt_lt k x) ∙ g) in
            rw g (
              find_parent-Fits r x (in_right c l k ∷ fs) apart.1 sr (
                All-append (λ y. IsBelow y x) (before fs) (to_list l ++ (k ∷ [])) f.0
                    (All-append (λ y. IsBelow y x) (to_list l) (k ∷ [])
                      (All-mono (λ y. IsBelow y k) (to_list l) (λ y q. o.lt_trans y k x q p) hl)
                      (p, tt)),
                f.1,
              ))
      ]

  -- The comparison with the parent agrees with the way down.
  attach_lem : (x : A) (fs : List (Frame A)) → Fits x fs → attach x fs ≡ fs
  unfolding attach
  attach_lem x [] f = refl
  attach_lem x (in_left c k r ∷ fs) f = rw (f.1.0) refl
  attach_lem x (in_right c l k ∷ fs) f =
      let below = All-right (λ y. IsBelow y x) (before fs) (to_list l ++ (k ∷ [])) f.0 in
      let last = All-right (λ y. IsBelow y x) (to_list l) (k ∷ []) below in
      rw ((o.lt_ne k x last.0).2) refl

  Differs-of_find : (x : A) (xs : List A) → find x xs ≡ none → All (Differs x) xs
  unfolding find
  Differs-of_find x [] h = tt
  Differs-of_find x (y ∷ xs) h = elim (Bool-cases (o.eq y x)) [
    | inl e ↦ absurd (none≢some (sym h ∙ rw e refl))
    | inr e ↦ (e, Differs-of_find x xs (rw e at h))
  ]
    where
      none≢some : none ≡ some y → ⊥
      none≢some e = cc

  module _ (t : Tree A) (x : A) (new : find x (to_list t) ≡ none) (s : IsSorted (to_list t)) where
    abbrev way : List (Frame A)
    way = find_parent t x []

    way-Fits : Fits x way
    way-Fits = find_parent-Fits t x [] (Differs-of_find x (to_list t) new) s (tt, tt)

    way_list : before way ++ after way ≡ to_list t
    way_list = find_parent_list t x [] ∙ append-nil (to_list t)

    insert_new_list : to_list (insert_new t x) ≡ before way ++ (x ∷ after way)
    unfolding insert_new
    insert_new_list =
        to_list-insert_fix_up (record { focus = node red leaf x leaf; path = attach x way })
        ∙ ap (around (node red leaf x leaf)) (attach_lem x way way-Fits)

    pub to_list-insert_new : to_list (insert_new t x) ≡ place x (to_list t)
    to_list-insert_new =
        insert_new_list
        ∙ sym (place-append x (before way) (after way) way-Fits.0 way-Fits.1)
        ∙ ap (place x) way_list

    pub insert_new-IsSorted : IsSorted (to_list (insert_new t x))
    insert_new-IsSorted =
        rw insert_new_list
          (IsSorted-insert x (before way) (after way) way-Fits.0 way-Fits.1 (rw way_list s))

  find_parent-Surrounds :
      (n : ℕ) (t : Tree A) (x : A) (fs : List (Frame A))
      → IsBalanced n t
      → Surrounds n fs
      → Admits t fs
      → Surrounds 0 (find_parent t x fs)
  unfolding find_parent
  find_parent-Surrounds zero leaf x fs b s a = s
  find_parent-Surrounds (suc n) leaf x fs b s a = absurd b
  find_parent-Surrounds n (node c l k r) x fs b s a = elim (Bool-cases (o.gt k x)) [
    | inl g ↦
        let (m, b', s', a') = enter_left n c l k r fs b s a in
        rw g (find_parent-Surrounds m l x (in_left c k r ∷ fs) b' s' a')
    | inr g ↦
        let (m, b', s', a') = enter_right n c l k r fs b s a in
        rw g (find_parent-Surrounds m r x (in_right c l k ∷ fs) b' s' a')
  ]

  pub insert_new-IsRedBlack :
      (t : Tree A) (x : A)
      → find x (to_list t) ≡ none
      → IsSorted (to_list t)
      → IsRedBlack t
      → IsRedBlack (insert_new t x)
  unfolding insert_new
  insert_new-IsRedBlack t x new s (root_black, (n, b)) =
      insert_fix_up-IsRedBlack (record { focus = node red leaf x leaf; path = attach x way })
        (0, (refl, refl, tt, tt), rw (attach_lem x way (way-Fits t x new s)) around_new, refl)
    where
      way : List (Frame A)
      way = find_parent t x []

      around_new : Surrounds 0 way
      around_new = find_parent-Surrounds n t x [] b tt root_black

  length-place : (x : A) (xs : List A) → length (place x xs) ≡ suc (length xs)
  unfolding place
  length-place x [] = refl
  length-place x (y ∷ xs) = elim (Bool-cases (o.lt x y)) [
    | inl e ↦ rw e refl
    | inr e ↦ rw e (ap suc (length-place x xs))
  ]

-- What every public operation keeps: the order, the red-black properties, and the node count.
module _ {ℓ} {A : Type ℓ} ⦃o : Comparable A⦄ where
  pub record IsValid (t : RbTree A) : Type 0 where
    pub sorted : IsSorted (to_list t.root)
    pub red_black : IsRedBlack t.root
    pub counted : t.node_count ≡ length (to_list t.root) % 2 ^ 32

  pub empty-IsValid : IsValid (empty {A = A})
  empty-IsValid = record { sorted = tt; red_black = (refl, (0, tt)); counted = refl }

  insert_lem :
      (t : RbTree A) (x : A)
      → IsSorted (to_list t.root)
      → (find x (to_list t.root) ≡ none)
          × (insert t x ≡ (
            x,
            record { root = insert_new t.root x; node_count = (t.node_count + 1) % 2 ^ 32 },
          ))
        ⊎ (old : A) × (find x (to_list t.root) ≡ some old) × (insert t x ≡ (old, t))
  unfolding insert
  insert_lem t x s = elim (Option-cases (find x (to_list t.root))) [
    | inl new ↦ inl (new, rw (search_from-eq-find t.root x s, new, insert) refl)
    | inr (old, e) ↦ inr (old, e, rw (search_from-eq-find t.root x s, e, insert) refl)
  ]

  -- Insert keeps a valid tree valid: its data in strict order, the red-black properties, and in
  -- m_NodeCount the number of nodes, modulo 2 ^ 32.
  pub insert-IsValid : (t : RbTree A) (x : A) → IsValid t → IsValid (insert t x).1
  insert-IsValid t x v = elim (insert_lem t x v.sorted) [
    | inl (new, e) ↦ rw e (record {
      sorted = insert_new-IsSorted t.root x new v.sorted;
      red_black = insert_new-IsRedBlack t.root x new v.sorted v.red_black;
      counted = count new;
    })
    | inr (old, _, e) ↦ rw e v
  ]
    where
      count :
          find x (to_list t.root) ≡ none
          → (t.node_count + 1) % 2 ^ 32 ≡ length (to_list (insert_new t.root x)) % 2 ^ 32
      count new =
          let more =
            ap length (to_list-insert_new t.root x new v.sorted)
            ∙ length-place x (to_list t.root) in
          omega (arith, v.counted, more)

  -- On a tree in strict order, Insert is insertion into a set: it answers with the element that is
  -- there already, and changes nothing, or it puts the new one in its place and answers with it.
  pub insert_refines :
      (t : RbTree A) (x : A)
      → IsSorted (to_list t.root)
      → ((insert t x).0 ≡ (insert_once x (to_list t.root)).0)
        × (to_list (insert t x).1.root ≡ (insert_once x (to_list t.root)).1)
  unfolding insert_once
  insert_refines t x s = elim (insert_lem t x s) [
    | inl (new, e) ↦ (
      rw (e, new, insert_once) refl,
      rw (e, new, insert_once) (to_list-insert_new t.root x new s),
    )
    | inr (old, f, e) ↦ (rw (e, f, insert_once) refl, rw (e, f, insert_once) refl)
  ]

  -- On a valid tree: after Insert, Search finds the node that Insert answered with for all that is equal to the
  -- inserted value, and for everything else what it found before.
  pub search-insert :
      (t : RbTree A) (x y : A)
      → IsValid t
      → search (insert t x).1 y ≡ (if o.eq x y then some (insert t x).0 else search t y)
  search-insert t x y v =
      let (answer, list) = insert_refines t x v.sorted in
      search-eq-find (insert t x).1 y ((insert-IsValid t x v).sorted)
      ∙ ap (find y) list
      ∙ find-insert_once x y (to_list t.root)
      ∙ sym (rw (answer, search-eq-find t y v.sorted) refl)
