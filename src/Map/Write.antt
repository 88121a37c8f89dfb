-- ===== src/Map/Write.antt =====
-- src/xty_map.h: a store through a pointer to a node changes one value, and neither the order of
-- the keys nor the colors.
use xty.Base.{
  ℕ, zero, suc, ◌≡◌, refl, ap, sym, ◌∙◌, Option, none, some, List, [], ◌∷◌, ◌++◌, All, Bool-cases,
  inl, inr, if◌then◌else◌, length, ◌%◌, ◌^◌,
}
use xty.Comparable.{Comparable}
use xty.RbTree.{red, black, Tree, leaf, node, color, search}
use xty.RbTree.Inorder.{to_list}
use xty.RbTree.Balance.{IsBalanced}
use xty.RbTree.Sorted.{
  IsSorted, IsBelow, Differs, find, IsSorted-append, Differs-of_above, Differs-of_below,
  Differs-of_eq,
}
use xty.RbTree.Search.{search-eq-find}
use xty.RbTree.Insert.{IsValid}
use xty.RbTree.Remove.{eq_apart}
use xty.Map.{node_comparable, MapNode, Map, key_node, write_from, write}

module _ {ℓ κ} {K : Type ℓ} {V : Type κ} ⦃o : Comparable K⦄ where
  abbrev pub with_value : V → Option (MapNode K V) → Option (MapNode K V)
  with_value v none = none
  with_value v (some n) = some (record n { value = v })

  -- The store on the nodes in order
  store : K → V → List (MapNode K V) → List (MapNode K V)
  store k v [] = []
  store k v (n ∷ ns) = if o.eq n.key k then record n { value = v } ∷ ns else n ∷ store k v ns

  length-store : (k : K) (v : V) (ns : List (MapNode K V)) → length (store k v ns) ≡ length ns
  unfolding store
  length-store k v [] = refl
  length-store k v (n ∷ ns) = elim (Bool-cases (o.eq n.key k)) [
    | inl e ↦ rw e refl
    | inr e ↦ rw e (ap suc (length-store k v ns))
  ]

  All-store :
      (z : MapNode K V) (k : K) (v : V) (ns : List (MapNode K V))
      → All (IsBelow z) ns
      → All (IsBelow z) (store k v ns)
  unfolding store
  All-store z k v [] h = tt
  All-store z k v (n ∷ ns) h = elim (Bool-cases (o.eq n.key k)) [
    | inl e ↦ rw e h
    | inr e ↦ rw e (h.0, All-store z k v ns h.1)
  ]

  IsSorted-store : (k : K) (v : V) (ns : List (MapNode K V)) → IsSorted ns → IsSorted (store k v ns)
  unfolding store
  IsSorted-store k v [] s = tt
  IsSorted-store k v (n ∷ ns) s = elim (Bool-cases (o.eq n.key k)) [
    | inl e ↦ rw e s
    | inr e ↦ rw e (All-store n k v ns s.0, IsSorted-store k v ns s.1)
  ]

  find-store :
      (x y : MapNode K V) (v : V) (ns : List (MapNode K V))
      → find y (store x.key v ns)
        ≡ (if o.eq x.key y.key then with_value v (find y ns) else find y ns)
  unfolding store find
  find-store x y v [] = elim (Bool-cases (o.eq x.key y.key)) [
    | inl e ↦ rw e refl
    | inr e ↦ rw e refl
  ]
  find-store x y v (n ∷ ns) = elim (Bool-cases (o.eq n.key x.key)) [
    | inl here ↦ elim (Bool-cases (o.eq x.key y.key)) [
      | inl e ↦ rw (here, e, sym ((o.eq_lt x.key y.key n.key e).2) ∙ here) refl
      | inr e ↦ rw (here, e, eq_apart n.key x.key y.key here e) refl
    ]
    | inr there ↦ elim (Bool-cases (o.eq x.key y.key)) [
      | inl e ↦
          rw (there, e, sym ((o.eq_lt x.key y.key n.key e).2) ∙ there, find-store x y v ns)
            (rw e refl)
      | inr e ↦ rw (there, e, find-store x y v ns) (rw e refl)
    ]
  ]

  store-append_left :
      (x : MapNode K V) (v : V) (xs ys : List (MapNode K V))
      → All (Differs x) ys
      → store x.key v (xs ++ ys) ≡ store x.key v xs ++ ys
  unfolding store
  store-append_left x v [] [] h = refl
  store-append_left x v [] (y ∷ ys) h = rw (h.0) (ap (◌∷◌ y) (store-append_left x v [] ys h.1))
  store-append_left x v (z ∷ xs) ys h = elim (Bool-cases (o.eq z.key x.key)) [
    | inl e ↦ rw e refl
    | inr e ↦ rw e (ap (◌∷◌ z) (store-append_left x v xs ys h))
  ]

  store-append_right :
      (x : MapNode K V) (v : V) (xs ys : List (MapNode K V))
      → All (Differs x) xs
      → store x.key v (xs ++ ys) ≡ xs ++ store x.key v ys
  unfolding store
  store-append_right x v [] ys h = refl
  store-append_right x v (z ∷ xs) ys h = rw (h.0) (ap (◌∷◌ z) (store-append_right x v xs ys h.1))

  module _ (initial : V) where
    write_from-list :
        (t : Tree (MapNode K V)) (k : K) (v : V)
        → IsSorted (to_list t)
        → to_list (write_from initial t k v) ≡ store k v (to_list t)
    unfolding write_from store
    write_from-list leaf k v s = refl
    write_from-list (node c l n r) k v s =
        let x = key_node initial k in
        let (sl, hl, hr, sr) = IsSorted-append (to_list l) n (to_list r) s in
        elim (Bool-cases (o.eq n.key k)) [
          | inl e ↦
              rw
                (
                  e,
                  store-append_right x v (to_list l) (n ∷ to_list r)
                      (Differs-of_eq x n (to_list l) e hl),
                )
                (rw e refl)
          | inr e ↦ elim (Bool-cases (o.gt n.key k)) [
            | inl g ↦
                let below = sym (o.gt_lt n.key k) ∙ g in
                rw
                  (
                    e,
                    g,
                    store-append_left x v (to_list l) (n ∷ to_list r)
                        (e, Differs-of_above x n (to_list r) below hr),
                  )
                  (ap (λ z. z ++ (n ∷ to_list r)) (write_from-list l k v sl))
            | inr g ↦
                let above = o.trichotomy n.key k e (sym (o.gt_lt n.key k) ∙ g) in
                rw
                  (
                    e,
                    g,
                    store-append_right x v (to_list l) (n ∷ to_list r)
                        (Differs-of_below x n (to_list l) above hl),
                  )
                  (rw e (ap (λ z. to_list l ++ (n ∷ z)) (write_from-list r k v sr)))
          ]
        ]

    write_from-color :
        (t : Tree (MapNode K V)) (k : K) (v : V) → color (write_from initial t k v) ≡ color t
    unfolding write_from
    write_from-color leaf k v = refl
    write_from-color (node c l n r) k v = elim (Bool-cases (o.eq n.key k)) [
      | inl e ↦ rw e refl
      | inr e ↦ elim (Bool-cases (o.gt n.key k)) [ inl g ↦ rw (e, g) refl | inr g ↦ rw (e, g) refl ]
    ]

    write_from-IsBalanced :
        (h : ℕ) (t : Tree (MapNode K V)) (k : K) (v : V)
        → IsBalanced h t
        → IsBalanced h (write_from initial t k v)
    unfolding write_from
    write_from-IsBalanced zero leaf k v b = b
    write_from-IsBalanced (suc h) leaf k v b = b
    write_from-IsBalanced zero (node black l n r) k v b = absurd b
    write_from-IsBalanced (suc h) (node black l n r) k v b = elim (Bool-cases (o.eq n.key k)) [
      | inl e ↦ rw e b
      | inr e ↦ elim (Bool-cases (o.gt n.key k)) [
        | inl g ↦ rw (e, g) (write_from-IsBalanced h l k v b.0, b.1)
        | inr g ↦ rw (e, g) (b.0, write_from-IsBalanced h r k v b.1)
      ]
    ]
    write_from-IsBalanced h (node red l n r) k v b = elim (Bool-cases (o.eq n.key k)) [
      | inl e ↦ rw e b
      | inr e ↦ elim (Bool-cases (o.gt n.key k)) [
        | inl g ↦
            rw (e, g) (write_from-color l k v ∙ b.0, b.1, write_from-IsBalanced h l k v b.2, b.3)
        | inr g ↦
            rw (e, g) (b.0, write_from-color r k v ∙ b.1, b.2, write_from-IsBalanced h r k v b.3)
      ]
    ]

    -- A store through a pointer keeps the tree valid.
    pub write-IsValid : (m : Map K V) (k : K) (v : V) → IsValid m → IsValid (write initial m k v)
    unfolding write
    write-IsValid m k v valid =
        let (e, (h, b)) = valid.red_black in
        let list = write_from-list m.root k v valid.sorted in
        record {
          sorted = rw list (IsSorted-store k v (to_list m.root) valid.sorted);
          red_black = (write_from-color m.root k v ∙ e, (h, write_from-IsBalanced h m.root k v b));
          counted =
              valid.counted
              ∙ ap (λ z. z % 2 ^ 32) (sym (ap length list ∙ length-store k v (to_list m.root)));
        }

    -- What a search finds after a store: the new value at its key, where that key is.
    pub search-write :
        (m : Map K V) (x y : MapNode K V) (v : V)
        → IsValid m
        → search (write initial m x.key v) y
          ≡ (if o.eq x.key y.key then with_value v (search m y) else search m y)
    search-write m x y v valid =
        search-eq-find (write initial m x.key v) y ((write-IsValid m x.key v valid).sorted)
        ∙ ap (find y) (written m x.key v valid)
        ∙ find-store x y v (to_list m.root)
        ∙ sym (rw (search-eq-find m y valid.sorted) refl)
      where
        written :
            (m : Map K V) (k : K) (v : V)
            → IsValid m
            → to_list (write initial m k v).root ≡ store k v (to_list m.root)
        written m k v valid = unfold write in write_from-list m.root k v valid.sorted
