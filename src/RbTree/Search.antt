-- ===== src/RbTree/Search.antt =====
-- src/xty_rbtree.h, Search: the way down a sorted tree finds what a search of all nodes finds.
use xty.Base.{◌≡◌, refl, sym, ◌∙◌, true, false, some, List, ◌∷◌, ◌++◌, All, Bool-cases, inl, inr}
use xty.Comparable.{Comparable}
use xty.RbTree.{Tree, leaf, node, RbTree, search_from, search}
use xty.RbTree.Inorder.{to_list}
use xty.RbTree.Sorted.{
  IsSorted, IsBelow, find, find-append_left, find-append_right, IsSorted-append, Differs-of_above,
  Differs-of_below, Differs-of_eq,
}

module _ {ℓ} {A : Type ℓ} ⦃o : Comparable A⦄ where
  find_here :
      (x k : A) (xs ys : List A)
      → o.eq k x ≡ true
      → All (λ y. IsBelow y k) xs
      → find x (xs ++ (k ∷ ys)) ≡ some k
  unfolding find
  find_here x k xs ys e h = find-append_right x xs (k ∷ ys) (Differs-of_eq x k xs e h) ∙ rw e refl

  find_left :
      (x k : A) (xs ys : List A)
      → o.eq k x ≡ false
      → IsBelow x k
      → All (IsBelow k) ys
      → find x (xs ++ (k ∷ ys)) ≡ find x xs
  find_left x k xs ys e p h = find-append_left x xs (k ∷ ys) (e, Differs-of_above x k ys p h)

  find_right :
      (x k : A) (xs ys : List A)
      → o.eq k x ≡ false
      → IsBelow k x
      → All (λ y. IsBelow y k) xs
      → find x (xs ++ (k ∷ ys)) ≡ find x ys
  unfolding find
  find_right x k xs ys e p h =
      find-append_right x xs (k ∷ ys) (Differs-of_below x k xs p h) ∙ rw e refl

  pub search_from-eq-find :
      (t : Tree A) (x : A) → IsSorted (to_list t) → search_from t x ≡ find x (to_list t)
  unfolding search_from
  search_from-eq-find leaf x s = unfold find in refl
  search_from-eq-find (node c l k r) x s =
      let (sl, hl, hr, sr) = IsSorted-append (to_list l) k (to_list r) s in
      elim (Bool-cases (o.eq k x)) [
        | inl e ↦ rw e (sym (find_here x k (to_list l) (to_list r) e hl))
        | inr e ↦ elim (Bool-cases (o.gt k x)) [
          | inl g ↦
              rw (e, g)
                (search_from-eq-find l x sl
                  ∙ sym (find_left x k (to_list l) (to_list r) e (sym (o.gt_lt k x) ∙ g) hr))
          | inr g ↦
              rw (e, g)
                (search_from-eq-find r x sr
                  ∙ sym (
                      find_right x k (to_list l) (to_list r) e
                        (o.trichotomy k x e (sym (o.gt_lt k x) ∙ g)) hl))
        ]
      ]

  -- Search on a tree with its data in strict order is the search through all of its data.
  pub search-eq-find :
      (t : RbTree A) (x : A) → IsSorted (to_list t.root) → search t x ≡ find x (to_list t.root)
  unfolding search
  search-eq-find t x s = search_from-eq-find t.root x s
