-- ===== src/RbTree/Visit/Layers.antt =====
-- src/xty_rbtree.h: NonRecursiveVisit prints the nodes of each depth, in the order of the tree.
use Prim.Native.Nat.{max}
use xty.Base.{
  ℕ, zero, suc, ◌+◌, ◌-◌, ◌^◌, ◌≤◌, ◌<◌, ◌≡◌, refl, sym, ap, ap₂, ◌∙◌, some, List, [], ◌∷◌, ◌++◌,
  append_assoc, append-nil, ltb, All, length, length-append, total, true, arith,
}
use xty.RbTree.{Tree, leaf, node}
use xty.RbTree.Inorder.{to_list}
use xty.RbTree.Height.{depth}
use xty.RbTree.Visit.{Printed, layer, node_line, count_up, push_child}

pub count_up_lem : (n : ℕ) → suc n < 2 ^ 31 → count_up n ≡ some (suc n)
unfolding count_up
count_up_lem n h =
    let fits : ltb (suc n) (2 ^ 31) ≡ true = ground (arith, h) in rw (fits, count_up) refl

module _ {ℓ} {A : Type ℓ} where
  -- The nodes of this depth, from left to right
  abbrev pub level : ℕ → Tree A → List (Printed A)
  level n leaf = []
  level zero (node c l x r) = node_line x c ∷ []
  level (suc n) (node c l x r) = level n l ++ level n r

  abbrev pub levels : ℕ → List (Tree A) → List (Printed A)
  levels n [] = []
  levels n (t ∷ ts) = level n t ++ levels n ts

  -- So many layers, from this depth on
  abbrev pub layers_of : ℕ → ℕ → Tree A → List (Printed A)
  layers_of zero d t = []
  layers_of (suc n) d t = layer d ∷ (level d t ++ layers_of n (suc d) t)

  abbrev pub layers_from : ℕ → ℕ → ℕ → List (Tree A) → List (Printed A)
  layers_from zero k d ts = []
  layers_from (suc n) k d ts = layer k ∷ (levels d ts ++ layers_from n (suc k) (suc d) ts)

  abbrev pub IsInner : Tree A → Type 0
  IsInner leaf = ⊥
  IsInner (node c l x r) = Unit

  -- What is pushed for a child, and for a layer
  abbrev pub kept : Tree A → List (Tree A)
  kept leaf = []
  kept (node c l x r) = node c l x r ∷ []

  abbrev pub children : List (Tree A) → List (Tree A)
  children [] = []
  children (leaf ∷ ts) = children ts
  children (node c l x r ∷ ts) = kept l ++ (kept r ++ children ts)

  abbrev pub depths : List (Tree A) → ℕ
  depths [] = 0
  depths (t ∷ ts) = max (depth t) (depths ts)

  abbrev pub sizes : List (Tree A) → ℕ
  sizes = total (λ t. length (to_list t))

  kept-IsInner : (t : Tree A) (us : List (Tree A)) → All IsInner us → All IsInner (kept t ++ us)
  kept-IsInner leaf us h = h
  kept-IsInner (node c l x r) us h = (tt, h)

  pub children-IsInner : (ts : List (Tree A)) → All IsInner (children ts)
  children-IsInner [] = tt
  children-IsInner (leaf ∷ ts) = children-IsInner ts
  children-IsInner (node c l x r ∷ ts) =
      kept-IsInner l (kept r ++ children ts) (kept-IsInner r (children ts) (children-IsInner ts))

  levels-kept :
      (n : ℕ) (t : Tree A) (us : List (Tree A)) → levels n (kept t ++ us) ≡ level n t ++ levels n us
  levels-kept n leaf us = refl
  levels-kept n (node c l x r) us = refl

  levels-children : (n : ℕ) (ts : List (Tree A)) → levels (suc n) ts ≡ levels n (children ts)
  levels-children n [] = refl
  levels-children n (leaf ∷ ts) = levels-children n ts
  levels-children n (node c l x r ∷ ts) =
      append_assoc (level n l) (level n r) (levels (suc n) ts)
      ∙ ap (λ z. level n l ++ (level n r ++ z)) (levels-children n ts)
      ∙ ap (λ z. level n l ++ z) (sym (levels-kept n r (children ts)))
      ∙ sym (levels-kept n l (kept r ++ children ts))

  pub layers_from-children :
      (n k d : ℕ) (ts : List (Tree A))
      → layers_from n k (suc d) ts ≡ layers_from n k d (children ts)
  layers_from-children zero k d ts = refl
  layers_from-children (suc n) k d ts =
      ap₂ (λ y z. layer k ∷ (y ++ z)) (levels-children d ts)
        (layers_from-children n (suc k) (suc d) ts)

  pub layers_from-one : (n d : ℕ) (t : Tree A) → layers_from n d d (t ∷ []) ≡ layers_of n d t
  layers_from-one zero d t = refl
  layers_from-one (suc n) d t =
      ap₂ (λ y z. layer d ∷ (y ++ z)) (append-nil (level d t)) (layers_from-one n (suc d) t)

  depths-kept :
      (t : Tree A) (us : List (Tree A)) → depths (kept t ++ us) ≡ max (depth t) (depths us)
  unfolding depth
  depths-kept leaf us = omega arith
  depths-kept (node c l x r) us = refl

  pub depths-children : (ts : List (Tree A)) → depths (children ts) ≡ depths ts - 1
  unfolding depth
  depths-children [] = refl
  depths-children (leaf ∷ ts) = omega (arith, depths-children ts)
  depths-children (node c l x r ∷ ts) = omega (
    arith,
    depths-kept l (kept r ++ children ts),
    depths-kept r (children ts),
    depths-children ts,
  )

  sizes-kept :
      (t : Tree A) (us : List (Tree A)) → sizes (kept t ++ us) ≡ length (to_list t) + sizes us
  sizes-kept leaf us = omega arith
  sizes-kept (node c l x r) us = refl

  pub sizes-children :
      (ts : List (Tree A)) → All IsInner ts → sizes (children ts) + length ts ≤ sizes ts
  sizes-children [] h = omega arith
  sizes-children (leaf ∷ ts) h = absurd h.0
  sizes-children (node c l x r ∷ ts) h = omega (
    arith,
    sizes-kept l (kept r ++ children ts),
    sizes-kept r (children ts),
    sizes-children ts h.1,
    length-append (to_list l) (x ∷ to_list r),
  )

  pub depth_le_size : (t : Tree A) → depth t ≤ length (to_list t)
  unfolding depth
  depth_le_size leaf = omega arith
  depth_le_size (node c l x r) =
      omega (arith, depth_le_size l, depth_le_size r, length-append (to_list l) (x ∷ to_list r))

  pub push_child_lem :
      (t : Tree A) (q : List (Tree A)) (next : ℕ)
      → next + length (kept t) < 2 ^ 31
      → push_child t q next ≡ some (q ++ kept t, next + length (kept t))
  unfolding push_child
  push_child_lem leaf q next h = ap₂ (λ y z. some (y, z)) (sym (append-nil q)) (omega arith)
  push_child_lem (node c l x r) q next h =
      let more : suc next ≡ next + 1 = omega arith in
      rw (count_up_lem next (omega (arith, h)), push_child)
        (ap (λ z. some (q ++ (node c l x r ∷ []), z)) more)
