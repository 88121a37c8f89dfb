-- ===== src/RbTree/Visit/Complete.antt =====
-- src/xty_rbtree.h: NonRecursiveVisit ends, and prints all layers.
use xty.Base.{
  ℕ, zero, suc, ◌+◌, ◌^◌, ◌≤◌, ◌<◌, ◌≡◌, ◌≢◌, refl, sym, ap, ap₂, ◌∙◌, some, List, [], ◌∷◌, ◌++◌,
  append_assoc, append-nil, ◌==◌, All, length, length-append, true, false, arith,
}
use xty.RbTree.{Tree, leaf, node, RbTree}
use xty.RbTree.Inorder.{to_list}
use xty.RbTree.Height.{depth}
use xty.RbTree.Visit.{
  empty_tree, count_of, layer, node_line, visit_layer, visit_layers, visit_root,
  non_recursive_visit,
}
use xty.RbTree.Visit.Layers.{
  levels, layers_of, layers_from, IsInner, kept, children, depths, sizes, count_up_lem,
  children-IsInner, layers_from-children, layers_from-one, depths-children, sizes-children,
  depth_le_size, push_child_lem,
}

module _ {ℓ} {A : Type ℓ} where
  -- The queue after the children of its first node have been pushed
  pushed : (ts acc ls rs cs : List (Tree A)) → ((ts ++ acc) ++ ls) ++ rs ≡ ts ++ (acc ++ (ls ++ rs))
  pushed ts acc ls rs cs = append_assoc (ts ++ acc) ls rs ∙ append_assoc ts acc (ls ++ rs)

  visit_layer_lem :
      (ts acc : List (Tree A)) (next : ℕ)
      → All IsInner ts
      → next + length (children ts) < 2 ^ 31
      → visit_layer (length ts) (ts ++ acc) next
        ≡ some (levels 0 ts, acc ++ children ts, next + length (children ts))
  unfolding visit_layer
  visit_layer_lem [] acc next inner h =
      ap₂ (λ y z. some ([], y, z)) (sym (append-nil acc)) (omega arith)
  visit_layer_lem (leaf ∷ ts) acc next inner h = absurd inner.0
  visit_layer_lem (node c l x r ∷ ts) acc next inner h =
      let len = length-append (kept l) (kept r ++ children ts) in
      let len' = length-append (kept r) (children ts) in
      let pl = push_child_lem l (ts ++ acc) next (omega (arith, h, len, len')) in
      let pr =
        push_child_lem r ((ts ++ acc) ++ kept l) (next + length (kept l))
          (omega (arith, h, len, len')) in
      let later =
        visit_layer_lem ts (acc ++ (kept l ++ kept r)) (next + length (kept l) + length (kept r))
          inner.1 (omega (arith, h, len, len')) in
      let queue =
        append_assoc acc (kept l ++ kept r) (children ts)
        ∙ ap (λ z. acc ++ z) (append_assoc (kept l) (kept r) (children ts)) in
      let counted : next + length (kept l) + length (kept r) + length (children ts)
          ≡ next + length (kept l ++ (kept r ++ children ts)) =
        omega (arith, len, len') in
      rw (pl, pr, pushed ts acc (kept l) (kept r) [], later, visit_layer)
        (ap₂ (λ y z. some (node_line x c ∷ levels 0 ts, y, z)) queue counted)

  visit_layer_whole :
      (ts : List (Tree A))
      → All IsInner ts
      → length (children ts) < 2 ^ 31
      → visit_layer (length ts) ts 0 ≡ some (levels 0 ts, children ts, length (children ts))
  visit_layer_whole ts inner h =
      let counted : 0 + length (children ts) ≡ length (children ts) = omega arith in
      ap (λ z. visit_layer (length ts) z 0) (sym (append-nil ts))
      ∙ visit_layer_lem ts [] 0 inner (omega (arith, h))
      ∙ ap (λ z. some (levels 0 ts, children ts, z)) counted

  length_le_sizes : (ts : List (Tree A)) → All IsInner ts → length ts ≤ sizes ts
  length_le_sizes ts inner = omega (arith, sizes-children ts inner)

  visit_layers_lem :
      (fuel k : ℕ) (ts : List (Tree A))
      → All IsInner ts
      → depths ts ≤ fuel
      → k + depths ts < 2 ^ 31
      → sizes ts < 2 ^ 31
      → visit_layers fuel k (length ts) ts ≡ some (layers_from (depths ts) k 0 ts)
  unfolding visit_layers depth
  visit_layers_lem fuel k [] inner f d s = refl
  visit_layers_lem fuel k (leaf ∷ ts) inner f d s = absurd inner.0
  visit_layers_lem zero k (node c l x r ∷ ts) inner f d s = absurd (omega (arith, f))
  visit_layers_lem (suc fuel) k (node c l x r ∷ ts) inner f d s =
      let q = node c l x r ∷ ts in
      let below = children-IsInner q in
      let deep = depths-children q in
      let smaller = sizes-children q inner in
      let one =
        visit_layer_whole q inner (omega (arith, length_le_sizes (children q) below, smaller, s)) in
      let rest =
        visit_layers_lem fuel (suc k) (children q) below (omega (arith, deep, f))
          (omega (arith, deep, d)) (omega (arith, smaller, s)) in
      let more : depths q ≡ suc (depths (children q)) = omega (arith, deep) in
      rw (count_up_lem k (omega (arith, d)), one, rest, more, visit_layers)
        (ap (λ z. some (layer k ∷ (levels 0 q ++ z)))
          (sym (layers_from-children (depths (children q)) (suc k) 0 q)))

  visit_root_lem :
      (fuel : ℕ) (t : Tree A)
      → depth t ≤ fuel
      → length (to_list t) < 2 ^ 31
      → visit_root fuel t ≡ some (layers_of (depth t) 0 t)
  unfolding visit_root visit_layers depth
  visit_root_lem fuel leaf f s = refl
  visit_root_lem fuel (node c l x r) f s =
      let t = node c l x r in
      let one : depths (t ∷ []) ≡ depth t = omega arith in
      visit_layers_lem fuel 0 (t ∷ []) (tt, tt) (omega (arith, f))
        (omega (arith, depth_le_size t, s)) (omega (arith, s))
      ∙ ap (λ z. some (layers_from z 0 0 (t ∷ []))) one
      ∙ ap some (layers_from-one (depth t) 0 t)

  -- NonRecursiveVisit ends, on fuel for as many layers as the tree is deep, if the tree has fewer than
  -- 2 ^ 31 nodes. It prints that the tree is empty, if m_NodeCount is 0; and else m_NodeCount and, for
  -- each depth from 0 on, its number and the value and color of all the nodes that are so deep, from
  -- left to right.
  pub non_recursive_visit_lem :
      (fuel : ℕ) (t : RbTree A)
      → depth t.root ≤ fuel
      → length (to_list t.root) < 2 ^ 31
      → (t.node_count ≡ 0 → non_recursive_visit fuel t ≡ some (empty_tree ∷ []))
        × (t.node_count ≢ 0
            → non_recursive_visit fuel t
              ≡ some (count_of t.node_count ∷ layers_of (depth t.root) 0 t.root))
  unfolding non_recursive_visit
  non_recursive_visit_lem fuel t f s = (
    λ zero_count.
        let e : (t.node_count == 0) ≡ true = ground (arith, zero_count) in
        rw (e, non_recursive_visit) refl,
    λ some_there.
        let e : (t.node_count == 0) ≡ false = ground (arith, some_there) in
        rw (e, visit_root_lem fuel t.root f s, non_recursive_visit) refl,
  )
