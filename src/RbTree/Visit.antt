-- ===== src/RbTree/Visit.antt =====
-- src/xty_rbtree.h, lines 985 to 1047: NonRecursiveVisit, which prints the tree layer by layer. What
-- it prints is a list; the counters are of type int, and one that overflows has no result.
pub mod Layers
pub mod Complete
use xty.Base.{
  ℕ, zero, suc, ◌+◌, ◌^◌, Option, none, some, List, [], ◌∷◌, ◌++◌, if◌then◌else◌, ltb, ◌==◌,
}
use xty.RbTree.{Color, Tree, leaf, node, RbTree}

pub data Printed {ℓ} (A : Type ℓ) : Type ℓ where
  empty_tree : Printed A
  count_of : ℕ → Printed A
  layer : ℕ → Printed A
  node_line : A → Color → Printed A

-- `++` on an int
unfoldable pub count_up : ℕ → Option ℕ
count_up n = if ltb (suc n) (2 ^ 31) then some (suc n) else none

module _ {ℓ} {A : Type ℓ} where
  -- A child that is not the sentinel is pushed, and NodeNextLayer counted up.
  unfoldable pub push_child : Tree A → List (Tree A) → ℕ → Option (List (Tree A) × ℕ)
  unfolding count_up
  push_child leaf q next = some (q, next)
  push_child (node c l x r) q next = elim (count_up next) [
    | none ↦ none
    | some next' ↦ some (q ++ (node c l x r ∷ []), next')
  ]

  -- The loop over the nodes of one layer, of which so many are left: what it prints, the queue after
  -- it, and NodeNextLayer. A queue that is empty has no front.
  unfoldable pub visit_layer : ℕ → List (Tree A) → ℕ → Option (List (Printed A) × List (Tree A) × ℕ)
  unfolding push_child
  visit_layer zero q next = some ([], q, next)
  visit_layer (suc i) [] next = none
  visit_layer (suc i) (leaf ∷ q) next = none
  visit_layer (suc i) (node c l x r ∷ q) next = elim (push_child l q next) [
    | none ↦ none
    | some (q1, next1) ↦ elim (push_child r q1 next1) [
      | none ↦ none
      | some (q2, next2) ↦ elim (visit_layer i q2 next2) [
        | none ↦ none
        | some (lines, q3, next3) ↦ some (node_line x c ∷ lines, q3, next3)
      ]
    ]
  ]

  -- The loop over the layers, on fuel: LayerCount, NodeThisLayer and the queue
  unfoldable pub visit_layers : ℕ → ℕ → ℕ → List (Tree A) → Option (List (Printed A))
  unfolding visit_layer count_up
  visit_layers fuel layer_count this_layer [] = some []
  visit_layers zero layer_count this_layer (t ∷ q) = none
  visit_layers (suc fuel) layer_count this_layer (t ∷ q) = elim (count_up layer_count) [
    | none ↦ none
    | some layer_count' ↦ elim (visit_layer this_layer (t ∷ q) 0) [
      | none ↦ none
      | some (lines, q', next) ↦ elim (visit_layers fuel layer_count' next q') [
        | none ↦ none
        | some rest ↦ some (layer layer_count ∷ (lines ++ rest))
      ]
    ]
  ]

  -- `if (p != &m_Sentinel)`, q.push and NodeThisLayer
  unfoldable pub visit_root : ℕ → Tree A → Option (List (Printed A))
  unfolding visit_layers
  visit_root fuel leaf = visit_layers fuel 0 0 []
  visit_root fuel (node c l x r) = visit_layers fuel 0 1 (node c l x r ∷ [])

  unfoldable pub non_recursive_visit : ℕ → RbTree A → Option (List (Printed A))
  unfolding visit_root
  non_recursive_visit fuel t =
      let visited : Option (List (Printed A)) = elim (visit_root fuel t.root) [
        | none ↦ none
        | some lines ↦ some (count_of t.node_count ∷ lines)
      ] in
      if t.node_count == 0 then some (empty_tree ∷ []) else visited
