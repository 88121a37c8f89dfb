-- ===== src/RbTree/Iterator.antt =====
-- src/xty_rbtree.h, lines 1085 to 1255: xtyRbTreeIterator. m_pNode is a cursor in the tree; the
-- sentinel, where End stands, is `none`.
pub mod Forward
pub mod Backward
use xty.Base.{
  ℕ, zero, suc, ◌≤◌, ◌≡◌, refl, ap, sym, ◌∙◌, Option, none, some, List, [], ◌∷◌, ◌++◌, append_assoc,
  append-nil, length, length-append, arith,
}
use xty.RbTree.{Color, Tree, leaf, node, Frame, in_left, in_right, Cursor, RbTree}
use xty.RbTree.Inorder.{to_list, before, after}

module _ {ℓ} {A : Type ℓ} where
  -- LeftMost(p), and the inner loop of Increment
  unfoldable pub down_left : Color → Tree A → A → Tree A → List (Frame A) → Cursor A
  down_left c leaf k r fs = record { focus = node c leaf k r; path = fs }
  down_left c (node cl ll lk lr) k r fs = down_left cl ll lk lr (in_left c k r ∷ fs)

  -- The loop that goes up while the cursor is a right child, and what is done at its end.
  unfoldable pub up_from_right : Tree A → List (Frame A) → Option (Cursor A)
  up_from_right t [] = none
  up_from_right t (in_right c l k ∷ fs) = up_from_right (node c l k t) fs
  up_from_right t (in_left c k r ∷ fs) = some (record { focus = node c t k r; path = fs })

  -- Increment, at the parts of a node
  unfoldable pub increment_at : Color → Tree A → A → Tree A → List (Frame A) → Option (Cursor A)
  unfolding down_left up_from_right
  increment_at c l k (node cr rl rk rr) fs = some (down_left cr rl rk rr (in_right c l k ∷ fs))
  increment_at c l k leaf fs = up_from_right (node c l k leaf) fs

  unfoldable pub increment : Cursor A → Option (Cursor A)
  unfolding increment_at
  increment p = elim p.focus [ leaf ↦ none | node c l k r ↦ increment_at c l k r p.path ]

  -- Decrement, the mirror image
  unfoldable pub down_right : Color → Tree A → A → Tree A → List (Frame A) → Cursor A
  down_right c l k leaf fs = record { focus = node c l k leaf; path = fs }
  down_right c l k (node cr rl rk rr) fs = down_right cr rl rk rr (in_right c l k ∷ fs)

  unfoldable pub up_from_left : Tree A → List (Frame A) → Option (Cursor A)
  up_from_left t [] = none
  up_from_left t (in_left c k r ∷ fs) = up_from_left (node c t k r) fs
  up_from_left t (in_right c l k ∷ fs) = some (record { focus = node c l k t; path = fs })

  unfoldable pub decrement_at : Color → Tree A → A → Tree A → List (Frame A) → Option (Cursor A)
  unfolding down_right up_from_left
  decrement_at c (node cl ll lk lr) k r fs = some (down_right cl ll lk lr (in_left c k r ∷ fs))
  decrement_at c leaf k r fs = up_from_left (node c leaf k r) fs

  unfoldable pub decrement : Cursor A → Option (Cursor A)
  unfolding decrement_at
  decrement p = elim p.focus [ leaf ↦ none | node c l k r ↦ decrement_at c l k r p.path ]

  -- Begin, which is End on an empty tree, and ReverseBegin
  unfoldable pub begin : RbTree A → Option (Cursor A)
  unfolding down_left
  begin t = elim t.root [ leaf ↦ none | node c l k r ↦ some (down_left c l k r []) ]

  unfoldable pub reverse_begin : RbTree A → Option (Cursor A)
  unfolding down_right
  reverse_begin t = elim t.root [ leaf ↦ none | node c l k r ↦ some (down_right c l k r []) ]

  -- `*Iter`, as a list of at most one element: the sentinel holds no data.
  abbrev pub here : Cursor A → List A
  here p = elim p.focus [ leaf ↦ [] | node c l k r ↦ k ∷ [] ]

  -- `for (Iter = Iter.Begin(); Iter != Iter.End(); ++Iter)`: the data seen, on fuel
  unfoldable pub walk : ℕ → Option (Cursor A) → List A
  walk fuel none = []
  walk zero (some p) = []
  walk (suc fuel) (some p) = here p ++ walk fuel (increment p)

  unfoldable pub walk_back : ℕ → Option (Cursor A) → List A
  walk_back fuel none = []
  walk_back zero (some p) = []
  walk_back (suc fuel) (some p) = walk_back fuel (decrement p) ++ here p

  -- The cursor `(t, fs)` as an iterator
  abbrev pub at : Tree A → List (Frame A) → Option (Cursor A)
  at t fs = some (record { focus = t; path = fs })
