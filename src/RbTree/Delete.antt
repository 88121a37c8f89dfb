-- ===== src/RbTree/Delete.antt =====
-- src/xty_rbtree.h, lines 129 to 165 and 586 to 954: Delete, with LeftMost, TransPlant and
-- DeleteFixUp, on the tree with a cursor of RbTree.
pub mod Order
pub mod Balance
pub mod Loop
pub mod TakeOut
pub mod Valid
use xty.Base.{
  ℕ, zero, suc, ◌+◌, ◌-◌, ◌%◌, ◌^◌, Bool, true, false, not, ◌&&◌, Option, none, some, List, [], ◌∷◌,
  ◌++◌, length, if◌then◌else◌,
}
use xty.Comparable.{Comparable}
use xty.RbTree.{
  Color, red, black, is_red, Tree, leaf, node, Frame, in_left, in_right, Cursor, RbTree, color,
  paint, rebuild,
}

abbrev pub is_black : Color → Bool
is_black c = not (is_red c)

-- LeftMost, from a node given by its parts: the node that the loop stops at has no left child.
-- The path leads from it to where the loop began.
pub record LeftMost {ℓ} (A : Type ℓ) : Type ℓ where
  pub color_save : Color
  pub data_kept : A
  pub right_child : Tree A
  pub way_up : List (Frame A)

-- The node at the cursor taken out: pFixPosition as the cursor, and color_save.
pub record Removal {ℓ} (A : Type ℓ) : Type ℓ where
  pub fix_position : Cursor A
  pub color_save : Color

module _ {ℓ} {A : Type ℓ} where
  unfoldable pub left_most : Color → Tree A → A → Tree A → List (Frame A) → LeftMost A
  left_most c leaf k r fs = record { color_save = c; data_kept = k; right_child = r; way_up = fs }
  left_most c (node cl ll lk lr) k r fs = left_most cl ll lk lr (in_left c k r ∷ fs)

  -- The three cases of Delete. TransPlant puts a subtree in the place of a node.
  unfoldable pub take_out : Color → Tree A → A → Tree A → List (Frame A) → Removal A
  unfolding left_most
  take_out c leaf k r fs = record { fix_position = record { focus = r; path = fs }; color_save = c }
  take_out c (node cl ll lk lr) k leaf fs = record {
    fix_position = record { focus = node cl ll lk lr; path = fs };
    color_save = c;
  }
  take_out c (node cl ll lk lr) k (node cr rl rk rr) fs =
      let m = left_most cr rl rk rr [] in
      record {
        fix_position = record {
          focus = m.right_child;
          path = m.way_up ++ (in_right c (node cl ll lk lr) m.data_kept ∷ fs);
        };
        color_save = m.color_save;
      }

  -- Case 3 of DeleteFixUp: the red child of the sibling that is near the cursor goes up.
  unfoldable pub near_up_left : Tree A → Tree A
  near_up_left (node cs (node cl ll lk lr) sk sr) =
      if is_black (color sr)
      then node black ll lk (node red lr sk sr)
      else node cs (node cl ll lk lr) sk sr
  near_up_left s = s

  unfoldable pub near_up_right : Tree A → Tree A
  near_up_right (node cs sl sk (node cr rl rk rr)) =
      if is_black (color sl)
      then node black (node red sl sk rl) rk rr
      else node cs sl sk (node cr rl rk rr)
  near_up_right s = s

  -- Case 4: the parent is rotated towards the cursor; then `pNode = m_pRoot`.
  unfoldable pub far_up_left : Tree A → Color → A → Tree A → List (Frame A) → Cursor A
  far_up_left t cp pk (node cs sl sk sr) fs = record {
    focus = rebuild (node cp (node black t pk sl) sk (paint black sr)) fs;
    path = [];
  }
  far_up_left t cp pk leaf fs = record { focus = rebuild (node black t pk leaf) fs; path = [] }

  unfoldable pub far_up_right : Tree A → Color → A → Tree A → List (Frame A) → Cursor A
  far_up_right t cp pk (node cs sl sk sr) fs = record {
    focus = rebuild (node cp (paint black sl) sk (node black sr pk t)) fs;
    path = [];
  }
  far_up_right t cp pk leaf fs = record { focus = rebuild (node black leaf pk t) fs; path = [] }

  abbrev pub has_black_children : Tree A → Bool
  has_black_children leaf = true
  has_black_children (node c l k r) = is_black (color l) && is_black (color r)

  -- Cases 2 to 4, under a black sibling: the cursor is the left child of (cp, pk), in `fs`.
  unfoldable pub borrow_left : Tree A → Color → A → Tree A → List (Frame A) → Cursor A
  unfolding near_up_left far_up_left
  borrow_left t cp pk s fs =
      if has_black_children s
      then record { focus = node cp t pk (paint red s); path = fs }
      else far_up_left t cp pk (near_up_left s) fs

  unfoldable pub borrow_right : Tree A → Color → A → Tree A → List (Frame A) → Cursor A
  unfolding near_up_right far_up_right
  borrow_right t cp pk s fs =
      if has_black_children s
      then record { focus = node cp (paint red s) pk t; path = fs }
      else far_up_right t cp pk (near_up_right s) fs

  -- One round of the loop of DeleteFixUp. Case 1: a red sibling goes up first.
  unfoldable pub delete_round : Tree A → List (Frame A) → Cursor A
  unfolding borrow_left borrow_right
  delete_round t (in_left cp pk (node red sl sk sr) ∷ fs) =
      borrow_left t red pk sl (in_left black sk sr ∷ fs)
  delete_round t (in_left cp pk (node black sl sk sr) ∷ fs) =
      borrow_left t cp pk (node black sl sk sr) fs
  delete_round t (in_left cp pk leaf ∷ fs) = borrow_left t cp pk leaf fs
  delete_round t (in_right cp (node red sl sk sr) pk ∷ fs) =
      borrow_right t red pk sr (in_right black sl sk ∷ fs)
  delete_round t (in_right cp (node black sl sk sr) pk ∷ fs) =
      borrow_right t cp pk (node black sl sk sr) fs
  delete_round t (in_right cp leaf pk ∷ fs) = borrow_right t cp pk leaf fs
  delete_round t [] = record { focus = t; path = [] }

  -- `(pNode != m_pRoot) && (pNode->m_Color == XTY_RBT_BLACK)`
  abbrev pub is_short : Cursor A → Bool
  is_short c = elim c.path [ [] ↦ false | f ∷ fs ↦ is_black (color c.focus) ]

  unfoldable pub delete_loop : ℕ → Cursor A → Cursor A
  delete_loop zero c = c
  delete_loop (suc fuel) c = elim (is_short c) [
    | true ↦ delete_loop fuel (delete_round c.focus c.path)
    | false ↦ c
  ]

  -- DeleteFixUp; a round goes up one frame or is the last but one.
  unfoldable pub delete_fix_up : Cursor A → Tree A
  delete_fix_up c =
      let done = delete_loop (suc (suc (length c.path))) c in
      rebuild (paint black done.focus) done.path

  -- Delete, from the node found on.
  unfoldable pub delete_node : Color → Tree A → A → Tree A → List (Frame A) → Tree A
  unfolding take_out delete_fix_up
  delete_node c l k r fs =
      let out = take_out c l k r fs in
      if is_black out.color_save
      then delete_fix_up out.fix_position
      else rebuild out.fix_position.focus out.fix_position.path

module _ {ℓ} {A : Type ℓ} ⦃o : Comparable A⦄ where
  -- The loop of Search, with the path to the node found.
  unfoldable pub locate : Tree A → A → List (Frame A) → Option (Cursor A)
  locate leaf x fs = none
  locate (node c l k r) x fs =
      let on_left = locate l x (in_left c k r ∷ fs) in
      let on_right = locate r x (in_right c l k ∷ fs) in
      if o.eq k x
      then some (record { focus = node c l k r; path = fs })
      else (if o.gt k x then on_left else on_right)

  -- What Delete does with the result of its Search.
  unfoldable pub delete_found : RbTree A → Option (Cursor A) → RbTree A
  delete_found t none = t
  delete_found t (some c) = elim c.focus [
    | leaf ↦ t
    | node d l k r ↦ record {
      root = delete_node d l k r c.path;
      node_count = (t.node_count + 2 ^ 32 - 1) % 2 ^ 32;
    }
  ]

  unfoldable pub delete : RbTree A → A → RbTree A
  unfolding delete_found
  delete t x = delete_found t (locate t.root x [])
