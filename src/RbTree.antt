-- ===== src/RbTree.antt =====
-- src/xty_rbtree.h, lines 58 to 584 and 1048 to 1073: the red-black tree, its insertion and search.
-- Nodes linked by m_pLeft, m_pRight and m_pParent are a tree with a cursor in it (a node and the
-- path of its ancestors, nearest first); &m_Sentinel is `leaf`, and it is black. A store through
-- m_pParent changes the nearest frame of the path.
pub mod Sorted
pub mod Remove
pub mod Inorder
pub mod Balance
pub mod Search
pub mod Insert
pub mod Delete
pub mod Height
pub mod Iterator
pub mod Visit
mod Tests
use xty.Base.{
  ℕ, zero, suc, ◌+◌, ◌%◌, ◌^◌, Bool, true, false, Option, none, some, List, [], ◌∷◌, length,
  if◌then◌else◌,
}
use xty.Comparable.{Comparable}

-- XTY_RBT_RED and XTY_RBT_BLACK
pub data Color : Type 0 where
  red black : Color

abbrev pub is_red : Color → Bool
is_red red = true
is_red black = false

pub data Tree {ℓ} (A : Type ℓ) : Type ℓ where
  leaf : Tree A
  node : Color → Tree A → A → Tree A → Tree A

-- An ancestor of the cursor: the cursor is in its left, or its right, subtree.
pub data Frame {ℓ} (A : Type ℓ) : Type ℓ where
  in_left : Color → A → Tree A → Frame A
  in_right : Color → Tree A → A → Frame A

pub record Cursor {ℓ} (A : Type ℓ) : Type ℓ where
  pub focus : Tree A
  pub path : List (Frame A)

module _ {ℓ} {A : Type ℓ} where
  -- `p->m_Color`
  abbrev pub color : Tree A → Color
  color leaf = black
  color (node c l k r) = c

  abbrev pub frame_color : Frame A → Color
  frame_color (in_left c k r) = c
  frame_color (in_right c l k) = c

  -- `p->m_pParent->m_Color`
  abbrev pub parent_color : List (Frame A) → Color
  parent_color [] = black
  parent_color (f ∷ fs) = frame_color f

  -- `p->m_Color = c`
  abbrev pub paint : Color → Tree A → Tree A
  paint c leaf = leaf
  paint c (node d l k r) = node c l k r

  abbrev pub fill : Frame A → Tree A → Tree A
  fill (in_left c k r) t = node c t k r
  fill (in_right c l k) t = node c l k t

  -- the whole tree, from m_pRoot
  abbrev pub rebuild : Tree A → List (Frame A) → Tree A
  rebuild t [] = t
  rebuild t (f ∷ fs) = rebuild (fill f t) fs

  -- LeftRotate(p): the right child of `p` takes its place; the cursor stays on `p`.
  unfoldable pub left_rotate : Tree A → List (Frame A) → Cursor A
  left_rotate (node cp l k (node ct tl tk tr)) fs = record {
    focus = node cp l k tl;
    path = in_left ct tk tr ∷ fs;
  }
  left_rotate t fs = record { focus = t; path = fs }

  -- RightRotate(p)
  unfoldable pub right_rotate : Tree A → List (Frame A) → Cursor A
  right_rotate (node cp (node ct tl tk tr) k r) fs = record {
    focus = node cp tr k r;
    path = in_right ct tl tk ∷ fs;
  }
  right_rotate t fs = record { focus = t; path = fs }

  -- RightRotate(p->m_pParent->m_pParent): the cursor `p` stays where it is, on either side of
  -- the node that goes up.
  unfoldable pub right_rotate_grandparent : List (Frame A) → List (Frame A)
  right_rotate_grandparent (in_left ct tk tr ∷ in_left cg gk u ∷ fs) =
      in_left ct tk (node cg tr gk u) ∷ fs
  right_rotate_grandparent (in_right ct tl tk ∷ in_left cg gk u ∷ fs) =
      in_left cg gk u ∷ in_right ct tl tk ∷ fs
  right_rotate_grandparent (f ∷ in_right cg (node ct tl tk tr) gk ∷ fs) =
      f ∷ in_right cg tr gk ∷ in_right ct tl tk ∷ fs
  right_rotate_grandparent fs = fs

  -- LeftRotate(p->m_pParent->m_pParent)
  unfoldable pub left_rotate_grandparent : List (Frame A) → List (Frame A)
  left_rotate_grandparent (in_right ct tl tk ∷ in_right cg u gk ∷ fs) =
      in_right ct (node cg u gk tl) tk ∷ fs
  left_rotate_grandparent (in_left ct tk tr ∷ in_right cg u gk ∷ fs) =
      in_right cg u gk ∷ in_left ct tk tr ∷ fs
  left_rotate_grandparent (f ∷ in_left cg gk (node ct tl tk tr) ∷ fs) =
      f ∷ in_left cg gk tl ∷ in_left ct tk tr ∷ fs
  left_rotate_grandparent fs = fs

  abbrev pub paint_frame : Color → Frame A → Frame A
  paint_frame c (in_left d k r) = in_left c k r
  paint_frame c (in_right d l k) = in_right c l k

  -- `p->m_pParent->m_Color = c`
  abbrev pub paint_parent : Color → List (Frame A) → List (Frame A)
  paint_parent c [] = []
  paint_parent c (f ∷ fs) = paint_frame c f ∷ fs

  -- `p->m_pParent->m_pParent->m_Color = c`
  abbrev pub paint_grandparent : Color → List (Frame A) → List (Frame A)
  paint_grandparent c [] = []
  paint_grandparent c (f ∷ fs) = f ∷ paint_parent c fs

  -- Case 2 of InsertFixUp: a right child is brought to the left of its parent.
  unfoldable pub lift_to_left : Tree A → List (Frame A) → Cursor A
  unfolding left_rotate
  lift_to_left t (in_right c l k ∷ fs) = left_rotate (node c l k t) fs
  lift_to_left t fs = record { focus = t; path = fs }

  unfoldable pub lift_to_right : Tree A → List (Frame A) → Cursor A
  unfolding right_rotate
  lift_to_right t (in_left c k r ∷ fs) = right_rotate (node c t k r) fs
  lift_to_right t fs = record { focus = t; path = fs }

  -- Case 3: repaint the parent and the grandparent, and rotate the grandparent.
  unfoldable pub settle_left : Cursor A → Cursor A
  unfolding right_rotate_grandparent
  settle_left c = record c {
    path = right_rotate_grandparent (paint_grandparent red (paint_parent black c.path));
  }

  unfoldable pub settle_right : Cursor A → Cursor A
  unfolding left_rotate_grandparent
  settle_right c = record c {
    path = left_rotate_grandparent (paint_grandparent red (paint_parent black c.path));
  }

  -- Case 1, a red uncle: the parent and the uncle become black, the grandparent becomes red and
  -- is where the loop goes on.
  unfoldable pub split_black : Tree A → Frame A → Frame A → List (Frame A) → Cursor A
  split_black t f (in_left cg gk u) fs = record {
    focus = node red (fill (paint_frame black f) t) gk (paint black u);
    path = fs;
  }
  split_black t f (in_right cg u gk) fs = record {
    focus = node red (paint black u) gk (fill (paint_frame black f) t);
    path = fs;
  }

  -- One round of the loop of InsertFixUp. Without a grandparent nothing is done: the loop runs
  -- under a red parent only, and the root is black.
  unfoldable pub insert_round : Tree A → List (Frame A) → Cursor A
  unfolding split_black lift_to_left settle_left lift_to_right settle_right
  insert_round t (f ∷ in_left cg gk u ∷ fs) =
      if is_red (color u)
      then split_black t f (in_left cg gk u) fs
      else settle_left (lift_to_left t (f ∷ in_left cg gk u ∷ fs))
  insert_round t (f ∷ in_right cg u gk ∷ fs) =
      if is_red (color u)
      then split_black t f (in_right cg u gk) fs
      else settle_right (lift_to_right t (f ∷ in_right cg u gk ∷ fs))
  insert_round t fs = record { focus = t; path = fs }

  -- `while (pNode->m_pParent->m_Color == XTY_RBT_RED)`, on fuel
  unfoldable pub insert_loop : ℕ → Cursor A → Cursor A
  insert_loop zero c = c
  insert_loop (suc fuel) c = elim (is_red (parent_color c.path)) [
    | true ↦ insert_loop fuel (insert_round c.focus c.path)
    | false ↦ c
  ]

  -- InsertFixUp; each round but the last goes two frames up, so the depth is fuel enough.
  unfoldable pub insert_fix_up : Cursor A → Tree A
  insert_fix_up c =
      let done = insert_loop (suc (length c.path)) c in paint black (rebuild done.focus done.path)

-- m_pRoot and m_NodeCount, an `unsigned int`
pub record RbTree {ℓ} (A : Type ℓ) : Type ℓ where
  pub root : Tree A
  pub node_count : ℕ

-- The constructor, and Clear.
abbrev pub empty {ℓ} : {A : Type ℓ} → RbTree A
empty = record { root = leaf; node_count = 0 }

module _ {ℓ} {A : Type ℓ} ⦃o : Comparable A⦄ where
  -- The loop of Search, from a node down; what it returns is the data of the node found.
  unfoldable pub search_from : Tree A → A → Option A
  search_from leaf x = none
  search_from (node c l k r) x =
      let on_left = search_from l x in
      let on_right = search_from r x in
      if o.eq k x then some k else (if o.gt k x then on_left else on_right)

  unfoldable pub search : RbTree A → A → Option A
  search t x = search_from t.root x

  -- The loop of Insert that finds the parent of the new node, `pp`: the nearest frame.
  unfoldable pub find_parent : Tree A → A → List (Frame A) → List (Frame A)
  find_parent leaf x fs = fs
  find_parent (node c l k r) x fs =
      let on_left = find_parent l x (in_left c k r ∷ fs) in
      let on_right = find_parent r x (in_right c l k ∷ fs) in if o.gt k x then on_left else on_right

  -- `if (pNode->m_Data < pp->m_Data) pp->m_pLeft = pNode; else pp->m_pRight = pNode;`
  unfoldable pub attach : A → List (Frame A) → List (Frame A)
  attach x [] = []
  attach x (in_left c k r ∷ fs) = if o.lt x k then in_left c k r ∷ fs else in_right c leaf k ∷ fs
  attach x (in_right c l k ∷ fs) = if o.lt x k then in_left c k leaf ∷ fs else in_right c l k ∷ fs

  -- The tree with the new node in it, red and then repaired.
  unfoldable pub insert_new : Tree A → A → Tree A
  insert_new t x =
      insert_fix_up (record { focus = node red leaf x leaf; path = attach x (find_parent t x []) })

  -- Insert: the node with this data, old or new, and the tree.
  unfoldable pub insert : RbTree A → A → A × RbTree A
  unfolding search
  insert t x = elim (search t x) [
    | some old ↦ (old, t)
    | none ↦ (x, record { root = insert_new t.root x; node_count = (t.node_count + 1) % 2 ^ 32 })
  ]
