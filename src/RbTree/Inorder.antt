-- ===== src/RbTree/Inorder.antt =====
-- src/xty_rbtree.h: the data of the nodes in order, and that the rotations and InsertFixUp keep it.
use mathlib.Core.List.{append_assoc, append-nil}
use xty.Base.{ℕ, zero, suc, ◌≡◌, refl, ◌∙◌, List, [], ◌∷◌, ◌++◌, length, Bool-cases, inl, inr, sym}
use xty.RbTree.{
  Color, red, black, is_red, Tree, leaf, node, Frame, in_left, in_right, Cursor, color,
  parent_color, paint, fill, rebuild, left_rotate, right_rotate, right_rotate_grandparent,
  left_rotate_grandparent, paint_parent, paint_grandparent, lift_to_left, lift_to_right,
  settle_left, settle_right, split_black, insert_round, insert_loop, insert_fix_up,
}

module _ {ℓ} {A : Type ℓ} where
  abbrev pub to_list : Tree A → List A
  to_list leaf = []
  to_list (node c l k r) = to_list l ++ (k ∷ to_list r)

  -- What stands before, and what after, the cursor.
  abbrev pub before : List (Frame A) → List A
  before [] = []
  before (in_left c k r ∷ fs) = before fs
  before (in_right c l k ∷ fs) = before fs ++ (to_list l ++ (k ∷ []))

  abbrev pub after : List (Frame A) → List A
  after [] = []
  after (in_left c k r ∷ fs) = k ∷ (to_list r ++ after fs)
  after (in_right c l k ∷ fs) = after fs

  abbrev pub around : Tree A → List (Frame A) → List A
  around t fs = before fs ++ (to_list t ++ after fs)

  abbrev pub cursor_list : Cursor A → List A
  cursor_list c = around c.focus c.path

  pub around-fill :
      (t : Tree A) (f : Frame A) (fs : List (Frame A)) → around (fill f t) fs ≡ around t (f ∷ fs)
  around-fill t (in_left c k r) fs = simp append_assoc
  around-fill t (in_right c l k) fs = simp append_assoc

  pub to_list-rebuild : (t : Tree A) (fs : List (Frame A)) → to_list (rebuild t fs) ≡ around t fs
  to_list-rebuild t [] = sym (append-nil (to_list t))
  to_list-rebuild t (f ∷ fs) = to_list-rebuild (fill f t) fs ∙ around-fill t f fs

  pub to_list-paint : (c : Color) (t : Tree A) → to_list (paint c t) ≡ to_list t
  to_list-paint c leaf = refl
  to_list-paint c (node d l k r) = refl

  pub left_rotate_list :
      (t : Tree A) (fs : List (Frame A)) → cursor_list (left_rotate t fs) ≡ around t fs
  unfolding left_rotate
  left_rotate_list (node cp l k (node ct tl tk tr)) fs = simp append_assoc
  left_rotate_list leaf fs = refl
  left_rotate_list (node cp l k leaf) fs = refl

  pub right_rotate_list :
      (t : Tree A) (fs : List (Frame A)) → cursor_list (right_rotate t fs) ≡ around t fs
  unfolding right_rotate
  right_rotate_list (node cp (node ct tl tk tr) k r) fs = simp append_assoc
  right_rotate_list leaf fs = refl
  right_rotate_list (node cp leaf k r) fs = refl

  right_rotate_grandparent_list :
      (t : Tree A) (fs : List (Frame A)) → around t (right_rotate_grandparent fs) ≡ around t fs
  unfolding right_rotate_grandparent
  right_rotate_grandparent_list t (in_left ct tk tr ∷ in_left cg gk u ∷ fs) = simp append_assoc
  right_rotate_grandparent_list t (in_right ct tl tk ∷ in_left cg gk u ∷ fs) = simp append_assoc
  right_rotate_grandparent_list t (in_left c k r ∷ in_right cg (node ct tl tk tr) gk ∷ fs) =
      simp append_assoc
  right_rotate_grandparent_list t (in_right c l k ∷ in_right cg (node ct tl tk tr) gk ∷ fs) =
      simp append_assoc
  right_rotate_grandparent_list t [] = refl
  right_rotate_grandparent_list t (in_left c k r ∷ []) = refl
  right_rotate_grandparent_list t (in_right c l k ∷ []) = refl
  right_rotate_grandparent_list t (in_left c k r ∷ in_right cg leaf gk ∷ fs) = refl
  right_rotate_grandparent_list t (in_right c l k ∷ in_right cg leaf gk ∷ fs) = refl

  left_rotate_grandparent_list :
      (t : Tree A) (fs : List (Frame A)) → around t (left_rotate_grandparent fs) ≡ around t fs
  unfolding left_rotate_grandparent
  left_rotate_grandparent_list t (in_right ct tl tk ∷ in_right cg u gk ∷ fs) = simp append_assoc
  left_rotate_grandparent_list t (in_left ct tk tr ∷ in_right cg u gk ∷ fs) = simp append_assoc
  left_rotate_grandparent_list t (in_left c k r ∷ in_left cg gk (node ct tl tk tr) ∷ fs) =
      simp append_assoc
  left_rotate_grandparent_list t (in_right c l k ∷ in_left cg gk (node ct tl tk tr) ∷ fs) =
      simp append_assoc
  left_rotate_grandparent_list t [] = refl
  left_rotate_grandparent_list t (in_left c k r ∷ []) = refl
  left_rotate_grandparent_list t (in_right c l k ∷ []) = refl
  left_rotate_grandparent_list t (in_left c k r ∷ in_left cg gk leaf ∷ fs) = refl
  left_rotate_grandparent_list t (in_right c l k ∷ in_left cg gk leaf ∷ fs) = refl

  around-paint_parent :
      (c : Color) (t : Tree A) (fs : List (Frame A)) → around t (paint_parent c fs) ≡ around t fs
  around-paint_parent c t [] = refl
  around-paint_parent c t (in_left d k r ∷ fs) = refl
  around-paint_parent c t (in_right d l k ∷ fs) = refl

  around-paint_grandparent :
      (c : Color) (t : Tree A) (fs : List (Frame A))
      → around t (paint_grandparent c fs) ≡ around t fs
  around-paint_grandparent c t [] = refl
  around-paint_grandparent c t (f ∷ fs) =
      sym (around-fill t f (paint_parent c fs))
      ∙ around-paint_parent c (fill f t) fs
      ∙ around-fill t f fs

  lift_to_left_list :
      (t : Tree A) (fs : List (Frame A)) → cursor_list (lift_to_left t fs) ≡ around t fs
  unfolding lift_to_left
  lift_to_left_list t [] = refl
  lift_to_left_list t (in_left c k r ∷ fs) = refl
  lift_to_left_list t (in_right c l k ∷ fs) =
      left_rotate_list (node c l k t) fs ∙ around-fill t (in_right c l k) fs

  lift_to_right_list :
      (t : Tree A) (fs : List (Frame A)) → cursor_list (lift_to_right t fs) ≡ around t fs
  unfolding lift_to_right
  lift_to_right_list t [] = refl
  lift_to_right_list t (in_right c l k ∷ fs) = refl
  lift_to_right_list t (in_left c k r ∷ fs) =
      right_rotate_list (node c t k r) fs ∙ around-fill t (in_left c k r) fs

  settle_left_list : (c : Cursor A) → cursor_list (settle_left c) ≡ cursor_list c
  unfolding settle_left
  settle_left_list c =
      right_rotate_grandparent_list c.focus (paint_grandparent red (paint_parent black c.path))
      ∙ around-paint_grandparent red c.focus (paint_parent black c.path)
      ∙ around-paint_parent black c.focus c.path

  settle_right_list : (c : Cursor A) → cursor_list (settle_right c) ≡ cursor_list c
  unfolding settle_right
  settle_right_list c =
      left_rotate_grandparent_list c.focus (paint_grandparent red (paint_parent black c.path))
      ∙ around-paint_grandparent red c.focus (paint_parent black c.path)
      ∙ around-paint_parent black c.focus c.path

  split_black_list :
      (t : Tree A) (f g : Frame A) (fs : List (Frame A))
      → cursor_list (split_black t f g fs) ≡ around t (f ∷ g ∷ fs)
  unfolding split_black
  split_black_list t (in_left c k r) (in_left cg gk u) fs = simp (append_assoc, to_list-paint)
  split_black_list t (in_right c l k) (in_left cg gk u) fs = simp (append_assoc, to_list-paint)
  split_black_list t (in_left c k r) (in_right cg u gk) fs = simp (append_assoc, to_list-paint)
  split_black_list t (in_right c l k) (in_right cg u gk) fs = simp (append_assoc, to_list-paint)

  insert_round_list :
      (t : Tree A) (fs : List (Frame A)) → cursor_list (insert_round t fs) ≡ around t fs
  unfolding insert_round
  insert_round_list t [] = refl
  insert_round_list t (f ∷ []) = refl
  insert_round_list t (f ∷ in_left cg gk u ∷ fs) = elim (Bool-cases (is_red (color u))) [
    | inl e ↦ rw e (split_black_list t f (in_left cg gk u) fs)
    | inr e ↦ rw e (
        settle_left_list (lift_to_left t (f ∷ in_left cg gk u ∷ fs))
        ∙ lift_to_left_list t (f ∷ in_left cg gk u ∷ fs))
  ]
  insert_round_list t (f ∷ in_right cg u gk ∷ fs) = elim (Bool-cases (is_red (color u))) [
    | inl e ↦ rw e (split_black_list t f (in_right cg u gk) fs)
    | inr e ↦ rw e (
        settle_right_list (lift_to_right t (f ∷ in_right cg u gk ∷ fs))
        ∙ lift_to_right_list t (f ∷ in_right cg u gk ∷ fs))
  ]

  pub insert_loop_list :
      (fuel : ℕ) (c : Cursor A) → cursor_list (insert_loop fuel c) ≡ cursor_list c
  unfolding insert_loop
  insert_loop_list zero c = refl
  insert_loop_list (suc fuel) c = elim (Bool-cases (is_red (parent_color c.path))) [
    | inl e ↦
        rw (e, insert_loop)
          (insert_loop_list fuel (insert_round c.focus c.path) ∙ insert_round_list c.focus c.path)
    | inr e ↦ rw (e, insert_loop) refl
  ]

  -- InsertFixUp moves no data: the nodes stay in the order in which they were before it, around
  -- the cursor, whatever the colors are.
  pub to_list-insert_fix_up : (c : Cursor A) → to_list (insert_fix_up c) ≡ cursor_list c
  unfolding insert_fix_up
  to_list-insert_fix_up c =
      to_list-paint black (rebuild done.focus done.path)
      ∙ to_list-rebuild done.focus done.path
      ∙ insert_loop_list (suc (length c.path)) c
    where
      done : Cursor A
      done = insert_loop (suc (length c.path)) c
