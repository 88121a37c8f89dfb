-- ===== src/RbTree/Delete/Order.antt =====
-- src/xty_rbtree.h, Delete: the node found leaves the list of the data, and nothing else moves.
use xty.Base.{
  ℕ, zero, suc, ◌≡◌, refl, ap, ap₂, sym, ◌∙◌, List, [], ◌∷◌, ◌++◌, length, Bool-cases, inl, inr,
  append_assoc, append-nil,
}
use xty.RbTree.{Color, red, black, Tree, leaf, node, Frame, in_left, in_right, Cursor, color, paint}
use xty.RbTree.Inorder.{to_list, before, after, around, cursor_list, to_list-rebuild, to_list-paint}
use xty.RbTree.Delete.{
  Removal, is_black, left_most, take_out, near_up_left, near_up_right, far_up_left, far_up_right,
  has_black_children, borrow_left, borrow_right, delete_round, is_short, delete_loop, delete_fix_up,
  delete_node,
}

module _ {ℓ} {A : Type ℓ} where
  left_most_list :
      (c : Color) (l : Tree A) (k : A) (r : Tree A) (fs : List (Frame A))
      → let m = left_most c l k r fs in
        (before m.way_up ≡ before fs)
        × (m.data_kept ∷ (to_list m.right_child ++ after m.way_up)
            ≡ to_list l ++ (k ∷ (to_list r ++ after fs)))
  unfolding left_most
  left_most_list c leaf k r fs = (refl, refl)
  left_most_list c (node cl ll lk lr) k r fs =
      let (b, e) = left_most_list cl ll lk lr (in_left c k r ∷ fs) in
      (b, e ∙ sym (append_assoc (to_list ll) (lk ∷ to_list lr) (k ∷ (to_list r ++ after fs))))

  before-append : (fs gs : List (Frame A)) → before (fs ++ gs) ≡ before gs ++ before fs
  before-append [] gs = sym (append-nil (before gs))
  before-append (in_left c k r ∷ fs) gs = before-append fs gs
  before-append (in_right c l k ∷ fs) gs = simp (before-append fs gs, append_assoc)

  after-append : (fs gs : List (Frame A)) → after (fs ++ gs) ≡ after fs ++ after gs
  after-append [] gs = refl
  after-append (in_left c k r ∷ fs) gs = simp (after-append fs gs, append_assoc)
  after-append (in_right c l k ∷ fs) gs = after-append fs gs

  splice :
      (bf l bw : List A) (m : A) (rc aw af r : List A)
      → bw ≡ []
      → m ∷ (rc ++ aw) ≡ r
      → ((bf ++ (l ++ (m ∷ []))) ++ bw) ++ (rc ++ (aw ++ af)) ≡ bf ++ (l ++ (r ++ af))
  splice bf l bw m rc aw af r b e = rw (b, ← e) (simp (append_assoc, append-nil))

  take_out_list :
      (c : Color) (l : Tree A) (k : A) (r : Tree A) (fs : List (Frame A))
      → cursor_list (take_out c l k r fs).fix_position
        ≡ before fs ++ (to_list l ++ (to_list r ++ after fs))
  unfolding take_out
  take_out_list c leaf k r fs = refl
  take_out_list c (node cl ll lk lr) k leaf fs = refl
  take_out_list c (node cl ll lk lr) k (node cr rl rk rr) fs =
      let m = left_most cr rl rk rr [] in
      let (b, e) = left_most_list cr rl rk rr [] in
      let left = node cl ll lk lr in
      ap₂ (λ b' a'. b' ++ (to_list m.right_child ++ a'))
        (before-append m.way_up (in_right c left m.data_kept ∷ fs))
        (after-append m.way_up (in_right c left m.data_kept ∷ fs))
      ∙ splice (before fs) (to_list left) (before m.way_up) m.data_kept (to_list m.right_child)
          (after m.way_up) (after fs) (to_list (node cr rl rk rr)) b
          (e ∙ ap (λ z. to_list rl ++ (rk ∷ z)) (append-nil (to_list rr)))

  near_up_left_list : (s : Tree A) → to_list (near_up_left s) ≡ to_list s
  unfolding near_up_left
  near_up_left_list leaf = refl
  near_up_left_list (node cs leaf sk sr) = refl
  near_up_left_list (node cs (node cl ll lk lr) sk sr) = elim (Bool-cases (is_black (color sr))) [
    | inl e ↦ rw e (simp append_assoc)
    | inr e ↦ rw e refl
  ]

  near_up_right_list : (s : Tree A) → to_list (near_up_right s) ≡ to_list s
  unfolding near_up_right
  near_up_right_list leaf = refl
  near_up_right_list (node cs sl sk leaf) = refl
  near_up_right_list (node cs sl sk (node cr rl rk rr)) = elim (Bool-cases (is_black (color sl))) [
    | inl e ↦ rw e (simp append_assoc)
    | inr e ↦ rw e refl
  ]

  far_up_left_list :
      (t : Tree A) (c : Color) (k : A) (s : Tree A) (fs : List (Frame A))
      → cursor_list (far_up_left t c k s fs)
        ≡ before fs ++ (to_list t ++ (k ∷ (to_list s ++ after fs)))
  unfolding far_up_left
  far_up_left_list t c k leaf fs = simp (to_list-rebuild, append_assoc, append-nil)
  far_up_left_list t c k (node cs sl sk sr) fs =
      simp (to_list-rebuild, to_list-paint, append_assoc, append-nil)

  far_up_right_list :
      (t : Tree A) (c : Color) (k : A) (s : Tree A) (fs : List (Frame A))
      → cursor_list (far_up_right t c k s fs)
        ≡ before fs ++ (to_list s ++ (k ∷ (to_list t ++ after fs)))
  unfolding far_up_right
  far_up_right_list t c k leaf fs = simp (to_list-rebuild, append_assoc, append-nil)
  far_up_right_list t c k (node cs sl sk sr) fs =
      simp (to_list-rebuild, to_list-paint, append_assoc, append-nil)

  to_list-paint_red_around :
      (t : Tree A) (c : Color) (k : A) (s : Tree A) (fs : List (Frame A))
      → (around (node c t k (paint red s)) fs ≡ around t (in_left c k s ∷ fs))
        × (around (node c (paint red s) k t) fs ≡ around t (in_right c s k ∷ fs))
  to_list-paint_red_around t c k s fs =
      (simp (to_list-paint, append_assoc), simp (to_list-paint, append_assoc))

  borrow_left_list :
      (t : Tree A) (c : Color) (k : A) (s : Tree A) (fs : List (Frame A))
      → cursor_list (borrow_left t c k s fs) ≡ around t (in_left c k s ∷ fs)
  unfolding borrow_left
  borrow_left_list t c k s fs = elim (Bool-cases (has_black_children s)) [
    | inl e ↦ rw e (to_list-paint_red_around t c k s fs).0
    | inr e ↦ rw e (
        far_up_left_list t c k (near_up_left s) fs
        ∙ ap (λ z. before fs ++ (to_list t ++ (k ∷ (z ++ after fs)))) (near_up_left_list s))
  ]

  borrow_right_list :
      (t : Tree A) (c : Color) (k : A) (s : Tree A) (fs : List (Frame A))
      → cursor_list (borrow_right t c k s fs) ≡ around t (in_right c s k ∷ fs)
  unfolding borrow_right
  borrow_right_list t c k s fs = elim (Bool-cases (has_black_children s)) [
    | inl e ↦ rw e (to_list-paint_red_around t c k s fs).1
    | inr e ↦ rw e (
        far_up_right_list t c k (near_up_right s) fs
        ∙ ap (λ z. before fs ++ (z ++ (k ∷ (to_list t ++ after fs)))) (near_up_right_list s)
        ∙ simp append_assoc)
  ]

  delete_round_list :
      (t : Tree A) (fs : List (Frame A)) → cursor_list (delete_round t fs) ≡ around t fs
  unfolding delete_round
  delete_round_list t [] = refl
  delete_round_list t (in_left cp pk leaf ∷ fs) = borrow_left_list t cp pk leaf fs
  delete_round_list t (in_left cp pk (node black sl sk sr) ∷ fs) =
      borrow_left_list t cp pk (node black sl sk sr) fs
  delete_round_list t (in_left cp pk (node red sl sk sr) ∷ fs) =
      borrow_left_list t red pk sl (in_left black sk sr ∷ fs) ∙ simp append_assoc
  delete_round_list t (in_right cp leaf pk ∷ fs) = borrow_right_list t cp pk leaf fs
  delete_round_list t (in_right cp (node black sl sk sr) pk ∷ fs) =
      borrow_right_list t cp pk (node black sl sk sr) fs
  delete_round_list t (in_right cp (node red sl sk sr) pk ∷ fs) =
      borrow_right_list t red pk sr (in_right black sl sk ∷ fs) ∙ simp append_assoc

  delete_loop_list : (fuel : ℕ) (c : Cursor A) → cursor_list (delete_loop fuel c) ≡ cursor_list c
  unfolding delete_loop
  delete_loop_list zero c = refl
  delete_loop_list (suc fuel) c = elim (Bool-cases (is_short c)) [
    | inl e ↦
        rw (e, delete_loop)
          (delete_loop_list fuel (delete_round c.focus c.path) ∙ delete_round_list c.focus c.path)
    | inr e ↦ rw (e, delete_loop) refl
  ]

  to_list-delete_fix_up : (c : Cursor A) → to_list (delete_fix_up c) ≡ cursor_list c
  unfolding delete_fix_up
  to_list-delete_fix_up c =
      to_list-rebuild (paint black done.focus) done.path
      ∙ ap (λ z. before done.path ++ (z ++ after done.path)) (to_list-paint black done.focus)
      ∙ delete_loop_list (suc (suc (length c.path))) c
    where
      done : Cursor A
      done = delete_loop (suc (suc (length c.path))) c

  -- Delete takes the datum of the node found out of the list of the data, and leaves all others
  -- in their order, whatever the colors are and whatever its subtrees.
  pub to_list-delete_node :
      (c : Color) (l : Tree A) (k : A) (r : Tree A) (fs : List (Frame A))
      → to_list (delete_node c l k r fs) ≡ before fs ++ (to_list l ++ (to_list r ++ after fs))
  unfolding delete_node
  to_list-delete_node c l k r fs = elim (Bool-cases (is_black out.color_save)) [
    | inl e ↦ rw e (to_list-delete_fix_up out.fix_position ∙ take_out_list c l k r fs)
    | inr e ↦
        rw e
          (to_list-rebuild out.fix_position.focus out.fix_position.path ∙ take_out_list c l k r fs)
  ]
    where
      out : Removal A
      out = take_out c l k r fs
