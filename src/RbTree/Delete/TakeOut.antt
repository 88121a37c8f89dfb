-- ===== src/RbTree/Delete/TakeOut.antt =====
-- src/xty_rbtree.h, Delete: which node leaves the tree, and what DeleteFixUp then has to repair.
use xty.Base.{ℕ, zero, suc, ◌≡◌, refl, List, [], ◌∷◌, ◌++◌, if◌then◌else◌}
use xty.RbTree.{Color, red, black, Tree, leaf, node, Frame, in_left, in_right, color, rebuild}
use xty.RbTree.Balance.{IsBalanced, Surrounds, IsRedBlack, Admits, enter_left, enter_right}
use xty.RbTree.Delete.{is_black, left_most, take_out, delete_fix_up, delete_node}
use xty.RbTree.Delete.Loop.{rebuild-IsRedBlack, delete_fix_up-short, delete_fix_up-red}

module _ {ℓ} {A : Type ℓ} where
  -- Without a red node nothing is short; without a black one the subtree at the cursor is.
  abbrev Lacks : Color → Tree A → List (Frame A) → Type 0
  Lacks black t fs = (n : ℕ) × IsBalanced n t × Surrounds (suc n) fs
  Lacks red t fs = (n : ℕ) × IsBalanced n t × (color t ≡ black) × Surrounds n fs

  without_left :
      (n : ℕ) (c : Color) (k : A) (r : Tree A) (fs : List (Frame A))
      → IsBalanced n (node c leaf k r)
      → Surrounds n fs
      → Lacks c r fs
  without_left zero black k r fs b s = absurd b
  without_left (suc n) black k r fs b s = (n, b.1, s)
  without_left n red k r fs b s = (n, b.3, b.1, s)

  without_right :
      (n : ℕ) (c : Color) (l : Tree A) (k : A) (fs : List (Frame A))
      → IsBalanced n (node c l k leaf)
      → Surrounds n fs
      → Lacks c l fs
  without_right zero black l k fs b s = absurd b
  without_right (suc n) black l k fs b s = (n, b.0, s)
  without_right n red l k fs b s = (n, b.2, b.0, s)

  left_most-Lacks :
      (n : ℕ) (c : Color) (l : Tree A) (k : A) (r : Tree A) (fs gs : List (Frame A))
      → IsBalanced n (node c l k r)
      → Surrounds n (fs ++ gs)
      → Admits (node c l k r) (fs ++ gs)
      → let m = left_most c l k r fs in Lacks m.color_save m.right_child (m.way_up ++ gs)
  unfolding left_most
  left_most-Lacks n c leaf k r fs gs b s a = without_left n c k r (fs ++ gs) b s
  left_most-Lacks n c (node cl ll lk lr) k r fs gs b s a =
      let (m, b', s', a') = enter_left n c (node cl ll lk lr) k r (fs ++ gs) b s a in
      left_most-Lacks m cl ll lk lr (in_left c k r ∷ fs) gs b' s' a'

  -- The successor's datum in the place of the deleted one changes no color.
  replace_data :
      (n : ℕ) (c : Color) (l : Tree A) (k d : A) (r : Tree A)
      → IsBalanced n (node c l k r)
      → IsBalanced n (node c l d r)
  replace_data zero black l k d r b = b
  replace_data (suc n) black l k d r b = b
  replace_data n red l k d r b = b

  replace_admitted :
      (c : Color) (l : Tree A) (k d : A) (r : Tree A) (fs : List (Frame A))
      → Admits (node c l k r) fs
      → Admits (node c l d r) fs
  replace_admitted c l k d r [] a = a
  replace_admitted c l k d r (f ∷ fs) a = a

  take_out-Lacks :
      (n : ℕ) (c : Color) (l : Tree A) (k : A) (r : Tree A) (fs : List (Frame A))
      → IsBalanced n (node c l k r)
      → Surrounds n fs
      → Admits (node c l k r) fs
      → let out = take_out c l k r fs in
        Lacks out.color_save out.fix_position.focus out.fix_position.path
  unfolding take_out
  take_out-Lacks n c leaf k r fs b s a = without_left n c k r fs b s
  take_out-Lacks n c (node cl ll lk lr) k leaf fs b s a =
      without_right n c (node cl ll lk lr) k fs b s
  take_out-Lacks n c (node cl ll lk lr) k (node cr rl rk rr) fs b s a =
      let d = (left_most cr rl rk rr []).data_kept in
      let (m, b', s', a') =
        enter_right n c (node cl ll lk lr) d (node cr rl rk rr) fs
          (replace_data n c (node cl ll lk lr) k d (node cr rl rk rr) b) s
          (replace_admitted c (node cl ll lk lr) k d (node cr rl rk rr) fs a) in
      left_most-Lacks m cr rl rk rr [] (in_right c (node cl ll lk lr) d ∷ fs) b' s' a'

  repaired :
      (c : Color) (t : Tree A) (fs : List (Frame A))
      → Lacks c t fs
      → IsRedBlack
          (if is_black c then delete_fix_up (record { focus = t; path = fs }) else rebuild t fs)
  repaired red t fs (n, b, e, s) = rebuild-IsRedBlack n t fs b e s
  repaired black leaf fs (n, b, s) = delete_fix_up-short leaf fs (n, b, refl, s)
  repaired black (node black l k r) fs (n, b, s) =
      delete_fix_up-short (node black l k r) fs (n, b, refl, s)
  repaired black (node red l k r) fs (n, b, s) = delete_fix_up-red n l k r fs b s

  -- Delete keeps the red-black properties: the tree without a node of it has a black root, no
  -- red node under a red one, and one number of black nodes on every way.
  pub delete_node-IsRedBlack :
      (n : ℕ) (c : Color) (l : Tree A) (k : A) (r : Tree A) (fs : List (Frame A))
      → IsBalanced n (node c l k r)
      → Surrounds n fs
      → Admits (node c l k r) fs
      → IsRedBlack (delete_node c l k r fs)
  unfolding delete_node
  delete_node-IsRedBlack n c l k r fs b s a =
      let out = take_out c l k r fs in
      repaired out.color_save out.fix_position.focus out.fix_position.path
        (take_out-Lacks n c l k r fs b s a)
