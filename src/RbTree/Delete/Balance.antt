-- ===== src/RbTree/Delete/Balance.antt =====
-- src/xty_rbtree.h, Delete and DeleteFixUp: the red-black properties are established again.
use xty.Base.{ℕ, suc, ◌≡◌, refl, false, List, [], ◌∷◌, length, ◌⊎◌, inl, inr}
use xty.RbTree.{
  Color, red, black, Tree, leaf, node, Frame, in_left, in_right, Cursor, color, frame_color, paint,
  rebuild,
}
use xty.RbTree.Balance.{
  IsBalanced, Surrounds, red≢black, rebuild-IsBalanced, paint_black-IsBalanced,
}
use xty.RbTree.Delete.{borrow_left, borrow_right, is_short}

module _ {ℓ} {A : Type ℓ} where
  -- The cursor's subtree lacks one black node.
  abbrev pub IsShort : Cursor A → Type 0
  IsShort c = (n : ℕ) × IsBalanced n c.focus × (color c.focus ≡ black) × Surrounds (suc n) c.path

  -- Once the cursor is painted black, nothing is wrong.
  abbrev pub IsDone : Cursor A → Type 0
  IsDone c = (n : ℕ) × IsBalanced n (paint black c.focus) × Surrounds n c.path

  abbrev pub IsFinished : Cursor A → Type 0
  IsFinished c = IsDone c × (is_short c ≡ false)

  -- What surrounds a node of this color whose subtrees have `n` black nodes.
  abbrev pub Under : Color → ℕ → List (Frame A) → Type 0
  Under black n fs = Surrounds (suc n) fs
  Under red n [] = ⊥
  Under red n (f ∷ fs) = (frame_color f ≡ black) × Surrounds n (f ∷ fs)

  pub sibling_left :
      (n : ℕ) (c : Color) (k : A) (s : Tree A) (fs : List (Frame A))
      → Surrounds n (in_left c k s ∷ fs)
      → IsBalanced n s × Under c n fs × ((c ≡ black) ⊎ (color s ≡ black))
  sibling_left n black k s fs h = (h.0, h.1, inl refl)
  sibling_left n red k s [] h = absurd h
  sibling_left n red k s (f ∷ fs) h = (h.2, (h.1, h.3), inr h.0)

  pub sibling_right :
      (n : ℕ) (c : Color) (k : A) (s : Tree A) (fs : List (Frame A))
      → Surrounds n (in_right c s k ∷ fs)
      → IsBalanced n s × Under c n fs × ((c ≡ black) ⊎ (color s ≡ black))
  sibling_right n black k s fs h = (h.0, h.1, inl refl)
  sibling_right n red k s [] h = absurd h
  sibling_right n red k s (f ∷ fs) h = (h.2, (h.1, h.3), inr h.0)

  far_up-IsFinished :
      (n : ℕ) (c : Color) (x : Tree A) (k : A) (y : Tree A) (fs : List (Frame A))
      → IsBalanced n x
      → IsBalanced n y
      → color x ≡ black
      → color y ≡ black
      → Under c n fs
      → IsFinished (record { focus = rebuild (node c x k y) fs; path = [] })
  far_up-IsFinished n black x k y fs bx by ex ey u =
      let (m, b) = rebuild-IsBalanced (suc n) (node black x k y) fs (bx, by) u (inl refl) in
      let (m', b') = paint_black-IsBalanced m (rebuild (node black x k y) fs) b in
      ((m', b', tt), refl)
  far_up-IsFinished n red x k y [] bx by ex ey u = absurd u
  far_up-IsFinished n red x k y (f ∷ fs) bx by ex ey u =
      let (m, b) = rebuild-IsBalanced n (node red x k y) (f ∷ fs) (ex, ey, bx, by) u.1 (inr u.0) in
      let (m', b') = paint_black-IsBalanced m (rebuild (node red x k y) (f ∷ fs)) b in
      ((m', b', tt), refl)

  -- Case 2: under a red parent it ends the loop, under a black one it goes up.
  abbrev pub Outcome : Color → List (Frame A) → Cursor A → Type 0
  Outcome c fs d = IsFinished d ⊎ (c ≡ black) × IsShort d × (length d.path ≡ length fs)

  recolor-Outcome :
      (n : ℕ) (c : Color) (x : Tree A) (k : A) (y : Tree A) (fs : List (Frame A))
      → IsBalanced n x
      → IsBalanced n y
      → Under c (suc n) fs
      → Outcome c fs (record { focus = node c x k y; path = fs })
  recolor-Outcome n black x k y fs bx by u = inr (refl, (suc n, (bx, by), refl, u), refl)
  recolor-Outcome n red x k y [] bx by u = absurd u
  recolor-Outcome n red x k y (f ∷ fs) bx by u = inl ((suc n, (bx, by), u.1), refl)

  pub borrow_left-Outcome :
      (n : ℕ) (t : Tree A) (c : Color) (k : A) (s : Tree A) (fs : List (Frame A))
      → IsBalanced n t
      → color t ≡ black
      → IsBalanced (suc n) s
      → color s ≡ black
      → Under c (suc n) fs
      → Outcome c fs (borrow_left t c k s fs)
  unfolding borrow_left
  borrow_left-Outcome n t c k leaf fs bt et bs es u = absurd bs
  borrow_left-Outcome n t c k (node red sl sk sr) fs bt et bs es u = absurd (red≢black es)
  borrow_left-Outcome n t c k (node black leaf sk leaf) fs bt et bs es u =
      recolor-Outcome n c t k (node red leaf sk leaf) fs bt (refl, refl, bs.0, bs.1) u
  borrow_left-Outcome n t c k (node black leaf sk (node black rl rk rr)) fs bt et bs es u =
      recolor-Outcome n c t k (node red leaf sk (node black rl rk rr)) fs bt
        (refl, refl, bs.0, bs.1) u
  borrow_left-Outcome n t c k (node black (node black ll lk lr) sk leaf) fs bt et bs es u =
      recolor-Outcome n c t k (node red (node black ll lk lr) sk leaf) fs bt
        (refl, refl, bs.0, bs.1) u
  borrow_left-Outcome n t c k (node black (node black ll lk lr) sk (node black rl rk rr)) fs bt et
        bs es u =
      recolor-Outcome n c t k (node red (node black ll lk lr) sk (node black rl rk rr)) fs bt
        (refl, refl, bs.0, bs.1) u
  borrow_left-Outcome n t c k (node black leaf sk (node red rl rk rr)) fs bt et bs es u = inl (
      far_up-IsFinished (suc n) c (node black t k leaf) sk (node black rl rk rr) fs (bt, bs.0)
        (bs.1.2, bs.1.3) refl refl u)
  borrow_left-Outcome n t c k (node black (node black ll lk lr) sk (node red rl rk rr)) fs bt et bs
        es u =
      inl (
        far_up-IsFinished (suc n) c (node black t k (node black ll lk lr)) sk (node black rl rk rr)
          fs (bt, bs.0) (bs.1.2, bs.1.3) refl refl u)
  borrow_left-Outcome n t c k (node black (node red ll lk lr) sk (node red rl rk rr)) fs bt et bs es
        u =
      inl (
        far_up-IsFinished (suc n) c (node black t k (node red ll lk lr)) sk (node black rl rk rr) fs
          (bt, bs.0) (bs.1.2, bs.1.3) refl refl u)
  borrow_left-Outcome n t c k (node black (node red ll lk lr) sk leaf) fs bt et bs es u = inl (
      far_up-IsFinished (suc n) c (node black t k ll) lk (node black lr sk leaf) fs (bt, bs.0.2)
        (bs.0.3, bs.1) refl refl u)
  borrow_left-Outcome n t c k (node black (node red ll lk lr) sk (node black rl rk rr)) fs bt et bs
        es u =
      inl (
        far_up-IsFinished (suc n) c (node black t k ll) lk (node black lr sk (node black rl rk rr))
          fs (bt, bs.0.2) (bs.0.3, bs.1) refl refl u)

  pub borrow_right-Outcome :
      (n : ℕ) (t : Tree A) (c : Color) (k : A) (s : Tree A) (fs : List (Frame A))
      → IsBalanced n t
      → color t ≡ black
      → IsBalanced (suc n) s
      → color s ≡ black
      → Under c (suc n) fs
      → Outcome c fs (borrow_right t c k s fs)
  unfolding borrow_right
  borrow_right-Outcome n t c k leaf fs bt et bs es u = absurd bs
  borrow_right-Outcome n t c k (node red sl sk sr) fs bt et bs es u = absurd (red≢black es)
  borrow_right-Outcome n t c k (node black leaf sk leaf) fs bt et bs es u =
      recolor-Outcome n c (node red leaf sk leaf) k t fs (refl, refl, bs.0, bs.1) bt u
  borrow_right-Outcome n t c k (node black leaf sk (node black rl rk rr)) fs bt et bs es u =
      recolor-Outcome n c (node red leaf sk (node black rl rk rr)) k t fs (refl, refl, bs.0, bs.1)
        bt u
  borrow_right-Outcome n t c k (node black (node black ll lk lr) sk leaf) fs bt et bs es u =
      recolor-Outcome n c (node red (node black ll lk lr) sk leaf) k t fs (refl, refl, bs.0, bs.1)
        bt u
  borrow_right-Outcome n t c k (node black (node black ll lk lr) sk (node black rl rk rr)) fs bt et
        bs es u =
      recolor-Outcome n c (node red (node black ll lk lr) sk (node black rl rk rr)) k t fs
        (refl, refl, bs.0, bs.1) bt u
  borrow_right-Outcome n t c k (node black (node red ll lk lr) sk leaf) fs bt et bs es u = inl (
      far_up-IsFinished (suc n) c (node black ll lk lr) sk (node black leaf k t) fs (bs.0.2, bs.0.3)
        (bs.1, bt) refl refl u)
  borrow_right-Outcome n t c k (node black (node red ll lk lr) sk (node black rl rk rr)) fs bt et bs
        es u =
      inl (
        far_up-IsFinished (suc n) c (node black ll lk lr) sk (node black (node black rl rk rr) k t)
          fs (bs.0.2, bs.0.3) (bs.1, bt) refl refl u)
  borrow_right-Outcome n t c k (node black (node red ll lk lr) sk (node red rl rk rr)) fs bt et bs
        es u =
      inl (
        far_up-IsFinished (suc n) c (node black ll lk lr) sk (node black (node red rl rk rr) k t) fs
          (bs.0.2, bs.0.3) (bs.1, bt) refl refl u)
  borrow_right-Outcome n t c k (node black leaf sk (node red rl rk rr)) fs bt et bs es u = inl (
      far_up-IsFinished (suc n) c (node black leaf sk rl) rk (node black rr k t) fs (bs.0, bs.1.2)
        (bs.1.3, bt) refl refl u)
  borrow_right-Outcome n t c k (node black (node black ll lk lr) sk (node red rl rk rr)) fs bt et bs
        es u =
      inl (
        far_up-IsFinished (suc n) c (node black (node black ll lk lr) sk rl) rk (node black rr k t)
          fs (bs.0, bs.1.2) (bs.1.3, bt) refl refl u)
