-- ===== src/RbTree/Delete/Loop.antt =====
-- src/xty_rbtree.h, DeleteFixUp: the loop ends, and the tree is red-black again.
use xty.Base.{
  ℕ, zero, suc, ◌≤◌, ◌<◌, ◌≡◌, refl, ap, true, false, List, [], ◌∷◌, length, ◌⊎◌, inl, inr, arith,
}
use xty.RbTree.{
  Color, red, black, Tree, leaf, node, Frame, in_left, in_right, Cursor, color, paint, rebuild,
}
use xty.RbTree.Balance.{
  IsBalanced, Surrounds, IsRedBlack, red≢black, rebuild-IsBalanced, paint_black-IsBalanced,
  paint_black-color,
}
use xty.RbTree.Delete.{
  is_black, borrow_left, borrow_right, delete_round, is_short, delete_loop, delete_fix_up,
}
use xty.RbTree.Delete.Balance.{
  IsShort, IsDone, IsFinished, Outcome, sibling_left, sibling_right, borrow_left-Outcome,
  borrow_right-Outcome,
}

black_parent : {c : Color} → (c ≡ black) ⊎ (red ≡ black) → c ≡ black
black_parent (inl e) = e
black_parent (inr e) = absurd (red≢black e)

module _ {ℓ} {A : Type ℓ} where
  -- Each round ends the loop, or goes up.
  abbrev IsCloser : List (Frame A) → Cursor A → Type 0
  IsCloser fs c = IsFinished c ⊎ IsShort c × (suc (length c.path) ≤ length fs)

  closer :
      {c : Color} (fs : List (Frame A)) (f : Frame A) (d : Cursor A)
      → Outcome c fs d
      → IsCloser (f ∷ fs) d
  closer fs f d (inl done) = inl done
  closer fs f d (inr (e, short, up)) = inr (short, omega arith)

  IsCloser-red : (fs gs : List (Frame A)) (d : Cursor A) → Outcome red fs d → IsCloser gs d
  IsCloser-red fs gs d (inl done) = inl done
  IsCloser-red fs gs d (inr (e, short, up)) = absurd (red≢black e)

  delete_round-IsCloser :
      (n : ℕ) (t : Tree A) (f : Frame A) (fs : List (Frame A))
      → IsBalanced n t
      → color t ≡ black
      → Surrounds (suc n) (f ∷ fs)
      → IsCloser (f ∷ fs) (delete_round t (f ∷ fs))
  unfolding delete_round
  delete_round-IsCloser n t (in_left c k leaf) fs bt et h =
      absurd (sibling_left (suc n) c k leaf fs h).0
  delete_round-IsCloser n t (in_left c k (node black sl sk sr)) fs bt et h =
      let (bs, u, e) = sibling_left (suc n) c k (node black sl sk sr) fs h in
      closer fs (in_left c k (node black sl sk sr)) (borrow_left t c k (node black sl sk sr) fs)
        (borrow_left-Outcome n t c k (node black sl sk sr) fs bt et bs refl u)
  delete_round-IsCloser n t (in_left red k (node red sl sk sr)) fs bt et h =
      absurd (red≢black (black_parent (sibling_left (suc n) red k (node red sl sk sr) fs h).2))
  delete_round-IsCloser n t (in_left black k (node red sl sk sr)) fs bt et h =
      IsCloser-red (in_left black sk sr ∷ fs) (in_left black k (node red sl sk sr) ∷ fs)
        (borrow_left t red k sl (in_left black sk sr ∷ fs))
        (borrow_left-Outcome n t red k sl (in_left black sk sr ∷ fs) bt et h.0.2 h.0.0
          (refl, (h.0.3, h.1)))
  delete_round-IsCloser n t (in_right c leaf k) fs bt et h =
      absurd (sibling_right (suc n) c k leaf fs h).0
  delete_round-IsCloser n t (in_right c (node black sl sk sr) k) fs bt et h =
      let (bs, u, e) = sibling_right (suc n) c k (node black sl sk sr) fs h in
      closer fs (in_right c (node black sl sk sr) k) (borrow_right t c k (node black sl sk sr) fs)
        (borrow_right-Outcome n t c k (node black sl sk sr) fs bt et bs refl u)
  delete_round-IsCloser n t (in_right red (node red sl sk sr) k) fs bt et h =
      absurd (red≢black (black_parent (sibling_right (suc n) red k (node red sl sk sr) fs h).2))
  delete_round-IsCloser n t (in_right black (node red sl sk sr) k) fs bt et h =
      IsCloser-red (in_right black sl sk ∷ fs) (in_right black (node red sl sk sr) k ∷ fs)
        (borrow_right t red k sr (in_right black sl sk ∷ fs))
        (borrow_right-Outcome n t red k sr (in_right black sl sk ∷ fs) bt et h.0.3 h.0.1
          (refl, (h.0.2, h.1)))

  delete_loop_stop : (fuel : ℕ) (c : Cursor A) → is_short c ≡ false → delete_loop fuel c ≡ c
  unfolding delete_loop
  delete_loop_stop zero c e = refl
  delete_loop_stop (suc fuel) c e = rw (e, delete_loop) refl

  delete_loop_continue :
      (fuel : ℕ) (fs : List (Frame A)) (c : Cursor A)
      → length fs ≤ fuel
      → IsCloser fs c
      → (length c.path < fuel → IsShort c → IsDone (delete_loop fuel c))
      → IsDone (delete_loop fuel c)
  delete_loop_continue fuel fs c h (inl (done, e)) go = rw (delete_loop_stop fuel c e) done
  delete_loop_continue fuel fs c h (inr (short, up)) go = go (omega arith) short

  is_short_under :
      (t : Tree A) (f : Frame A) (fs : List (Frame A))
      → color t ≡ black
      → is_short (record { focus = t; path = f ∷ fs }) ≡ true
  is_short_under t f fs e = ap is_black e

  -- More rounds than there are ancestors are enough.
  delete_loop-IsDone :
      (fuel : ℕ) (t : Tree A) (fs : List (Frame A))
      → length fs < fuel
      → IsShort (record { focus = t; path = fs })
      → IsDone (delete_loop fuel (record { focus = t; path = fs }))
  unfolding delete_loop
  delete_loop-IsDone zero t fs h short = elim h [ ]
  delete_loop-IsDone (suc fuel) t [] h (n, b, e, s) =
      let (m, b') = paint_black-IsBalanced n t b in (m, b', tt)
  delete_loop-IsDone (suc fuel) t (f ∷ fs) h (n, b, e, s) =
      let c' = delete_round t (f ∷ fs) in
      rw (is_short_under t f fs e, delete_loop)
        (delete_loop_continue fuel (f ∷ fs) c' (omega arith) (delete_round-IsCloser n t f fs b e s)
          (delete_loop-IsDone fuel c'.focus c'.path))

  -- The root stays black: the bottom frame of balanced surroundings is.
  rebuild-color :
      (n : ℕ) (t : Tree A) (f : Frame A) (fs : List (Frame A))
      → Surrounds n (f ∷ fs)
      → color (rebuild t (f ∷ fs)) ≡ black
  rebuild-color n t (in_left red k r) [] s = absurd s
  rebuild-color n t (in_right red l k) [] s = absurd s
  rebuild-color n t (in_left black k r) [] s = refl
  rebuild-color n t (in_right black l k) [] s = refl
  rebuild-color n t (in_left red k r) (g ∷ fs) s = rebuild-color n (node red t k r) g fs s.3
  rebuild-color n t (in_right red l k) (g ∷ fs) s = rebuild-color n (node red l k t) g fs s.3
  rebuild-color n t (in_left black k r) (g ∷ fs) s =
      rebuild-color (suc n) (node black t k r) g fs s.1
  rebuild-color n t (in_right black l k) (g ∷ fs) s =
      rebuild-color (suc n) (node black l k t) g fs s.1

  pub rebuild-IsRedBlack :
      (n : ℕ) (t : Tree A) (fs : List (Frame A))
      → IsBalanced n t
      → color t ≡ black
      → Surrounds n fs
      → IsRedBlack (rebuild t fs)
  rebuild-IsRedBlack n t [] b e s = (e, (n, b))
  rebuild-IsRedBlack n t (f ∷ fs) b e s =
      (rebuild-color n t f fs s, rebuild-IsBalanced n t (f ∷ fs) b s (inl e))

  done-IsRedBlack : (c : Cursor A) → IsDone c → IsRedBlack (rebuild (paint black c.focus) c.path)
  done-IsRedBlack c (n, b, s) =
      rebuild-IsRedBlack n (paint black c.focus) c.path b (paint_black-color c.focus) s

  -- DeleteFixUp ends and makes a red-black tree: from a subtree that lacks one black node, in
  -- surroundings that are balanced but for that, if the subtree's root is black.
  pub delete_fix_up-short :
      (t : Tree A) (fs : List (Frame A))
      → IsShort (record { focus = t; path = fs })
      → IsRedBlack (delete_fix_up (record { focus = t; path = fs }))
  unfolding delete_fix_up
  delete_fix_up-short t fs short =
      done-IsRedBlack (delete_loop (suc (suc (length fs))) (record { focus = t; path = fs }))
        (delete_loop-IsDone (suc (suc (length fs))) t fs (omega arith) short)

  -- Where the subtree's root is red, painting it black is all.
  pub delete_fix_up-red :
      (n : ℕ) (l : Tree A) (k : A) (r : Tree A) (fs : List (Frame A))
      → IsBalanced n (node red l k r)
      → Surrounds (suc n) fs
      → IsRedBlack (delete_fix_up (record { focus = node red l k r; path = fs }))
  unfolding delete_fix_up
  delete_fix_up-red n l k r fs b s =
      rw
        (delete_loop_stop (suc (suc (length fs))) (record { focus = node red l k r; path = fs })
          (stops fs))
        (rebuild-IsRedBlack (suc n) (node black l k r) fs (b.2, b.3) refl s)
    where
      stops :
          (gs : List (Frame A)) → is_short (record { focus = node red l k r; path = gs }) ≡ false
      stops [] = refl
      stops (g ∷ gs) = refl
