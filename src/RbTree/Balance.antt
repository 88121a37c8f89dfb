-- ===== src/RbTree/Balance.antt =====
-- src/xty_rbtree.h: the red-black properties, and that InsertFixUp establishes them.
use xty.Base.{ℕ, zero, suc, ◌≡◌, refl, ◌⊎◌, inl, inr, List, [], ◌∷◌, length, arith, ◌<◌}
use xty.RbTree.{
  Color, red, black, Tree, leaf, node, Frame, in_left, in_right, Cursor, color, frame_color,
  parent_color, paint, fill, rebuild, insert_round, insert_loop, insert_fix_up,
}

pub black≢red : black ≡ red → ⊥
black≢red e = cc

pub red≢black : red ≡ black → ⊥
red≢black e = cc

Color-cases : (c : Color) → (c ≡ red) ⊎ (c ≡ black)
Color-cases red = inl refl
Color-cases black = inr refl

module _ {ℓ} {A : Type ℓ} where
  -- No red node has a red child, and every way down meets `n` black nodes.
  abbrev pub IsBalanced : ℕ → Tree A → Type 0
  IsBalanced zero leaf = Unit
  IsBalanced (suc n) leaf = ⊥
  IsBalanced n (node red l k r) =
      (color l ≡ black) × (color r ≡ black) × IsBalanced n l × IsBalanced n r
  IsBalanced zero (node black l k r) = ⊥
  IsBalanced (suc n) (node black l k r) = IsBalanced n l × IsBalanced n r

  -- The same of the tree around the cursor, if a black subtree with `n` black nodes stands there.
  -- The root is black.
  abbrev pub Surrounds : ℕ → List (Frame A) → Type 0
  Surrounds n [] = Unit
  Surrounds n (in_left black k r ∷ fs) = IsBalanced n r × Surrounds (suc n) fs
  Surrounds n (in_right black l k ∷ fs) = IsBalanced n l × Surrounds (suc n) fs
  Surrounds n (in_left red k r ∷ []) = ⊥
  Surrounds n (in_right red l k ∷ []) = ⊥
  Surrounds n (in_left red k r ∷ f ∷ fs) =
      (color r ≡ black) × (frame_color f ≡ black) × IsBalanced n r × Surrounds n (f ∷ fs)
  Surrounds n (in_right red l k ∷ f ∷ fs) =
      (color l ≡ black) × (frame_color f ≡ black) × IsBalanced n l × Surrounds n (f ∷ fs)

  -- What the loop of InsertFixUp keeps: all is well but that the parent may be red.
  abbrev pub IsRepairable : Cursor A → Type 0
  IsRepairable c = (n : ℕ) × IsBalanced n c.focus × Surrounds n c.path × (color c.focus ≡ red)

  -- Each round keeps it, and goes up or makes the parent black.
  abbrev IsCloser : List (Frame A) → Cursor A → Type 0
  IsCloser fs c =
      (n : ℕ) × IsBalanced n c.focus
      × Surrounds n c.path
      × (color c.focus ≡ red)
      × ((length c.path < length fs) ⊎ (parent_color c.path ≡ black))

  insert_round-IsCloser :
      (n : ℕ) (t : Tree A) (fs : List (Frame A))
      → IsBalanced n t
      → Surrounds n fs
      → color t ≡ red
      → parent_color fs ≡ red
      → IsCloser fs (insert_round t fs)
  unfolding insert_round
  insert_round-IsCloser n t [] b s et ep = absurd (black≢red ep)
  insert_round-IsCloser n t (in_left black k r ∷ fs) b s et ep = absurd (black≢red ep)
  insert_round-IsCloser n t (in_right black l k ∷ fs) b s et ep = absurd (black≢red ep)
  insert_round-IsCloser n t (in_left red k r ∷ []) b s et ep = absurd s
  insert_round-IsCloser n t (in_right red l k ∷ []) b s et ep = absurd s
  insert_round-IsCloser n t (in_left red k r ∷ in_left red gk u ∷ fs) b s et ep =
      absurd (red≢black s.1)
  insert_round-IsCloser n t (in_left red k r ∷ in_left black gk (node red ul uk ur) ∷ fs) b s et
        ep =
      (suc n, ground arith, ground arith, refl, inl (omega arith))
  insert_round-IsCloser n t (in_left red k r ∷ in_left black gk leaf ∷ fs) b s et ep =
      (n, ground arith, ground arith, et, inr refl)
  insert_round-IsCloser n t (in_left red k r ∷ in_left black gk (node black ul uk ur) ∷ fs) b s et
        ep =
      (n, ground arith, ground arith, et, inr refl)
  insert_round-IsCloser n t (in_left red k r ∷ in_right red u gk ∷ fs) b s et ep =
      absurd (red≢black s.1)
  insert_round-IsCloser n t (in_left red k r ∷ in_right black (node red ul uk ur) gk ∷ fs) b s et
        ep =
      (suc n, ground arith, ground arith, refl, inl (omega arith))
  insert_round-IsCloser n leaf (in_left red k r ∷ in_right black leaf gk ∷ fs) b s et ep =
      absurd (black≢red et)
  insert_round-IsCloser n (node black tl tk tr) (in_left red k r ∷ in_right black leaf gk ∷ fs) b s
        et ep =
      absurd (black≢red et)
  insert_round-IsCloser n (node red tl tk tr) (in_left red k r ∷ in_right black leaf gk ∷ fs) b s et
        ep =
      (n, ground arith, ground arith, refl, inr refl)
  insert_round-IsCloser n leaf (in_left red k r ∷ in_right black (node black ul uk ur) gk ∷ fs) b s
        et ep =
      absurd (black≢red et)
  insert_round-IsCloser n (node black tl tk tr)
        (in_left red k r ∷ in_right black (node black ul uk ur) gk ∷ fs) b s et ep =
      absurd (black≢red et)
  insert_round-IsCloser n (node red tl tk tr)
        (in_left red k r ∷ in_right black (node black ul uk ur) gk ∷ fs) b s et ep =
      (n, ground arith, ground arith, refl, inr refl)
  insert_round-IsCloser n t (in_right red l k ∷ in_left red gk u ∷ fs) b s et ep =
      absurd (red≢black s.1)
  insert_round-IsCloser n t (in_right red l k ∷ in_left black gk (node red ul uk ur) ∷ fs) b s et
        ep =
      (suc n, ground arith, ground arith, refl, inl (omega arith))
  insert_round-IsCloser n leaf (in_right red l k ∷ in_left black gk leaf ∷ fs) b s et ep =
      absurd (black≢red et)
  insert_round-IsCloser n (node black tl tk tr) (in_right red l k ∷ in_left black gk leaf ∷ fs) b s
        et ep =
      absurd (black≢red et)
  insert_round-IsCloser n (node red tl tk tr) (in_right red l k ∷ in_left black gk leaf ∷ fs) b s et
        ep =
      (n, ground arith, ground arith, refl, inr refl)
  insert_round-IsCloser n leaf (in_right red l k ∷ in_left black gk (node black ul uk ur) ∷ fs) b s
        et ep =
      absurd (black≢red et)
  insert_round-IsCloser n (node black tl tk tr)
        (in_right red l k ∷ in_left black gk (node black ul uk ur) ∷ fs) b s et ep =
      absurd (black≢red et)
  insert_round-IsCloser n (node red tl tk tr)
        (in_right red l k ∷ in_left black gk (node black ul uk ur) ∷ fs) b s et ep =
      (n, ground arith, ground arith, refl, inr refl)
  insert_round-IsCloser n t (in_right red l k ∷ in_right red u gk ∷ fs) b s et ep =
      absurd (red≢black s.1)
  insert_round-IsCloser n t (in_right red l k ∷ in_right black (node red ul uk ur) gk ∷ fs) b s et
        ep =
      (suc n, ground arith, ground arith, refl, inl (omega arith))
  insert_round-IsCloser n t (in_right red l k ∷ in_right black leaf gk ∷ fs) b s et ep =
      (n, ground arith, ground arith, et, inr refl)
  insert_round-IsCloser n t (in_right red l k ∷ in_right black (node black ul uk ur) gk ∷ fs) b s et
        ep =
      (n, ground arith, ground arith, et, inr refl)

  -- Where the loop stops: nothing is wrong any more, not even with the parent.
  abbrev pub IsRepaired : Cursor A → Type 0
  IsRepaired c = (n : ℕ) × IsBalanced n c.focus × Surrounds n c.path × (parent_color c.path ≡ black)

  insert_loop_stop :
      (fuel : ℕ) (c : Cursor A) → parent_color c.path ≡ black → insert_loop fuel c ≡ c
  unfolding insert_loop
  insert_loop_stop zero c e = refl
  insert_loop_stop (suc fuel) c e = rw (e, insert_loop) refl

  insert_loop_continue :
      (fuel : ℕ) (fs : List (Frame A)) (c : Cursor A)
      → length fs < suc fuel
      → IsCloser fs c
      → (length c.path < fuel → IsRepairable c → IsRepaired (insert_loop fuel c))
      → IsRepaired (insert_loop fuel c)
  insert_loop_continue fuel fs c h (n, b, s, e, inl up) go = go (omega arith) (n, b, s, e)
  insert_loop_continue fuel fs c h (n, b, s, e, inr stop) go =
      rw (insert_loop_stop fuel c stop) (n, b, s, stop)

  -- As many rounds as there are ancestors are enough.
  pub insert_loop-IsRepaired :
      (fuel : ℕ) (c : Cursor A)
      → length c.path < fuel
      → IsRepairable c
      → IsRepaired (insert_loop fuel c)
  unfolding insert_loop
  insert_loop-IsRepaired zero c h r = elim h [ ]
  insert_loop-IsRepaired (suc fuel) c h (n, b, s, e) = elim (Color-cases (parent_color c.path)) [
    | inl more ↦
        rw (more, insert_loop)
          (insert_loop_continue fuel c.path (insert_round c.focus c.path) h
            (insert_round-IsCloser n c.focus c.path b s e more)
            (insert_loop-IsRepaired fuel (insert_round c.focus c.path)))
    | inr stop ↦ rw (stop, insert_loop) (n, b, s, stop)
  ]

  fill-IsBalanced :
      (n : ℕ) (t : Tree A) (f : Frame A) (fs : List (Frame A))
      → IsBalanced n t
      → Surrounds n (f ∷ fs)
      → (color t ≡ black) ⊎ (frame_color f ≡ black)
      → (m : ℕ) × IsBalanced m (fill f t)
        × Surrounds m fs
        × ((color (fill f t) ≡ black) ⊎ (parent_color fs ≡ black))
  fill-IsBalanced n t (in_left black k r) fs b s ok = (suc n, (b, s.0), s.1, inl refl)
  fill-IsBalanced n t (in_right black l k) fs b s ok = (suc n, (s.0, b), s.1, inl refl)
  fill-IsBalanced n t (in_left red k r) [] b s ok = absurd s
  fill-IsBalanced n t (in_right red l k) [] b s ok = absurd s
  fill-IsBalanced n t (in_left red k r) (g ∷ fs) b s (inl e) = (n, (e, s.0, b, s.2), s.3, inr s.1)
  fill-IsBalanced n t (in_right red l k) (g ∷ fs) b s (inl e) = (n, (s.0, e, s.2, b), s.3, inr s.1)
  fill-IsBalanced n t (in_left red k r) (g ∷ fs) b s (inr e) = absurd (red≢black e)
  fill-IsBalanced n t (in_right red l k) (g ∷ fs) b s (inr e) = absurd (red≢black e)

  -- A balanced subtree and balanced surroundings make a balanced tree.
  pub rebuild-IsBalanced :
      (n : ℕ) (t : Tree A) (fs : List (Frame A))
      → IsBalanced n t
      → Surrounds n fs
      → (color t ≡ black) ⊎ (parent_color fs ≡ black)
      → (m : ℕ) × IsBalanced m (rebuild t fs)
  rebuild-IsBalanced n t [] b s ok = (n, b)
  rebuild-IsBalanced n t (f ∷ fs) b s ok =
      let (m, b', s', ok') = fill-IsBalanced n t f fs b s ok in
      rebuild-IsBalanced m (fill f t) fs b' s' ok'

  pub paint_black-IsBalanced :
      (n : ℕ) (t : Tree A) → IsBalanced n t → (m : ℕ) × IsBalanced m (paint black t)
  paint_black-IsBalanced n leaf b = (n, b)
  paint_black-IsBalanced n (node red l k r) b = (suc n, ground arith)
  paint_black-IsBalanced n (node black l k r) b = (n, b)

  -- The red-black properties of the whole tree: balanced, and with a black root.
  abbrev pub IsRedBlack : Tree A → Type 0
  IsRedBlack t = (color t ≡ black) × ((n : ℕ) × IsBalanced n t)

  pub paint_black-color : (t : Tree A) → color (paint black t) ≡ black
  paint_black-color leaf = refl
  paint_black-color (node c l k r) = refl

  -- InsertFixUp ends and establishes the red-black properties: from a red node with balanced
  -- subtrees in balanced surroundings, where only its parent may be red too, it makes a tree
  -- with a black root, no red node under a red one, and one number of black nodes on every way.
  pub insert_fix_up-IsRedBlack : (c : Cursor A) → IsRepairable c → IsRedBlack (insert_fix_up c)
  unfolding insert_fix_up
  insert_fix_up-IsRedBlack c r =
      let done = insert_loop (suc (length c.path)) c in
      let (n, b, s, e) = insert_loop-IsRepaired (suc (length c.path)) c (omega arith) r in
      let (m, b') = rebuild-IsBalanced n done.focus done.path b s (inr e) in
      (
        paint_black-color (rebuild done.focus done.path),
        paint_black-IsBalanced m (rebuild done.focus done.path) b',
      )

  -- A subtree of this color may stand at the cursor.
  abbrev pub Admits : Tree A → List (Frame A) → Type 0
  Admits t [] = color t ≡ black
  Admits t (f ∷ fs) = (color t ≡ black) ⊎ (frame_color f ≡ black)

  pub enter_left :
      (n : ℕ) (c : Color) (l : Tree A) (k : A) (r : Tree A) (fs : List (Frame A))
      → IsBalanced n (node c l k r)
      → Surrounds n fs
      → Admits (node c l k r) fs
      → (m : ℕ) × IsBalanced m l × Surrounds m (in_left c k r ∷ fs) × Admits l (in_left c k r ∷ fs)
  enter_left zero black l k r fs b s a = absurd b
  enter_left (suc n) black l k r fs b s a = (n, b.0, (b.1, s), inr refl)
  enter_left n red l k r [] b s a = absurd (red≢black a)
  enter_left n red l k r (f ∷ fs) b s (inl e) = absurd (red≢black e)
  enter_left n red l k r (f ∷ fs) b s (inr e) = (n, b.2, (b.1, e, b.3, s), inl b.0)

  pub enter_right :
      (n : ℕ) (c : Color) (l : Tree A) (k : A) (r : Tree A) (fs : List (Frame A))
      → IsBalanced n (node c l k r)
      → Surrounds n fs
      → Admits (node c l k r) fs
      → (m : ℕ) × IsBalanced m r
        × Surrounds m (in_right c l k ∷ fs)
        × Admits r (in_right c l k ∷ fs)
  enter_right zero black l k r fs b s a = absurd b
  enter_right (suc n) black l k r fs b s a = (n, b.1, (b.0, s), inr refl)
  enter_right n red l k r [] b s a = absurd (red≢black a)
  enter_right n red l k r (f ∷ fs) b s (inl e) = absurd (red≢black e)
  enter_right n red l k r (f ∷ fs) b s (inr e) = (n, b.3, (b.0, e, b.2, s), inl b.1)
