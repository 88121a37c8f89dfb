-- ===== src/RbTree/Iterator/Backward.antt =====
-- src/xty_rbtree.h: a loop over a tree by `--`.
use xty.Base.{
  ℕ, zero, suc, ◌≤◌, ◌≡◌, refl, ap, sym, ◌∙◌, Option, none, some, List, [], ◌∷◌, ◌++◌, append_assoc,
  append-nil, length, length-append, arith,
}
use xty.RbTree.{Color, Tree, leaf, node, Frame, in_left, in_right, Cursor, RbTree}
use xty.RbTree.Inorder.{to_list, before}
use xty.RbTree.Iterator.{
  down_right, up_from_left, decrement_at, decrement, reverse_begin, walk_back, at,
}

module _ {ℓ} {A : Type ℓ} where
  -- The data up to an iterator's position, in order.
  abbrev behind : Option (Cursor A) → List A
  behind none = []
  behind (some p) = elim p.focus [
    | leaf ↦ []
    | node c l k r ↦ before p.path ++ (to_list l ++ (k ∷ []))
  ]

  behind-down_right :
      (c : Color) (l : Tree A) (k : A) (r : Tree A) (fs : List (Frame A))
      → behind (some (down_right c l k r fs)) ≡ before fs ++ (to_list l ++ (k ∷ to_list r))
  unfolding down_right
  behind-down_right c l k leaf fs = refl
  behind-down_right c l k (node cr rl rk rr) fs =
      behind-down_right cr rl rk rr (in_right c l k ∷ fs) ∙ simp append_assoc

  behind-up_from_left : (t : Tree A) (fs : List (Frame A)) → behind (up_from_left t fs) ≡ before fs
  unfolding up_from_left
  behind-up_from_left t [] = refl
  behind-up_from_left t (in_left c k r ∷ fs) = behind-up_from_left (node c t k r) fs
  behind-up_from_left t (in_right c l k ∷ fs) = refl

  behind-decrement :
      (c : Color) (l : Tree A) (k : A) (r : Tree A) (fs : List (Frame A))
      → behind (decrement_at c l k r fs) ≡ before fs ++ to_list l
  unfolding decrement_at
  behind-decrement c leaf k r fs =
      behind-up_from_left (node c leaf k r) fs ∙ sym (append-nil (before fs))
  behind-decrement c (node cl ll lk lr) k r fs = behind-down_right cl ll lk lr (in_left c k r ∷ fs)

  nothing_behind :
      (t : Tree A) (fs : List (Frame A)) → length (behind (at t fs)) ≤ 0 → [] ≡ behind (at t fs)
  nothing_behind leaf fs h = refl
  nothing_behind (node c l k r) fs h = absurd (
      omega (
        arith,
        length-append (before fs) (to_list l ++ (k ∷ [])),
        length-append (to_list l) (k ∷ []),
      ))

  walk_back_step :
      (fuel : ℕ) (t : Tree A) (fs : List (Frame A))
      → length (behind (at t fs)) ≤ suc fuel
      → ((q : Option (Cursor A)) → length (behind q) ≤ fuel → walk_back fuel q ≡ behind q)
      → walk_back (suc fuel) (at t fs) ≡ behind (at t fs)
  unfolding walk_back decrement
  walk_back_step zero leaf fs h rest = refl
  walk_back_step (suc fuel) leaf fs h rest = refl
  walk_back_step fuel (node c l k r) fs h rest =
      let e = behind-decrement c l k r fs in
      ap (λ z. z ++ (k ∷ []))
        (rest (decrement_at c l k r fs) (
            omega (
              arith,
              ap length e,
              length-append (before fs) (to_list l),
              length-append (before fs) (to_list l ++ (k ∷ [])),
              length-append (to_list l) (k ∷ []),
            ))
          ∙ e)
      ∙ append_assoc (before fs) (to_list l) (k ∷ [])

  walk_back_lem :
      (fuel : ℕ) (p : Option (Cursor A)) → length (behind p) ≤ fuel → walk_back fuel p ≡ behind p
  unfolding walk_back
  walk_back_lem zero none h = refl
  walk_back_lem (suc fuel) none h = refl
  walk_back_lem zero (some p) h = nothing_behind p.focus p.path h
  walk_back_lem (suc fuel) (some p) h = walk_back_step fuel p.focus p.path h (walk_back_lem fuel)

  behind-reverse_begin :
      (t : Tree A) (n : ℕ)
      → behind (reverse_begin (record { root = t; node_count = n })) ≡ to_list t
  unfolding reverse_begin
  behind-reverse_begin leaf n = refl
  behind-reverse_begin (node c l k r) n = behind-down_right c l k r []

  -- A loop from ReverseBegin to End by `--` sees the same data, last first; `walk_back` puts
  -- what it sees in front of what it saw.
  pub walk_back_all :
      (t : RbTree A) (fuel : ℕ)
      → length (to_list t.root) ≤ fuel
      → walk_back fuel (reverse_begin t) ≡ to_list t.root
  walk_back_all t fuel h =
      let e = behind-reverse_begin t.root t.node_count in
      walk_back_lem fuel (reverse_begin t) (omega (arith, ap length e)) ∙ e
