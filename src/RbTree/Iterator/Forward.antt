-- ===== src/RbTree/Iterator/Forward.antt =====
-- src/xty_rbtree.h: a loop over a tree by `++`.
use xty.Base.{
  ℕ, zero, suc, ◌≤◌, ◌≡◌, refl, ap, ◌∙◌, Option, none, some, List, [], ◌∷◌, ◌++◌, append_assoc,
  append-nil, length, arith,
}
use xty.RbTree.{Color, Tree, leaf, node, Frame, in_left, in_right, Cursor, RbTree}
use xty.RbTree.Inorder.{to_list, after}
use xty.RbTree.Iterator.{down_left, up_from_right, increment_at, increment, begin, walk, at}

module _ {ℓ} {A : Type ℓ} where
  -- The data from an iterator's position on, in order.
  abbrev ahead : Option (Cursor A) → List A
  ahead none = []
  ahead (some p) = elim p.focus [ leaf ↦ [] | node c l k r ↦ k ∷ (to_list r ++ after p.path) ]

  ahead-down_left :
      (c : Color) (l : Tree A) (k : A) (r : Tree A) (fs : List (Frame A))
      → ahead (some (down_left c l k r fs)) ≡ to_list l ++ (k ∷ (to_list r ++ after fs))
  unfolding down_left
  ahead-down_left c leaf k r fs = refl
  ahead-down_left c (node cl ll lk lr) k r fs =
      ahead-down_left cl ll lk lr (in_left c k r ∷ fs) ∙ simp append_assoc

  ahead-up_from_right : (t : Tree A) (fs : List (Frame A)) → ahead (up_from_right t fs) ≡ after fs
  unfolding up_from_right
  ahead-up_from_right t [] = refl
  ahead-up_from_right t (in_right c l k ∷ fs) = ahead-up_from_right (node c l k t) fs
  ahead-up_from_right t (in_left c k r ∷ fs) = refl

  ahead-increment :
      (c : Color) (l : Tree A) (k : A) (r : Tree A) (fs : List (Frame A))
      → ahead (increment_at c l k r fs) ≡ to_list r ++ after fs
  unfolding increment_at
  ahead-increment c l k leaf fs = ahead-up_from_right (node c l k leaf) fs
  ahead-increment c l k (node cr rl rk rr) fs =
      ahead-down_left cr rl rk rr (in_right c l k ∷ fs) ∙ simp append_assoc

  nothing_ahead :
      (t : Tree A) (fs : List (Frame A)) → length (ahead (at t fs)) ≤ 0 → [] ≡ ahead (at t fs)
  nothing_ahead leaf fs h = refl
  nothing_ahead (node c l k r) fs h = absurd (omega arith)

  walk_step :
      (fuel : ℕ) (t : Tree A) (fs : List (Frame A))
      → length (ahead (at t fs)) ≤ suc fuel
      → ((q : Option (Cursor A)) → length (ahead q) ≤ fuel → walk fuel q ≡ ahead q)
      → walk (suc fuel) (at t fs) ≡ ahead (at t fs)
  unfolding walk increment
  walk_step zero leaf fs h rest = refl
  walk_step (suc fuel) leaf fs h rest = refl
  walk_step fuel (node c l k r) fs h rest =
      let e = ahead-increment c l k r fs in
      ap (◌∷◌ k) (rest (increment_at c l k r fs) (omega (arith, ap length e)) ∙ e)

  walk_lem : (fuel : ℕ) (p : Option (Cursor A)) → length (ahead p) ≤ fuel → walk fuel p ≡ ahead p
  unfolding walk
  walk_lem zero none h = refl
  walk_lem (suc fuel) none h = refl
  walk_lem zero (some p) h = nothing_ahead p.focus p.path h
  walk_lem (suc fuel) (some p) h = walk_step fuel p.focus p.path h (walk_lem fuel)

  ahead-begin :
      (t : Tree A) (n : ℕ) → ahead (begin (record { root = t; node_count = n })) ≡ to_list t
  unfolding begin
  ahead-begin leaf n = refl
  ahead-begin (node c l k r) n = ahead-down_left c l k r [] ∙ simp append-nil

  -- A loop from Begin to End by `++` sees all the data of the tree, each node once, in order;
  -- it ends after as many rounds as there are nodes, and further rounds see nothing more.
  pub walk_all :
      (t : RbTree A) (fuel : ℕ)
      → length (to_list t.root) ≤ fuel
      → walk fuel (begin t) ≡ to_list t.root
  walk_all t fuel h =
      let e = ahead-begin t.root t.node_count in
      walk_lem fuel (begin t) (omega (arith, ap length e)) ∙ e
