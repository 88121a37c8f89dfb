-- ===== src/RbTree/Height.antt =====
-- src/xty_rbtree.h: how far down the loops of Search and Insert can go.
use Prim.Native.Nat.{max}
use native.Mathlib.Nat.{pow-suc}
use xty.Base.{ℕ, zero, suc, ◌+◌, ◌*◌, ◌^◌, ◌≤◌, ap, length, length-append, ◌∷◌, arith}
use xty.RbTree.{Color, red, black, Tree, leaf, node, color}
use xty.RbTree.Inorder.{to_list}
use xty.RbTree.Balance.{IsBalanced, IsRedBlack}

-- A red root counts once more.
abbrev extra : Color → ℕ
extra red = 1
extra black = 0

extra_le : (c : Color) → extra c ≤ 1
extra_le red = omega arith
extra_le black = omega arith

module _ {ℓ} {A : Type ℓ} where
  -- The nodes on the longest way down.
  unfoldable pub depth : Tree A → ℕ
  depth leaf = 0
  depth (node c l k r) = suc (max (depth l) (depth r))

  depth_bound : (n : ℕ) (t : Tree A) → IsBalanced n t → depth t ≤ 2 * n + extra (color t)
  unfolding depth
  depth_bound zero leaf b = omega arith
  depth_bound (suc n) leaf b = omega arith
  depth_bound zero (node black l k r) b = absurd b
  depth_bound (suc n) (node black l k r) b =
      omega
        (arith, depth_bound n l b.0, depth_bound n r b.1, extra_le (color l), extra_le (color r))
  depth_bound n (node red l k r) b =
      omega (arith, depth_bound n l b.2, depth_bound n r b.3, ap extra b.0, ap extra b.1)

  size_bound : (n : ℕ) (t : Tree A) → IsBalanced n t → 2 ^ n ≤ length (to_list t) + 1
  size_bound zero leaf b = omega arith
  size_bound (suc n) leaf b = absurd b
  size_bound zero (node black l k r) b = absurd b
  size_bound (suc n) (node black l k r) b = omega (
    arith,
    pow-suc 2 n,
    size_bound n l b.0,
    size_bound n r b.1,
    length-append (to_list l) (k ∷ to_list r),
  )
  size_bound n (node red l k r) b =
      omega (arith, size_bound n l b.2, length-append (to_list l) (k ∷ to_list r))

  -- The longest way down a red-black tree has at most 2 * n nodes, for an n such that 2 ^ n is at
  -- most the number of nodes and one: the depth is logarithmic in the number of nodes.
  pub depth_logarithmic :
      (t : Tree A) → IsRedBlack t → (n : ℕ) × (depth t ≤ 2 * n) × (2 ^ n ≤ length (to_list t) + 1)
  depth_logarithmic t (e, (n, b)) =
      (n, omega (arith, depth_bound n t b, ap extra e), size_bound n t b)
