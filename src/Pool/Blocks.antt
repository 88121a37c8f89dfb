-- ===== src/Pool/Blocks.antt =====
-- src/xty_pool.cpp: all the blocks that a pool hands out lie apart from each other.
use xty.Base.{ℕ, ◌+◌, ◌≤◌, ◌%◌, ◌≡◌, ◌⊎◌, inl, inr, List, [], ◌∷◌, All, arith}
use xty.Pool.{PoolNode, chunk_len}
use xty.Pool.Carve.{IsNode, Carves, Carved, here, there}

-- What was handed out: an address, and how many bytes from there.
abbrev pub Block : Type 0
Block = ℕ × ℕ

abbrev pub Disjoint : Block → Block → Type 0
Disjoint b c = (b.0 + b.1 ≤ c.0) ⊎ (c.0 + c.1 ≤ b.0)

-- Two chunks do not overlap.
abbrev pub Apart : PoolNode → PoolNode → Type 0
Apart n m = (n.base + chunk_len ≤ m.base) ⊎ (m.base + chunk_len ≤ n.base)

abbrev pub Inside : Block → PoolNode → Type 0
Inside b n = (n.base ≤ b.0) × (b.0 + b.1 ≤ n.base + chunk_len)

-- The block is inside one of the chunks.
abbrev pub InSome : Block → List PoolNode → Type 0
InSome b [] = ⊥
InSome b (n ∷ ns) = Inside b n ⊎ InSome b ns

-- The block is not in the empty part of the node.
abbrev pub Clear : Block → PoolNode → Type 0
Clear b n = (b.0 + b.1 ≤ n.empty_start) ⊎ (n.empty_end ≤ b.0)

abbrev pub IsSpread : List PoolNode → Type 0
IsSpread [] = Unit
IsSpread (n ∷ ns) = All (Apart n) ns × IsSpread ns

Carves-IsNode : (size p : ℕ) (n n' : PoolNode) → IsNode n → Carves size p n n' → IsNode n'
Carves-IsNode size p n n' (b, s, e, m, t) (al, lo, st, hi, base, end) =
    (omega arith, omega arith, omega arith, omega (arith, m, base), omega arith)

Carves-Apart : (size p : ℕ) (n n' m : PoolNode) → Carves size p n n' → Apart m n → Apart m n'
Carves-Apart size p n n' m (al, lo, st, hi, base, end) a = ground (arith, a, base)

Carved-Apart :
    (size p : ℕ) (m : PoolNode) (ns ns' : List PoolNode)
    → Carved size p ns ns'
    → All (Apart m) ns
    → All (Apart m) ns'
Carved-Apart size p m ns ns' (here n n' rest c) (a, h) = (Carves-Apart size p n n' m c a, h)
Carved-Apart size p m ns ns' (there n rest rest' c) (a, h) =
    (a, Carved-Apart size p m rest rest' c h)

-- The block is inside a chunk.
pub Carved-InSome :
    (size p : ℕ) (ns ns' : List PoolNode)
    → Carved size p ns ns'
    → All IsNode ns
    → InSome (p, size) ns'
Carved-InSome size p ns ns' (here n n' rest (al, lo, st, hi, base, end)) (h, hs) =
    inl (omega (arith, h.0, lo, base), omega (arith, h.2, hi, base))
Carved-InSome size p ns ns' (there n rest rest' c) (h, hs) =
    inr (Carved-InSome size p rest rest' c hs)

pub Carved-stays :
    (size p : ℕ) (b : Block) (ns ns' : List PoolNode)
    → Carved size p ns ns'
    → InSome b ns
    → InSome b ns'
Carved-stays size p b ns ns' (here n n' rest c) (inl i) =
    inl (omega (arith, i.0, c.4), omega (arith, i.1, c.4))
Carved-stays size p b ns ns' (here n n' rest c) (inr i) = inr i
Carved-stays size p b ns ns' (there n rest rest' c) (inl i) = inl i
Carved-stays size p b ns ns' (there n rest rest' c) (inr i) =
    inr (Carved-stays size p b rest rest' c i)

-- A block in another chunk is clear of this node.
pub apart-Clear :
    (b : Block) (n : PoolNode) (ns : List PoolNode)
    → IsNode n
    → All (Apart n) ns
    → InSome b ns
    → Clear b n
apart-Clear b n [] hn a i = absurd i
apart-Clear b n (m ∷ ns) (lo, s, e, r, t) (a, h) (inl (i, j)) = ground (arith, lo, s, e, a, i, j)
apart-Clear b n (m ∷ ns) hn (a, h) (inr i) = apart-Clear b n ns hn h i

pub Carved-nodes :
    (size p : ℕ) (ns ns' : List PoolNode) → Carved size p ns ns' → All IsNode ns → All IsNode ns'
Carved-nodes size p ns ns' (here n n' rest c) (h, hs) = (Carves-IsNode size p n n' h c, hs)
Carved-nodes size p ns ns' (there n rest rest' c) (h, hs) = (h, Carved-nodes size p rest rest' c hs)

Carves-spread :
    (size p : ℕ) (n n' : PoolNode) (ns : List PoolNode)
    → Carves size p n n'
    → All (Apart n) ns
    → All (Apart n') ns
Carves-spread size p n n' [] c a = tt
Carves-spread size p n n' (m ∷ ns) c (a, h) =
    (ground (arith, a, c.4), Carves-spread size p n n' ns c h)

pub Carved-IsSpread :
    (size p : ℕ) (ns ns' : List PoolNode) → Carved size p ns ns' → IsSpread ns → IsSpread ns'
Carved-IsSpread size p ns ns' (here n n' rest c) (a, h) = (Carves-spread size p n n' rest c a, h)
Carved-IsSpread size p ns ns' (there n rest rest' c) (a, h) =
    (Carved-Apart size p n rest rest' c a, Carved-IsSpread size p rest rest' c h)

-- What was handed out before is apart from the new block, and stays clear of what is empty.
pub Carved-Clear :
    (size p : ℕ) (b : Block) (ns ns' : List PoolNode)
    → Carved size p ns ns'
    → All (Clear b) ns
    → Disjoint b (p, size) × All (Clear b) ns'
Carved-Clear size p b ns ns' (here n n' rest (al, lo, st, hi, base, end)) (k, ks) =
    (ground (arith, k, lo, hi), (ground (arith, k, lo, st, end), ks))
Carved-Clear size p b ns ns' (there n rest rest' c) (k, ks) =
    let (d, ks') = Carved-Clear size p b rest rest' c ks in (d, (k, ks'))

-- And the new block is clear of what is empty now.
inside-Clear :
    (b : Block) (n : PoolNode) (ms : List PoolNode)
    → Inside b n
    → All (Apart n) ms
    → All IsNode ms
    → All (Clear b) ms
inside-Clear b n [] i a h = tt
inside-Clear b n (m ∷ ms) (i, j) (a, as') ((lo, s, e, r, t), hs) =
    (ground (arith, i, j, a, lo, s, e), inside-Clear b n ms (i, j) as' hs)

pub Carved-new :
    (size p : ℕ) (ns ns' : List PoolNode)
    → Carved size p ns ns'
    → All IsNode ns
    → IsSpread ns
    → All (Clear (p, size)) ns'
Carved-new size p ns ns' (here n n' rest (al, lo, st, hi, base, end)) (h, hs) (a, sp) = (
  inl (omega (arith, st)),
  inside-Clear (p, size) n rest (omega (arith, h.0, lo), omega (arith, h.2, hi)) a hs,
)
Carved-new size p ns ns' (there n rest rest' c) (h, hs) (a, sp) = (
  apart-Clear (p, size) n rest' h (Carved-Apart size p n rest rest' c a)
      (Carved-InSome size p rest rest' c hs),
  Carved-new size p rest rest' c hs sp,
)

pub Carved-aligned : (size p : ℕ) (ns ns' : List PoolNode) → Carved size p ns ns' → p % 8 ≡ 0
Carved-aligned size p ns ns' (here n n' rest c) = c.0
Carved-aligned size p ns ns' (there n rest rest' c) = Carved-aligned size p rest rest' c
