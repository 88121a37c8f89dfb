-- ===== src/Pool.antt =====
-- src/xty_pool.h and src/xty_pool.cpp: xtyPool, which carves blocks out of chunks of memory. An
-- address has 64 bits, and sizeof(unsigned long) is 8.
pub mod Carve
pub mod Blocks
pub mod Disjoint
pub mod CleanUp
mod Tests
use xty.Base.{
  ℕ, ◌+◌, ◌-◌, ◌*◌, ◌/◌, ◌%◌, ◌^◌, Option, none, some, List, [], ◌∷◌, ◌++◌, if◌then◌else◌, ltb, leb,
}

-- XTY_DEFAULT_POOL_SIZE and XTY_LARGE_BLOCK_SIZE
abbrev pub chunk_len : ℕ
chunk_len = 16384

abbrev pub large_len : ℕ
large_len = 4096

-- xtyPoolNode, at the address `base`: m_pEmptyStart and m_pEmptyEnd. m_pNext is the list's.
pub record PoolNode : Type 0 where
  pub base : ℕ
  pub empty_start : ℕ
  pub empty_end : ℕ

-- xtyPool: the nodes, and the data of the large blocks, from m_pLarge on.
pub record Pool : Type 0 where
  pub nodes : List PoolNode
  pub large_blocks : List ℕ

-- GetAlignedPtr: `(start + 7) & ~7`
unfoldable pub aligned : ℕ → ℕ
aligned p = (p + 7) % 2 ^ 64 / 8 * 8

-- `pCurrent->m_pEmptyEnd - pAligned`, as a size_t
abbrev pub room : PoolNode → ℕ
room n = (n.empty_end + 2 ^ 64 - aligned n.empty_start) % 2 ^ 64

-- The loop of DoPoolAllocate, and the block at the node that it stops at.
unfoldable pub carve : ℕ → List PoolNode → Option (ℕ × List PoolNode)
carve size [] = none
carve size (n ∷ ns) =
    let p = aligned n.empty_start in
    let later : Option (ℕ × List PoolNode) = elim (carve size ns) [
      | none ↦ none
      | some (q, ns') ↦ some (q, n ∷ ns')
    ] in
    if leb size (room n) then some (p, record n { empty_start = p + size } ∷ ns) else later

-- Create, where posix_memalign answered with this address. The sizes of an xtyPool, an xtyPoolNode
-- and an xtyLargeBlock are the compiler's, and parameters.
abbrev pub create : (pool_header address : ℕ) → Pool
create pool_header address = record {
  nodes =
      record {
        base = address;
        empty_start = address + pool_header;
        empty_end = address + chunk_len;
      }
      ∷ [];
  large_blocks = [];
}

module _ (node_header : ℕ) where
  -- xtyPoolNode's constructor
  abbrev pub new_node : ℕ → PoolNode
  new_node address = record {
    base = address;
    empty_start = address + node_header;
    empty_end = address + chunk_len;
  }

  -- DoPoolAllocate, for a size that is not large; `fresh` is what posix_memalign answers with, if
  -- it is called.
  unfoldable pub allocate_small : ℕ → ℕ → List PoolNode → ℕ × List PoolNode
  unfolding carve aligned
  allocate_small fresh size ns = elim (carve size ns) [
    | some (p, ns') ↦ (p, ns')
    | none ↦
        let n = new_node fresh in
        let p = aligned n.empty_start in (p, ns ++ (record n { empty_start = p + size } ∷ []))
  ]

module _ (node_header large_header : ℕ) where
  -- DoPoolAllocateLarge, where malloc answered with `data_address`. Its call of DoPoolAllocate is
  -- for a header, which is a small size.
  unfoldable pub allocate_large : ℕ → ℕ → Pool → ℕ × Pool
  unfolding allocate_small
  allocate_large fresh data_address pool =
      let (header, ns) = allocate_small node_header fresh large_header pool.nodes in
      (data_address, record { nodes = ns; large_blocks = data_address ∷ pool.large_blocks })

module _ (pool_header node_header large_header : ℕ) where
  -- DoPoolAllocate
  unfoldable pub allocate : ℕ → ℕ → ℕ → Pool → ℕ × Pool
  unfolding allocate_small allocate_large
  allocate fresh data_address size pool =
      if ltb (large_len - pool_header) size
      then allocate_large node_header large_header fresh data_address pool
      else let (p, ns) = allocate_small node_header fresh size pool.nodes in
        (p, record pool { nodes = ns })

-- The loops of MemoryCleanUp and of the destructor of xtyLargeBlock: what is freed, in order. The
-- first node, which is the pool's, has the large blocks, and is freed last, with the pool.
abbrev pub bases : List PoolNode → List ℕ
bases [] = []
bases (n ∷ ns) = n.base ∷ bases ns

unfoldable pub memory_clean_up : Pool → List ℕ
memory_clean_up pool = elim pool.nodes [
  | [] ↦ []
  | n ∷ ns ↦ pool.large_blocks ++ (bases ns ++ (n.base ∷ []))
]
