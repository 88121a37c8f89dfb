-- ===== src/Pool/Carve.antt =====
-- src/xty_pool.cpp, DoPoolAllocate: one block, in bounds and aligned.
use xty.Base.{
  ℕ, ◌+◌, ◌-◌, ◌%◌, ◌^◌, ◌≤◌, ◌<◌, ◌≡◌, refl, Bool-cases, ◌⊎◌, inl, inr, none, some, List, [], ◌∷◌,
  ◌++◌, All, arith, leb, leb→le, ltb, ltb→lt,
}
use xty.Pool.{
  PoolNode, chunk_len, aligned, room, carve, new_node, allocate_small, Pool, large_len,
  allocate_large, allocate,
}

-- A node's empty part is inside its chunk, which ends at a multiple of 16 in the address space.
abbrev pub IsNode : PoolNode → Type 0
IsNode n =
    (n.base ≤ n.empty_start)
    × (n.empty_start ≤ n.empty_end)
    × (n.empty_end ≡ n.base + chunk_len)
    × (n.base % 16 ≡ 0)
    × (n.empty_end < 2 ^ 64)

-- What was carved: a block at `p` out of the empty part of a node `n`, which is then `n'`.
abbrev pub Carves : ℕ → ℕ → PoolNode → PoolNode → Type 0
Carves size p n n' =
    (p % 8 ≡ 0)
    × (n.empty_start ≤ p)
    × (n'.empty_start ≡ p + size)
    × (p + size ≤ n.empty_end)
    × (n'.base ≡ n.base)
    × (n'.empty_end ≡ n.empty_end)

pub aligned_lem :
    (n : PoolNode)
    → IsNode n
    → (aligned n.empty_start % 8 ≡ 0)
      × (n.empty_start ≤ aligned n.empty_start)
      × (aligned n.empty_start ≤ n.empty_end)
      × (aligned n.empty_start ≤ n.empty_start + 7)
unfolding aligned
aligned_lem n (b, s, e, m, t) = (omega arith, omega arith, omega arith, omega arith)

-- The subtraction of the pointers does not wrap.
pub room_lem : (n : PoolNode) → IsNode n → room n + aligned n.empty_start ≡ n.empty_end
room_lem n h = let (m, s, e, close) = aligned_lem n h in omega (arith, h.4)

-- One node of the list is carved.
pub data Carved (size p : ℕ) : List PoolNode → List PoolNode → Type 0 where
  here :
      (n n' : PoolNode) (ns : List PoolNode) → Carves size p n n' → Carved size p (n ∷ ns) (n' ∷ ns)
  there :
      (n : PoolNode) (ns ns' : List PoolNode)
      → Carved size p ns ns'
      → Carved size p (n ∷ ns) (n ∷ ns')

Carves-start :
    (size : ℕ) (n : PoolNode)
    → IsNode n
    → size ≤ room n
    → Carves size
        (aligned n.empty_start)
        n
        (record n { empty_start = aligned n.empty_start + size })
Carves-start size n h fits =
    let (m, s, e, close) = aligned_lem n h in
    let r = room_lem n h in (m, s, refl, omega (arith, r, fits), refl, refl)

-- The loop finds the first node with room for the block, or there is none.
pub carve_lem :
    (size : ℕ) (ns : List PoolNode)
    → All IsNode ns
    → (carve size ns ≡ none) × All (λ n. room n < size) ns
      ⊎ (p : ℕ) × (ns' : List PoolNode) × (carve size ns ≡ some (p, ns')) × Carved size p ns ns'
unfolding carve
carve_lem size [] h = inl (refl, tt)
carve_lem size (n ∷ ns) (hn, h) = elim (Bool-cases (leb size (room n))) [
  | inl fits ↦ inr (
    aligned n.empty_start,
    record n { empty_start = aligned n.empty_start + size } ∷ ns,
    rw fits refl,
    here n (record n { empty_start = aligned n.empty_start + size }) ns
        (Carves-start size n hn (leb→le size (room n) fits)),
  )
  | inr full ↦ elim (carve_lem size ns h) [
    | inl (e, all_full) ↦ inl (rw full (rw e refl), (ground arith, all_full))
    | inr (p, ns', e, c) ↦ inr (p, n ∷ ns', rw full (rw e refl), there n ns ns' c)
  ]
]

pub Carved-snoc :
    (size p : ℕ) (n n' : PoolNode) (ns : List PoolNode)
    → Carves size p n n'
    → Carved size p (ns ++ (n ∷ [])) (ns ++ (n' ∷ []))
Carved-snoc size p n n' [] c = here n n' [] c
Carved-snoc size p n n' (m ∷ ns) c =
    there m (ns ++ (n ∷ [])) (ns ++ (n' ∷ [])) (Carved-snoc size p n n' ns c)

-- What posix_memalign promises of a chunk: its address is a multiple of 16, and the chunk is
-- inside the address space.
abbrev pub IsChunk : ℕ → Type 0
IsChunk fresh = (fresh % 16 ≡ 0) × (fresh + chunk_len < 2 ^ 64)

module _ (node_header : ℕ) where
  pub new_node-IsNode :
      (fresh : ℕ) → node_header ≤ chunk_len → IsChunk fresh → IsNode (new_node node_header fresh)
  new_node-IsNode fresh h (m, t) = (omega arith, omega arith, refl, m, t)

  room_new :
      (fresh size : ℕ)
      → IsChunk fresh
      → node_header + 8 + size ≤ chunk_len
      → size ≤ room (new_node node_header fresh)
  room_new fresh size chunk small =
      let n = new_node node_header fresh in
      let h = new_node-IsNode fresh (omega arith) chunk in
      let (m, s, e, close) = aligned_lem n h in
      let r = room_lem n h in omega (arith, r, close, small)

  -- Each call of DoPoolAllocate for a small size carves a node that is there, or a new one.
  pub allocate_small-Carved :
      (fresh size : ℕ) (ns : List PoolNode)
      → All IsNode ns
      → IsChunk fresh
      → node_header + 8 + size ≤ chunk_len
      → let (p, ns') = allocate_small node_header fresh size ns in
        Carved size p ns ns' ⊎ Carved size p (ns ++ (new_node node_header fresh ∷ [])) ns'
  unfolding allocate_small
  allocate_small-Carved fresh size ns h chunk small = elim (carve_lem size ns h) [
    | inr (p, ns', e, c) ↦ inl (rw (e, allocate_small) c)
    | inl (e, full) ↦ inr (
        rw (e, allocate_small)
          (Carved-snoc size _ (new_node node_header fresh) _ ns (
            Carves-start size (new_node node_header fresh)
              (new_node-IsNode fresh (omega arith) chunk) (room_new fresh size chunk small))))
  ]

module _ (pool_header node_header large_header : ℕ) where
  -- A call of DoPoolAllocate: a size up to the limit is carved out of a node that is there or of
  -- a new one, and no large block is made. Above the limit the answer is malloc's, it becomes the
  -- first large block, and a header for it is carved. All of it if a node's header, a size up to
  -- the limit and eight bytes fit into a chunk, and a large block's header is
  -- a size up to the limit.
  pub allocate-Carved :
      (fresh data_address size : ℕ) (pool : Pool)
      → All IsNode pool.nodes
      → IsChunk fresh
      → node_header + 8 + large_len ≤ chunk_len
      → large_header ≤ large_len - pool_header
      → let new = pool.nodes ++ (new_node node_header fresh ∷ []) in
        let (p, pool') =
          allocate pool_header node_header large_header fresh data_address size pool in
        (size ≤ large_len - pool_header)
          × (pool'.large_blocks ≡ pool.large_blocks)
          × (Carved size p pool.nodes pool'.nodes ⊎ Carved size p new pool'.nodes)
        ⊎ (large_len - pool_header < size)
          × (p ≡ data_address)
          × (pool'.large_blocks ≡ data_address ∷ pool.large_blocks)
          × (header : ℕ) × (Carved large_header header pool.nodes pool'.nodes
              ⊎ Carved large_header header new pool'.nodes)
  unfolding allocate allocate_large
  allocate-Carved fresh data_address size pool h chunk small large =
      elim (Bool-cases (ltb (large_len - pool_header) size)) [
        | inl big ↦ inr (
          ltb→lt (large_len - pool_header) size big,
          rw (big, allocate) refl,
          rw (big, allocate) refl,
          (allocate_small node_header fresh large_header pool.nodes).0,
          rw (big, allocate)
              (allocate_small-Carved node_header fresh large_header pool.nodes h chunk
                (omega arith)),
        )
        | inr fits ↦ inl (
          ground arith,
          rw (fits, allocate) refl,
          rw (fits, allocate)
              (allocate_small-Carved node_header fresh size pool.nodes h chunk (ground arith)),
        )
      ]
