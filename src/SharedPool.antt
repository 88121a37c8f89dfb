-- ===== src/SharedPool.antt =====
-- src/xty_shared_pool.cpp: xtySharedPool, which carves blocks out of segments of shared memory. The
-- address at which the system attaches the segment of a project id is a parameter, `attach`; a call
-- that fails ends the program and is left out. Nodes and their blocks are as in Pool.
pub mod Segments
pub mod Blocks
mod Tests
use xty.Base.{ℕ, ◌+◌, ◌-◌, Option, none, some, List, [], ◌∷◌, ◌++◌, if◌then◌else◌, drop, ltb, leb}
use xty.Pool.{bases, PoolNode, chunk_len, large_len, aligned, carve, new_node}

-- XTY_PROJ_ID_ARRAY_SIZE
abbrev pub proj_id_array_size : ℕ
proj_id_array_size = 16

-- g_const_proj_id_array
abbrev pub proj_id_array : List ℕ
proj_id_array =
    0 ∷ 16 ∷ 32 ∷ 48 ∷ 64 ∷ 80 ∷ 96 ∷ 112 ∷ 128 ∷ 144 ∷ 160 ∷ 176 ∷ 192 ∷ 208 ∷ 224 ∷ 240 ∷ []

-- xtySharedPool: the nodes, the data of the large blocks, from m_pLarge on, and m_ProjIDIndex; and,
-- for what is to be said of them, the segments attached so far, the last one first.
pub record SharedPool : Type 0 where
  pub nodes : List PoolNode
  pub large_blocks : List ℕ
  pub proj_id_index : ℕ
  pub attached : List ℕ

module _ (attach : ℕ → ℕ) where
  -- __SharedMemoryAlloc_Aux; `none` is exit(XTY_ERROR), here and below.
  unfoldable pub shared_memory_alloc : SharedPool → Option (ℕ × SharedPool)
  shared_memory_alloc s =
      let taken : Option (ℕ × SharedPool) = elim (drop s.proj_id_index proj_id_array) [
        | [] ↦ none
        | id ∷ ids ↦ some (
          attach id,
          record s { proj_id_index = s.proj_id_index + 1; attached = attach id ∷ s.attached },
        )
      ] in
      if leb proj_id_array_size s.proj_id_index then none else taken

  -- Create, and xtySharedPool's constructor, which puts an xtyProjIDArray behind the pool
  unfoldable pub create : (pool_header array_len : ℕ) → Option SharedPool
  unfolding shared_memory_alloc
  create pool_header array_len =
      let nothing : SharedPool = record {
        nodes = [];
        large_blocks = [];
        proj_id_index = 0;
        attached = [];
      } in
      elim (shared_memory_alloc nothing) [
        | none ↦ none
        | some (p, s) ↦ some (record s {
          nodes =
              record {
                base = p;
                empty_start = p + pool_header + array_len;
                empty_end = p + chunk_len;
              }
              ∷ [];
        })
      ]

  module _ (node_header : ℕ) where
    -- DoSharedPoolAllocate, for a size that is not large
    unfoldable pub allocate_small : ℕ → SharedPool → Option (ℕ × SharedPool)
    unfolding shared_memory_alloc carve aligned
    allocate_small size s = elim (carve size s.nodes) [
      | some (p, ns) ↦ some (p, record s { nodes = ns })
      | none ↦ elim (shared_memory_alloc s) [
        | none ↦ none
        | some (base, s') ↦
            let n = new_node node_header base in
            let p = aligned n.empty_start in
            some (p, record s' { nodes = s'.nodes ++ (record n { empty_start = p + size } ∷ []) })
      ]
    ]

    -- DoPoolAllocateLarge; the segment is attached by the constructor of xtySharedLargeBlock.
    unfoldable pub allocate_large : (large_header : ℕ) → SharedPool → Option (ℕ × SharedPool)
    unfolding allocate_small
    allocate_large large_header s = elim (allocate_small large_header s) [
      | none ↦ none
      | some (header, s') ↦ elim (shared_memory_alloc s') [
        | none ↦ none
        | some (p, s'') ↦ some (p, record s'' { large_blocks = p ∷ s''.large_blocks })
      ]
    ]

    -- DoSharedPoolAllocate
    unfoldable pub allocate :
        (pool_header large_header : ℕ) → ℕ → SharedPool → Option (ℕ × SharedPool)
    unfolding allocate_large
    allocate pool_header large_header size s =
        if ltb (large_len - pool_header) size
        then allocate_large large_header s
        else allocate_small size s

-- The loops of SharedMemoryCleanUp and of the destructor of xtySharedLargeBlock: the segments that
-- are detached, in order. The first node has the large blocks.
unfoldable pub shared_memory_clean_up : SharedPool → List ℕ
shared_memory_clean_up s = elim s.nodes [ [] ↦ [] | n ∷ ns ↦ s.large_blocks ++ (n.base ∷ bases ns) ]

-- Create, in another process: ftok gives the same key for its first project id, so that it attaches
-- the same segment, at an address of its own, and constructs its pool over the one in it. What this
-- process, which has attached its own segments, then reads there.
abbrev pub created_over : (theirs mine : SharedPool) → SharedPool
created_over theirs mine = record theirs { attached = mine.attached }
