-- ===== src/Pool/Tests.antt =====
-- Runs of the pool of src/xty_pool.cpp, and the theorems at them.
use xty.Base.{times, ℕ, ◌-◌, ◌≡◌, ◌≤◌, ◌<◌, ◌⊎◌, refl, List, [], ◌∷◌, ◌++◌, All, arith}
use xty.Pool.{
  memory_clean_up, PoolNode, large_len, create, new_node, aligned, carve, allocate_small, allocate,
}
use xty.Pool.Carve.{IsNode, Carved, allocate_small-Carved, allocate-Carved}
use xty.Pool.CleanUp.{Got, created, called, Got-memory_clean_up, got_in}

-- A pool at 4096 with a header of 100 bytes
abbrev small_pool : List PoolNode
small_pool = (create 100 4096).nodes

-- Ten bytes, at the next multiple of eight after the header
run : (allocate_small 32 40960 10 small_pool).0 ≡ 4200
unfolding allocate_small carve aligned
run = refl

-- A block that does not fit any more begins a chunk of its own.
run_new : (allocate_small 32 40960 16300 small_pool).0 ≡ 40992
unfolding allocate_small carve aligned
run_new = refl

abbrev small_pool-IsNode : All IsNode small_pool
small_pool-IsNode = ((omega arith, omega arith, refl, refl, omega arith), tt)

allocate_small-Carved_example :
    Carved 10
      (allocate_small 32 40960 10 small_pool).0
      small_pool
      (allocate_small 32 40960 10 small_pool).1
    ⊎ Carved 10
        (allocate_small 32 40960 10 small_pool).0
        (small_pool ++ (new_node 32 40960 ∷ []))
        (allocate_small 32 40960 10 small_pool).1
allocate_small-Carved_example =
    allocate_small-Carved 32 40960 10 small_pool small_pool-IsNode (refl, omega arith) (omega arith)

allocate-Carved_example :
    (5000 ≤ large_len - 100)
      × ((allocate 100 32 16 40960 9000 5000 (create 100 4096)).1.large_blocks ≡ [])
      × (Carved 5000
            (allocate 100 32 16 40960 9000 5000 (create 100 4096)).0
            small_pool
            (allocate 100 32 16 40960 9000 5000 (create 100 4096)).1.nodes
          ⊎ Carved 5000
              (allocate 100 32 16 40960 9000 5000 (create 100 4096)).0
              (small_pool ++ (new_node 32 40960 ∷ []))
              (allocate 100 32 16 40960 9000 5000 (create 100 4096)).1.nodes)
    ⊎ (large_len - 100 < 5000)
      × ((allocate 100 32 16 40960 9000 5000 (create 100 4096)).0 ≡ 9000)
      × ((allocate 100 32 16 40960 9000 5000 (create 100 4096)).1.large_blocks ≡ 9000 ∷ [])
      × (header : ℕ) × (Carved 16 header small_pool
            (allocate 100 32 16 40960 9000 5000 (create 100 4096)).1.nodes
          ⊎ Carved 16 header
              (small_pool ++ (new_node 32 40960 ∷ []))
              (allocate 100 32 16 40960 9000 5000 (create 100 4096)).1.nodes)
allocate-Carved_example =
    allocate-Carved 100 32 16 40960 9000 5000 (create 100 4096) small_pool-IsNode
      (refl, omega arith) (omega arith) (omega arith)

after_large :
    Got 100 32 16
      (allocate 100 32 16 40960 9000 5000 (create 100 4096)).1
      (got_in 100 32 16 40960 9000 5000 (create 100 4096) ++ (4096 ∷ []))
after_large = called (create 100 4096) (4096 ∷ []) 40960 9000 5000 (created 4096)

Got-memory_clean_up_example :
    times 4096 (memory_clean_up (allocate 100 32 16 40960 9000 5000 (create 100 4096)).1)
    ≡ times 4096 (got_in 100 32 16 40960 9000 5000 (create 100 4096) ++ (4096 ∷ []))
Got-memory_clean_up_example =
    Got-memory_clean_up 100 32 16 (allocate 100 32 16 40960 9000 5000 (create 100 4096)).1
      (got_in 100 32 16 40960 9000 5000 (create 100 4096) ++ (4096 ∷ [])) after_large 4096
