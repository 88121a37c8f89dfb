-- ===== src/SharedPool/Tests.antt =====
-- Runs of the pool of src/xty_shared_pool.cpp, where the system puts each segment behind the one
-- before, and the theorems at them.
use xty.Base.{times, ℕ, ◌+◌, ◌*◌, ◌%◌, ◌≤◌, ◌≡◌, refl, inl, some, none, [], ◌∷◌, All, arith}
use xty.Pool.{aligned, carve}
use xty.Pool.Blocks.{Block, InSome}
use xty.Pool.Disjoint.{AreDisjoint}
use xty.SharedPool.{
  SharedPool, shared_memory_alloc, create, allocate_small, allocate_large, allocate,
  shared_memory_clean_up, created_over,
}
use xty.SharedPool.Segments.{IsApart, segments, start, call, Reached-attached}
use xty.SharedPool.Blocks.{Attaches, created, small, Given-AreDisjoint}

abbrev attach : ℕ → ℕ
attach id = 65536 + id * 1024

attach-Attaches : Attaches attach
attach-Attaches = record {
  chunk = λ k h. (omega arith, omega arith);
  apart = λ j k h h'. inl (omega arith);
}

-- A new pool, with a header of 100 bytes and 80 bytes of project ids
abbrev new_pool : SharedPool
new_pool = record {
  nodes = record { base = 65536; empty_start = 65716; empty_end = 81920 } ∷ [];
  large_blocks = [];
  proj_id_index = 1;
  attached = 65536 ∷ [];
}

created_pool : create attach 100 80 ≡ some new_pool
unfolding create shared_memory_alloc
created_pool = refl

-- Ten bytes of it, at the next multiple of eight
abbrev one_block : SharedPool
one_block = record new_pool {
  nodes = record { base = 65536; empty_start = 65730; empty_end = 81920 } ∷ [];
}

ten_bytes : allocate_small attach 48 10 new_pool ≡ some (65720, one_block)
unfolding allocate_small carve aligned
ten_bytes = refl

-- A large block: its header is in the node, and its data in a segment of its own.
abbrev one_large : SharedPool
one_large = record {
  nodes = record { base = 65536; empty_start = 65744; empty_end = 81920 } ∷ [];
  large_blocks = 81920 ∷ [];
  proj_id_index = 2;
  attached = 81920 ∷ 65536 ∷ [];
}

large_block : allocate attach 48 100 24 5000 new_pool ≡ some (81920, one_large)
unfolding allocate allocate_large allocate_small shared_memory_alloc carve aligned
large_block = refl

-- The seventeenth segment ends the program.
used_up : shared_memory_alloc attach (record new_pool { proj_id_index = 16 }) ≡ none
unfolding shared_memory_alloc
used_up = refl

-- After another process has created its pool, which attaches at other addresses, Destroy in this one
-- detaches the other's address, which is none of its own, and keeps its own.
abbrev their_pool : SharedPool
their_pool = record {
  nodes = record { base = 1048576; empty_start = 1048756; empty_end = 1064960 } ∷ [];
  large_blocks = [];
  proj_id_index = 1;
  attached = 1048576 ∷ [];
}

their_create : create (λ id. 1048576 + id * 1024) 100 80 ≡ some their_pool
unfolding create shared_memory_alloc
their_create = refl

detaches_theirs :
    (shared_memory_clean_up (created_over their_pool one_large) ≡ 1048576 ∷ [])
    × ((created_over their_pool one_large).attached ≡ 81920 ∷ 65536 ∷ [])
unfolding shared_memory_clean_up
detaches_theirs = (refl, refl)

attach-IsApart : IsApart attach
attach-IsApart i j h h' e = omega (arith, e)

Reached-attached_example :
    (2 ≤ 16)
    × (81920 ∷ 65536 ∷ [] ≡ segments attach 2)
    × ((a : ℕ) → times a (shared_memory_clean_up one_large) ≡ times a (81920 ∷ 65536 ∷ []))
    × ((a : ℕ) → times a (shared_memory_clean_up one_large) ≤ 1)
Reached-attached_example =
    Reached-attached attach 100 80 48 24 one_large attach-IsApart
      (call new_pool 5000 (81920, one_large) (start new_pool created_pool) large_block)

Given-AreDisjoint_example :
    AreDisjoint ((65720, 10) ∷ [])
    × All (λ (b : Block). InSome b one_block.nodes) ((65720, 10) ∷ [])
    × All (λ (b : Block). b.0 % 8 ≡ 0) ((65720, 10) ∷ [])
Given-AreDisjoint_example =
    Given-AreDisjoint attach 100 80 48 one_block ((65720, 10) ∷ []) attach-Attaches (
      small new_pool [] 10 (65720, one_block) (created new_pool (omega arith) created_pool)
        (omega arith) ten_bytes)
