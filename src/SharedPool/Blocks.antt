-- ===== src/SharedPool/Blocks.antt =====
-- src/xty_shared_pool.cpp: the blocks that the pool in shared memory hands out, by what Pool/Disjoint
-- shows of a pool's.
use xty.Base.{
  ℕ, ◌+◌, ◌*◌, ◌%◌, ◌≤◌, ◌<◌, ◌≡◌, refl, sym, subst, ◌∙◌, ◌⊎◌, inl, inr, Option-cases, some, List,
  [], ◌∷◌, All, All-append, All-mono, arith,
}
use mathlib.Core.Option.{some-injective}
use xty.Pool
use xty.Pool.CleanUp.{none≢some, carve-bases, bases-append}
use xty.Pool.{bases, PoolNode, chunk_len, aligned, carve, new_node}
use xty.Pool.Carve.{IsChunk}
use xty.Pool.Blocks.{Block, Apart, InSome}
use xty.Pool.Disjoint.{Handed, start, call, AreDisjoint, Handed-AreDisjoint}
use xty.SharedPool.{SharedPool, shared_memory_alloc, create, allocate_small}
use xty.SharedPool.Segments.{shared_memory_alloc-cases}

-- What ftok, shmget and shmat promise: the segments of different project ids do not overlap, and
-- each begins at a page, inside the address space.
pub record Attaches (attach : ℕ → ℕ) : Type 0 where
  pub chunk : (k : ℕ) → k < 16 → IsChunk (attach (16 * k))
  pub apart :
      (j k : ℕ)
      → j < k
      → k < 16
      → (attach (16 * j) + chunk_len ≤ attach (16 * k))
        ⊎ (attach (16 * k) + chunk_len ≤ attach (16 * j))

module _ (attach : ℕ → ℕ) (pool_header array_len node_header : ℕ) where
  -- A pool after some calls, and the blocks in its nodes: those of small sizes, and the headers of
  -- the large ones. A node's header, the block and eight bytes fit into a segment.
  pub data Given : SharedPool → List Block → Type 0 where
    created :
        (s : SharedPool)
        → pool_header + array_len ≤ chunk_len
        → create attach pool_header array_len ≡ some s
        → Given s []
    small :
        (s : SharedPool) (bs : List Block) (size : ℕ) (r : ℕ × SharedPool)
        → Given s bs
        → node_header + 8 + size ≤ chunk_len
        → allocate_small attach node_header size s ≡ some r
        → Given r.1 ((r.0, size) ∷ bs)
    large :
        (s : SharedPool) (bs : List Block) (r : ℕ × SharedPool)
        → Given s bs
        → shared_memory_alloc attach s ≡ some r
        → Given (record r.1 { large_blocks = r.0 ∷ r.1.large_blocks }) bs

  -- Segments of the first `i` project ids
  abbrev AreSegments : ℕ → List ℕ → Type 0
  AreSegments i = All (λ b. (k : ℕ) × (k < i) × (b ≡ attach (16 * k)))

  AreSegments-suc : (i : ℕ) (bs : List ℕ) → AreSegments i bs → AreSegments (i + 1) bs
  AreSegments-suc i bs = All-mono _ bs (λ b (k, lt, e). (k, omega (arith, lt), e))

  Apart-of_new :
      (i : ℕ) (ns : List PoolNode)
      → Attaches attach
      → i < 16
      → AreSegments i (bases ns)
      → All (Apart (new_node node_header (attach (16 * i)))) ns
  Apart-of_new i [] h less hs = tt
  Apart-of_new i (n ∷ ns) h less ((k, lt, e), hs) =
      (ground (arith, e, h.apart k i lt less), Apart-of_new i ns h less hs)

  -- The nodes and blocks are those of a pool in Pool, whose header has the xtyProjIDArray with it.
  abbrev IsLike : SharedPool → List Block → Type 0
  IsLike s bs =
      Handed (pool_header + array_len) node_header s.nodes bs
      × AreSegments s.proj_id_index (bases s.nodes)

  IsLike-small :
      (s : SharedPool) (bs : List Block) (size : ℕ) (r : ℕ × SharedPool)
      → Attaches attach
      → IsLike s bs
      → node_header + 8 + size ≤ chunk_len
      → allocate_small attach node_header size s ≡ some r
      → IsLike r.1 ((r.0, size) ∷ bs)
  unfolding allocate_small Pool.allocate_small
  IsLike-small s bs size r h (handed, segments) fits e = elim (Option-cases (carve size s.nodes)) [
    | inr (q, there) ↦
        let next =
          call s.nodes bs 0 size handed (λ full. absurd (none≢some q (sym full ∙ there))) fits in
        subst (λ z. IsLike z.1 ((z.0, size) ∷ bs))
          (some-injective _ r (rw (there, allocate_small) at e))
          (
            rw (there, Pool.allocate_small) at next,
            subst (AreSegments s.proj_id_index) (sym (carve-bases size s.nodes q there).0) segments,
          )
    | inl full ↦ elim (shared_memory_alloc-cases attach s) [
      | inr (_, nothing) ↦ absurd (none≢some r (rw (full, nothing, allocate_small) at e))
      | inl (less, got) ↦
          let fresh = attach (16 * s.proj_id_index) in
          let next =
            call s.nodes bs fresh size handed
              (λ _. (
                h.chunk s.proj_id_index less,
                Apart-of_new s.proj_id_index s.nodes h less segments,
              ))
              fits in
          subst (λ z. IsLike z.1 ((z.0, size) ∷ bs))
            (some-injective _ r (rw (full, got, allocate_small) at e))
            (
              rw (full, Pool.allocate_small) at next,
              subst (AreSegments (s.proj_id_index + 1)) (sym (bases-append s.nodes _)) (
                  All-append _ (bases s.nodes) (fresh ∷ [])
                    (AreSegments-suc s.proj_id_index (bases s.nodes) segments)
                    ((s.proj_id_index, omega arith, refl), tt)),
            )
    ]
  ]

  IsLike-large :
      (s : SharedPool) (bs : List Block) (r : ℕ × SharedPool)
      → IsLike s bs
      → shared_memory_alloc attach s ≡ some r
      → IsLike (record r.1 { large_blocks = r.0 ∷ r.1.large_blocks }) bs
  IsLike-large s bs r (handed, segments) e = elim (shared_memory_alloc-cases attach s) [
    | inr (_, nothing) ↦ absurd (none≢some r (sym nothing ∙ e))
    | inl (less, got) ↦
        subst (λ z. IsLike (record z.1 { large_blocks = z.0 ∷ z.1.large_blocks }) bs)
          (some-injective _ r (sym got ∙ e))
          (handed, AreSegments-suc s.proj_id_index (bases s.nodes) segments)
  ]

  Given-IsLike : (s : SharedPool) (bs : List Block) → Attaches attach → Given s bs → IsLike s bs
  unfolding create shared_memory_alloc
  Given-IsLike _ _ h (created s fits e) =
      let p = attach 0 in
      subst (λ z. IsLike z []) (some-injective _ s e)
        (
          subst
              (λ z.
                Handed (pool_header + array_len) node_header
                  (record { base = p; empty_start = z; empty_end = p + chunk_len } ∷ []) [])
              (omega arith) (start p (h.chunk 0 (omega arith)) fits),
          ((0, omega arith, refl), tt),
        )
  Given-IsLike _ _ h (small s bs size r given fits e) =
      IsLike-small s bs size r h (Given-IsLike s bs h given) fits e
  Given-IsLike _ _ h (large s bs r given e) = IsLike-large s bs r (Given-IsLike s bs h given) e

  -- However often the pool in shared memory is asked: no two of the blocks in its nodes overlap,
  -- each is inside a node's segment, and each begins at a multiple of eight; where the system keeps
  -- segments of different project ids apart, in the address space, and at pages.
  pub Given-AreDisjoint :
      (s : SharedPool) (bs : List Block)
      → Attaches attach
      → Given s bs
      → AreDisjoint bs × All (λ b. InSome b s.nodes) bs × All (λ b. b.0 % 8 ≡ 0) bs
  Given-AreDisjoint s bs h given =
      Handed-AreDisjoint (pool_header + array_len) node_header s.nodes bs
        (Given-IsLike s bs h given).0
