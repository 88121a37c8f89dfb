-- ===== src/Pool/CleanUp.antt =====
-- src/xty_pool.cpp: a pool gives back all the memory that it has got.
use xty.Base.{
  ℕ, suc, ◌+◌, ◌-◌, ◌≤◌, ◌≡◌, refl, ap, sym, ◌∙◌, Option-cases, none, some, List, [], ◌∷◌, ◌++◌,
  length, length-append, append-nil, total-append, times, ◌==◌, if◌then◌else◌, ltb, leb, Bool-cases,
  inl, inr, arith,
}
use mathlib.Core.Option.{some-injective}
use xty.Pool.{
  PoolNode, room, Pool, carve, create, allocate_small, allocate_large, allocate, large_len, bases,
  memory_clean_up,
}

pub none≢some {ℓ} : {A : Type ℓ} → (x : A) → none ≡ some x → ⊥
none≢some x e = cc

pub carve-bases :
    (size : ℕ) (ns : List PoolNode) (q : ℕ × List PoolNode)
    → carve size ns ≡ some q
    → (bases q.1 ≡ bases ns) × (length q.1 ≡ length ns)
unfolding carve
carve-bases size [] q e = absurd (none≢some q e)
carve-bases size (n ∷ ns) q e = elim (Bool-cases (leb size (room n))) [
  | inl fits ↦
      let same = some-injective _ q (rw fits at e) in
      (ap (λ z. bases z.1) (sym same), ap (λ z. length z.1) (sym same))
  | inr full ↦ elim (Option-cases (carve size ns)) [
    | inl nothing ↦ absurd (none≢some q (rw (full, nothing) at e))
    | inr (q', later) ↦
        let (b, l) = carve-bases size ns q' later in
        let same = some-injective _ q (rw (full, later) at e) in
        (
          ap (λ z. bases z.1) (sym same) ∙ ap (λ z. n.base ∷ z) b,
          ap (λ z. length z.1) (sym same) ∙ ap suc l,
        )
  ]
]

pub bases-append : (ns ms : List PoolNode) → bases (ns ++ ms) ≡ bases ns ++ bases ms
bases-append [] ms = refl
bases-append (n ∷ ns) ms = ap (λ z. n.base ∷ z) (bases-append ns ms)

module _ (node_header : ℕ) where
  -- What posix_memalign answers with, if DoPoolAllocate calls it
  abbrev pub chunk_got : (fresh size : ℕ) → List PoolNode → List ℕ
  chunk_got fresh size ns = elim (carve size ns) [ none ↦ fresh ∷ [] | some q ↦ [] ]

  allocate_small-bases :
      (fresh size : ℕ) (ns : List PoolNode)
      → (bases (allocate_small node_header fresh size ns).1 ≡ bases ns ++ chunk_got fresh size ns)
        × (length ns ≤ length (allocate_small node_header fresh size ns).1)
  unfolding allocate_small
  allocate_small-bases fresh size ns = elim (Option-cases (carve size ns)) [
    | inr (q, there) ↦
        let (b, l) = carve-bases size ns q there in
        (
          rw (there, chunk_got, allocate_small) (b ∙ sym (append-nil (bases ns))),
          rw (there, allocate_small) (omega (arith, l)),
        )
    | inl full ↦ (
      rw (full, chunk_got, allocate_small) (bases-append ns _),
      rw (full, allocate_small) (omega (arith, length-append ns _)),
    )
  ]

-- After a node has been carved or added
times-bases : (a : ℕ) (ns ms got : List ℕ) → ms ≡ ns ++ got → times a ms ≡ times a ns + times a got
times-bases a ns ms got e = ap (times a) e ∙ total-append (λ b. if b == a then 1 else 0) ns got

module _ (pool_header node_header large_header : ℕ) where
  -- What the system answers with in a call of DoPoolAllocate, to posix_memalign and to malloc
  abbrev pub got_in : (fresh data_address size : ℕ) → Pool → List ℕ
  got_in fresh data_address size pool =
      if ltb (large_len - pool_header) size
      then data_address ∷ chunk_got node_header fresh large_header pool.nodes
      else chunk_got node_header fresh size pool.nodes

  -- A pool, and all the memory that it has got: from Create, and in calls for any sizes
  pub data Got : Pool → List ℕ → Type 0 where
    created : (address : ℕ) → Got (create pool_header address) (address ∷ [])
    called :
        (pool : Pool) (got : List ℕ) (fresh data_address size : ℕ)
        → Got pool got
        → Got
            (allocate pool_header node_header large_header fresh data_address size pool).1
            (got_in fresh data_address size pool ++ got)

  record IsOwned (pool : Pool) (got : List ℕ) : Type 0 where
    owned : (a : ℕ) → times a got ≡ times a pool.large_blocks + times a (bases pool.nodes)
    has_node : 1 ≤ length pool.nodes

  IsOwned-small :
      (pool : Pool) (got : List ℕ) (fresh size : ℕ)
      → IsOwned pool got
      → IsOwned
          (record pool { nodes = (allocate_small node_header fresh size pool.nodes).1 })
          (chunk_got node_header fresh size pool.nodes ++ got)
  IsOwned-small pool got fresh size h =
      let (b, l) = allocate_small-bases node_header fresh size pool.nodes in
      let new = chunk_got node_header fresh size pool.nodes in
      record {
        owned = λ a. omega (
          arith,
          h.owned a,
          times-bases a new (new ++ got) got refl,
          times-bases a (bases pool.nodes)
              (bases (allocate_small node_header fresh size pool.nodes).1) new b,
        );
        has_node = omega (arith, l, h.has_node);
      }

  Got-IsOwned : (pool : Pool) (got : List ℕ) → Got pool got → IsOwned pool got
  unfolding allocate allocate_large
  Got-IsOwned _ _ (created address) = record { owned = λ a. omega arith; has_node = omega arith }
  Got-IsOwned _ _ (called pool got fresh data_address size r) =
      let h = Got-IsOwned pool got r in
      elim (Bool-cases (ltb (large_len - pool_header) size)) [
        | inr fits ↦ rw (fits, got_in, allocate) (IsOwned-small pool got fresh size h)
        | inl big ↦
            let h' = IsOwned-small pool got fresh large_header h in
            rw (big, got_in, allocate)
              (record { owned = λ a. omega (arith, h'.owned a); has_node = h'.has_node })
      ]

  -- Destroy gives back the memory that the pool has got: after Create and calls of DoPoolAllocate for
  -- any sizes, what is freed is each address that posix_memalign or malloc has answered with, as
  -- often as it has, and no other.
  pub Got-memory_clean_up :
      (pool : Pool) (got : List ℕ)
      → Got pool got
      → (a : ℕ) → times a (memory_clean_up pool) ≡ times a got
  unfolding memory_clean_up
  Got-memory_clean_up pool got r a =
      let h = Got-IsOwned pool got r in go pool.nodes h.has_node (h.owned a)
    where
      go :
          (ns : List PoolNode)
          → 1 ≤ length ns
          → times a got ≡ times a pool.large_blocks + times a (bases ns)
          → times a (memory_clean_up (record pool { nodes = ns })) ≡ times a got
      go [] none_there e = absurd (omega (arith, none_there))
      go (n ∷ ns) one_there e = omega (
        arith,
        e,
        times-bases a pool.large_blocks (memory_clean_up (record pool { nodes = n ∷ ns }))
            (bases ns ++ (n.base ∷ [])) refl,
        times-bases a (bases ns) (bases ns ++ (n.base ∷ [])) (n.base ∷ []) refl,
      )
