-- ===== src/SharedPool/Segments.antt =====
-- src/xty_shared_pool.cpp: which segments of shared memory a pool attaches, and that it detaches them.
use xty.Base.{
  ==_iff, ==_apart, times, ℕ, zero, suc, ◌+◌, ◌-◌, ◌*◌, ◌≤◌, ◌<◌, ◌≡◌, refl, ap, sym, subst, ◌∙◌,
  none, some, List, [], ◌∷◌, ◌++◌, length, length-append, total-append, drop, ◌==◌, if◌then◌else◌,
  ltb, leb, Bool-cases, Option-cases, inl, inr, ◌⊎◌, true, false, arith,
}
use mathlib.Core.Option.{some-injective}
use native.Mathlib.Decide.{dec_lt}
use xty.Pool.{bases, PoolNode, carve, large_len}
use xty.Pool.CleanUp.{none≢some, carve-bases, bases-append}
use xty.SharedPool.{
  SharedPool, proj_id_array, shared_memory_alloc, create, allocate_small, allocate_large, allocate,
  bases, shared_memory_clean_up,
}

one_more : (i : ℕ) → suc i ≡ i + 1
one_more i = omega arith

-- `n` project ids from 16 * k on
multiples : ℕ → ℕ → List ℕ
multiples zero k = []
multiples (suc n) k = (16 * k) ∷ multiples n (suc k)

drop-multiples :
    (i n k : ℕ) → i < n → (rest : List ℕ) × (drop i (multiples n k) ≡ (16 * (k + i)) ∷ rest)
unfolding multiples
drop-multiples i zero k h = absurd (omega (arith, h))
drop-multiples zero (suc n) k h =
    (multiples n (suc k), ap (λ z. (16 * z) ∷ multiples n (suc k)) (omega arith))
drop-multiples (suc i) (suc n) k h =
    let (rest, e) = drop-multiples i n (suc k) (omega (arith, h)) in
    (rest, e ∙ ap (λ z. (16 * z) ∷ rest) (omega arith))

proj_id : (i : ℕ) → i < 16 → (rest : List ℕ) × (drop i proj_id_array ≡ (16 * i) ∷ rest)
unfolding multiples
proj_id i h =
    let (rest, e) = drop-multiples i 16 0 h in (rest, e ∙ ap (λ z. (16 * z) ∷ rest) (omega arith))

module _ (attach : ℕ → ℕ) where
  -- The segments of the first project ids, the last one first
  abbrev pub segments : ℕ → List ℕ
  segments zero = []
  segments (suc i) = attach (16 * i) ∷ segments i

  -- What the system promises of addresses
  abbrev pub IsApart : Type 0
  IsApart = (i j : ℕ) → i < 16 → j < 16 → attach (16 * i) ≡ attach (16 * j) → i ≡ j

  times-of_later :
      (apart : IsApart) (i k a : ℕ)
      → i ≤ k
      → k < 16
      → attach (16 * k) ≡ a
      → times a (segments i) ≡ 0
  times-of_later apart zero k a l h e = refl
  times-of_later apart (suc i) k a l h e =
      let other : (attach (16 * i) == a) ≡ false =
        ==_apart (attach (16 * i)) a
          (λ z. absurd (omega (arith, l, apart i k (omega (arith, l, h)) h (z ∙ sym e)))) in
      rw other (omega (arith, times-of_later apart i k a (omega (arith, l)) h e))

  times-segments : (apart : IsApart) (i a : ℕ) → i ≤ 16 → times a (segments i) ≤ 1
  times-segments apart zero a h = omega arith
  times-segments apart (suc i) a h = elim (Bool-cases (attach (16 * i) == a)) [
    | inl e ↦
        let none_there =
          times-of_later apart i i a (omega arith) (omega (arith, h))
            ((==_iff (attach (16 * i)) a).0 e) in
        rw e (omega (arith, none_there))
    | inr e ↦ rw e (omega (arith, times-segments apart i a (omega (arith, h))))
  ]

  pub shared_memory_alloc-cases :
      (s : SharedPool)
      → ((s.proj_id_index < 16)
          × (shared_memory_alloc attach s
              ≡ some (
                attach (16 * s.proj_id_index),
                record s {
                  proj_id_index = s.proj_id_index + 1;
                  attached = attach (16 * s.proj_id_index) ∷ s.attached;
                },
              )))
        ⊎ (16 ≤ s.proj_id_index) × (shared_memory_alloc attach s ≡ none)
  unfolding shared_memory_alloc
  shared_memory_alloc-cases s = elim (dec_lt s.proj_id_index 16) [
    | yes p ↦
        let (rest, e) = proj_id s.proj_id_index p in
        let small : leb 16 s.proj_id_index ≡ false = ground arith in inl (p, rw (small, e) refl)
    | no p ↦
        let full : leb 16 s.proj_id_index ≡ true = ground arith in
        inr (omega (arith, p), rw full refl)
  ]

  -- The segments of a pool: one for each project id that is used up, and each of them has a
  -- node's block or a large block.
  pub record IsOwner (s : SharedPool) : Type 0 where
    pub index_le : s.proj_id_index ≤ 16
    pub from_ids : s.attached ≡ segments s.proj_id_index
    pub owned : (a : ℕ) → times a s.attached ≡ times a s.large_blocks + times a (bases s.nodes)
    pub has_node : 1 ≤ length s.nodes

  -- After a segment has been attached, and put into a node at the end
  IsOwner-of_new :
      (s : SharedPool) (n : PoolNode)
      → IsOwner s
      → s.proj_id_index < 16
      → n.base ≡ attach (16 * s.proj_id_index)
      → IsOwner (record s {
        nodes = s.nodes ++ (n ∷ []);
        proj_id_index = s.proj_id_index + 1;
        attached = attach (16 * s.proj_id_index) ∷ s.attached;
      })
  IsOwner-of_new s n h small e = record {
    index_le = omega (arith, small);
    from_ids =
        ap (λ z. attach (16 * s.proj_id_index) ∷ z) h.from_ids
        ∙ ap segments (one_more s.proj_id_index);
    owned = λ a. count a;
    has_node = omega (arith, length-append s.nodes (n ∷ []), h.has_node);
  }
    where
      count :
          (a : ℕ)
          → times a (attach (16 * s.proj_id_index) ∷ s.attached)
            ≡ times a s.large_blocks + times a (bases (s.nodes ++ (n ∷ [])))
      count a =
          let w : ℕ → ℕ = λ b. if b == a then 1 else 0 in
          let split =
            ap (times a) (bases-append s.nodes (n ∷ []))
            ∙ total-append w (bases s.nodes) (n.base ∷ []) in
          omega (arith, h.owned a, split, ap w e)

  allocate_small-IsOwner :
      (node_header size : ℕ) (s : SharedPool) (r : ℕ × SharedPool)
      → IsOwner s
      → allocate_small attach node_header size s ≡ some r
      → IsOwner r.1
  unfolding allocate_small
  allocate_small-IsOwner node_header size s r h e = elim (Option-cases (carve size s.nodes)) [
    | inr (q, there) ↦
        let (b, l) = carve-bases size s.nodes q there in
        subst (λ z. IsOwner z.1) (some-injective _ r (rw (there, allocate_small) at e))
          (record {
            index_le = h.index_le;
            from_ids = h.from_ids;
            owned = λ a. h.owned a ∙ ap (λ z. times a s.large_blocks + times a z) (sym b);
            has_node = omega (arith, l, h.has_node);
          })
    | inl full ↦ elim (shared_memory_alloc-cases s) [
      | inl (small, got) ↦
          subst (λ z. IsOwner z.1) (some-injective _ r (rw (full, got, allocate_small) at e))
            (IsOwner-of_new s _ h small refl)
      | inr (_, nothing) ↦ absurd (none≢some r (rw (full, nothing, allocate_small) at e))
    ]
  ]

  allocate_large-IsOwner :
      (node_header large_header : ℕ) (s : SharedPool) (r : ℕ × SharedPool)
      → IsOwner s
      → allocate_large attach node_header large_header s ≡ some r
      → IsOwner r.1
  unfolding allocate_large
  allocate_large-IsOwner node_header large_header s r h e =
      elim (Option-cases (allocate_small attach node_header large_header s)) [
        | inl nothing ↦ absurd (none≢some r (rw (nothing, allocate_large) at e))
        | inr (q, header) ↦
            let h' = allocate_small-IsOwner node_header large_header s q h header in
            elim (shared_memory_alloc-cases q.1) [
              | inr (_, nothing) ↦ absurd (none≢some r (rw (header, nothing, allocate_large) at e))
              | inl (small, got) ↦
                  subst (λ z. IsOwner z.1)
                    (some-injective _ r (rw (header, got, allocate_large) at e))
                    (record {
                      index_le = omega (arith, small);
                      from_ids =
                          ap (λ z. attach (16 * q.1.proj_id_index) ∷ z) h'.from_ids
                          ∙ ap segments (one_more q.1.proj_id_index);
                      owned = λ a. omega (arith, h'.owned a);
                      has_node = h'.has_node;
                    })
            ]
      ]

  module _ (pool_header array_len node_header large_header : ℕ) where
    -- The pools that Create and calls of DoSharedPoolAllocate for any sizes lead to
    pub data Reached : SharedPool → Type 0 where
      start : (s : SharedPool) → create attach pool_header array_len ≡ some s → Reached s
      call :
          (s : SharedPool) (size : ℕ) (r : ℕ × SharedPool)
          → Reached s
          → allocate attach node_header pool_header large_header size s ≡ some r
          → Reached r.1

    Reached-IsOwner : (s : SharedPool) → Reached s → IsOwner s
    unfolding create allocate shared_memory_alloc
    Reached-IsOwner s (start _ e) = subst IsOwner (some-injective _ s e) (record {
      index_le = omega arith;
      from_ids = refl;
      owned = λ a. omega arith;
      has_node = omega arith;
    })
    Reached-IsOwner _ (call s size r reached e) =
        elim (Bool-cases (ltb (large_len - pool_header) size)) [
          | inl big ↦
              allocate_large-IsOwner node_header large_header s r (Reached-IsOwner s reached)
                (rw (big, allocate) at e)
          | inr small ↦
              allocate_small-IsOwner node_header size s r (Reached-IsOwner s reached)
                (rw (small, allocate) at e)
        ]

    times_clean_up :
        (a : ℕ) (s : SharedPool)
        → IsOwner s
        → times a (shared_memory_clean_up s) ≡ times a s.attached
    unfolding shared_memory_clean_up
    times_clean_up a s h = go s.nodes h.has_node (h.owned a)
      where
        go :
            (ns : List PoolNode)
            → 1 ≤ length ns
            → times a s.attached ≡ times a s.large_blocks + times a (bases ns)
            → times a (shared_memory_clean_up (record s { nodes = ns })) ≡ times a s.attached
        go [] none_there e = absurd (omega (arith, none_there))
        go (n ∷ ns) one_there e =
            total-append (λ b. if b == a then 1 else 0) s.large_blocks (n.base ∷ bases ns) ∙ sym e

    -- A process whose pool in shared memory no other process creates again. However often the pool is
    -- asked, for any sizes: it has attached at most sixteen segments, one for each of the first
    -- project ids and none of them twice for the same id; and Destroy detaches each segment that has
    -- been attached, each of them once, and no other. The system gives the segments of different
    -- ids different addresses.
    pub Reached-attached :
        (s : SharedPool)
        → IsApart
        → Reached s
        → (s.proj_id_index ≤ 16)
          × (s.attached ≡ segments s.proj_id_index)
          × ((a : ℕ) → times a (shared_memory_clean_up s) ≡ times a s.attached)
          × ((a : ℕ) → times a (shared_memory_clean_up s) ≤ 1)
    Reached-attached s apart reached =
        let h = Reached-IsOwner s reached in
        (
          h.index_le,
          h.from_ids,
          λ a. times_clean_up a s h,
          λ a. omega (
            arith,
            times_clean_up a s h,
            ap (times a) h.from_ids,
            times-segments apart s.proj_id_index a h.index_le,
          ),
        )
