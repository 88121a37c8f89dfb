-- ===== src/Array/Grow.antt =====
-- src/xty_array.h: an array is a list, in memory that is large enough.
use xty.Base.{
  Bool-cases, inl, inr, ℕ, zero, suc, ◌+◌, ◌-◌, ◌*◌, ◌%◌, ◌^◌, ◌<◌, ◌≡◌, refl, ap, ap₂, sym, false,
  true, ◌∙◌, Option, none, some, List, [], ◌∷◌, ◌++◌, append_assoc, length, length-append, ltb,
  arith,
}
use xty.Array.{
  Array, raw, construct_cell, destroy_cell, copy_cells, destroy_cells, destroy_old, grown,
  construct_back, push_back, pop_back,
}

module _ {ℓ} {A : Type ℓ} where
  abbrev pub full : List A → List (Option A)
  full [] = []
  full (x ∷ xs) = some x ∷ full xs

  -- The array holds these values, and has room for `n` more.
  pub record IsArray (a : Array A) (xs : List A) (n : ℕ) : Type ℓ where
    pub storage : a.data_storage ≡ full xs ++ raw n
    pub count : a.node_count ≡ length xs
    pub capacity : a.node_capacity ≡ length xs + n
    pub small : length xs + n < 2 ^ 63

  pub length-full : (xs : List A) → length (full xs) ≡ length xs
  length-full [] = refl
  length-full (x ∷ xs) = ap suc (length-full xs)

  pub full-snoc : (xs : List A) (x : A) → full (xs ++ (x ∷ [])) ≡ full xs ++ (some x ∷ [])
  full-snoc [] x = refl
  full-snoc (y ∷ xs) x = ap (λ z. some y ∷ z) (full-snoc xs x)

  construct_cell-full :
      (xs : List A) (x : A) (cs : List (Option A))
      → construct_cell (length xs) x (full xs ++ (none ∷ cs)) ≡ some (full xs ++ (some x ∷ cs))
  unfolding construct_cell
  construct_cell-full [] x cs = refl
  construct_cell-full (y ∷ xs) x cs = rw (construct_cell-full xs x cs) refl

  destroy_cell-full :
      (xs : List A) (x : A) (cs : List (Option A))
      → destroy_cell (length xs) (full xs ++ (some x ∷ cs)) ≡ some (full xs ++ (none ∷ cs))
  unfolding destroy_cell
  destroy_cell-full [] x cs = refl
  destroy_cell-full (y ∷ xs) x cs = rw (destroy_cell-full xs x cs) refl

  pub copy_cells-full :
      (xs : List A) (cs : List (Option A)) (n : ℕ)
      → copy_cells (length xs) (full xs ++ cs) (raw (length xs + n)) ≡ some (full xs ++ raw n)
  unfolding copy_cells
  copy_cells-full [] cs n = ap (λ z. some (raw z)) (omega arith)
  copy_cells-full (x ∷ xs) cs n =
      let more : suc (length xs) + n ≡ suc (length xs + n) = omega arith in
      ap (λ z. copy_cells (suc (length xs)) (some x ∷ (full xs ++ cs)) (raw z)) more
      ∙ (rw (copy_cells-full xs cs n, copy_cells) refl)

  pub destroy_cells-full :
      (xs : List A) (n : ℕ)
      → destroy_cells (length xs) (full xs ++ raw n) ≡ some (raw (length xs + n))
  unfolding destroy_cells
  destroy_cells-full [] n = ap (λ z. some (raw z)) (omega arith)
  destroy_cells-full (x ∷ xs) n =
      let more : suc (length xs + n) ≡ suc (length xs) + n = omega arith in
      rw (destroy_cells-full xs n, destroy_cells) (ap (λ z. some (raw z)) more)

  -- PushBack, where there is room.
  construct_back-IsArray :
      (a : Array A) (x : A) (xs : List A) (n : ℕ)
      → IsArray a xs (suc n)
      → (a' : Array A) × (construct_back x a ≡ some a') × IsArray a' (xs ++ (x ∷ [])) n
  unfolding construct_back
  construct_back-IsArray a x xs n h = (
    record a {
      node_count = (a.node_count + 1) % 2 ^ 64;
      data_storage = full xs ++ (some x ∷ raw n);
    },
    rw (h.storage, h.count, construct_back, construct_cell-full xs x (raw n))
        (ap
          (λ z. some (record a {
            node_count = (z + 1) % 2 ^ 64;
            data_storage = full xs ++ (some x ∷ raw n);
          }))
          h.count),
    record {
      storage =
          sym
            (ap (λ z. z ++ raw n) (full-snoc xs x) ∙ append_assoc (full xs) (some x ∷ []) (raw n));
      count = omega (arith, h.count, h.small, length-append xs (x ∷ []));
      capacity = omega (arith, h.capacity, length-append xs (x ∷ []));
      small = omega (arith, h.small, length-append xs (x ∷ []));
    },
  )

  -- No room: the memory is doubled.
  grown-IsArray :
      (a : Array A) (xs : List A)
      → IsArray a xs 0
      → length xs + length xs < 2 ^ 63
      → (b : Array A) × (grown a ≡ some b) × IsArray b xs (length xs)
  unfolding grown
  grown-IsArray a xs h fits =
      let no_room : ltb a.node_count a.node_capacity ≡ false =
        ground (arith, h.count, h.capacity) in
      let twice : a.node_capacity * 2 % 2 ^ 64 ≡ length xs + length xs =
        omega (arith, h.capacity, fits) in
      let copied : copy_cells a.node_count a.data_storage (raw (a.node_capacity * 2 % 2 ^ 64))
          ≡ some (full xs ++ raw (length xs)) =
        ap (λ z. copy_cells z a.data_storage (raw (a.node_capacity * 2 % 2 ^ 64))) h.count
        ∙ ap₂ (copy_cells (length xs)) h.storage (ap raw twice)
        ∙ copy_cells-full xs (raw 0) (length xs) in
      (
        record a {
          node_capacity = a.node_capacity * 2 % 2 ^ 64;
          data_storage = full xs ++ raw (length xs);
        },
        rw (no_room, grown, copied) refl,
        record { storage = refl; count = h.count; capacity = twice; small = fits },
      )

  grown_same : (a : Array A) (xs : List A) (n : ℕ) → IsArray a xs (suc n) → grown a ≡ some a
  unfolding grown
  grown_same a xs n h =
      let room : ltb a.node_count a.node_capacity ≡ true = ground (arith, h.count, h.capacity) in
      rw (room, grown) refl

  -- Whether or not the array has new memory, what is destroyed in the old one is there.
  destroy_old-some :
      (a : Array A) (xs : List A) (n : ℕ)
      → IsArray a xs n
      → (old : List (Option A)) × (destroy_old a ≡ some old)
  unfolding destroy_old
  destroy_old-some a xs n h = elim (Bool-cases (ltb a.node_count a.node_capacity)) [
    | inl room ↦ (a.data_storage, rw (room, destroy_old) refl)
    | inr no_room ↦ (
      raw (length xs + n),
      rw (no_room, destroy_old) (ap₂ destroy_cells h.count h.storage ∙ destroy_cells-full xs n),
    )
  ]

  push_at :
      (a b : Array A) (x : A) (xs ys : List A) (n m : ℕ)
      → grown a ≡ some b
      → IsArray a ys m
      → IsArray b xs (suc n)
      → (a' : Array A) × (n' : ℕ) × (push_back x a ≡ some a') × IsArray a' (xs ++ (x ∷ [])) n'
  unfolding push_back
  push_at a b x xs ys n m e h0 h =
      let (a', done, h') = construct_back-IsArray b x xs n h in
      let (old, destroyed) = destroy_old-some a ys m h0 in
      (a', n, rw (e, done, destroyed, push_back) refl, h')

  -- PushBack on an array that is a list makes the list with the value at its end, whether or not the
  -- memory is doubled for it. It constructs values only in cells of the memory that have none, and
  -- copies and destroys only values that are there. The capacity is not zero, and twice the
  -- capacity is below 2 ^ 63.
  pub push_back-IsArray :
      (a : Array A) (x : A) (xs : List A) (n : ℕ)
      → IsArray a xs n
      → 0 < length xs + n
      → (length xs + n) + (length xs + n) < 2 ^ 63
      → (a' : Array A) × (n' : ℕ) × (push_back x a ≡ some a') × IsArray a' (xs ++ (x ∷ [])) n'
  push_back-IsArray a x xs (suc n) h some_room fits =
      push_at a a x xs xs n (suc n) (grown_same a xs n h) h h
  push_back-IsArray a x [] zero h some_room fits = absurd (omega arith)
  push_back-IsArray a x (y ∷ ys) zero h some_room fits =
      let (b, e, h') = grown-IsArray a (y ∷ ys) h (omega arith) in
      push_at a b x (y ∷ ys) (y ∷ ys) (length ys) zero e h h'

  -- PopBack takes the last value off.
  pub pop_back-IsArray :
      (a : Array A) (x : A) (xs : List A) (n : ℕ)
      → IsArray a (xs ++ (x ∷ [])) n
      → (a' : Array A) × (pop_back a ≡ some a') × IsArray a' xs (suc n)
  unfolding pop_back
  pop_back-IsArray a x xs n h =
      let l = length-append xs (x ∷ []) in
      let last : (a.node_count + 2 ^ 64 - 1) % 2 ^ 64 ≡ length xs =
        omega (arith, h.count, h.small, l) in
      let cells : a.data_storage ≡ full xs ++ (some x ∷ raw n) =
        h.storage
        ∙ ap (λ z. z ++ raw n) (full-snoc xs x)
        ∙ append_assoc (full xs) (some x ∷ []) (raw n) in
      let cut : destroy_cell ((a.node_count + 2 ^ 64 - 1) % 2 ^ 64) a.data_storage
          ≡ some (full xs ++ (none ∷ raw n)) =
        ap₂ destroy_cell last cells ∙ destroy_cell-full xs x (raw n) in
      (
        record a {
          node_count = (a.node_count + 2 ^ 64 - 1) % 2 ^ 64;
          data_storage = full xs ++ (none ∷ raw n);
        },
        rw (cut, pop_back) refl,
        record {
          storage = refl;
          count = last;
          capacity = omega (arith, h.capacity, l);
          small = omega (arith, h.small, l);
        },
      )
