-- ===== src/Array.antt =====
-- src/xty_array.h: xtyArray, a growing array in allocated memory. A cell is `none` while no value
-- is constructed in it. What is done to a cell outside the memory has no result, nor has reading or
-- destroying a value that is not there, or constructing one over another.
pub mod Grow
pub mod Access
mod Tests
use xty.Base.{
  ℕ, zero, suc, ◌+◌, ◌-◌, ◌*◌, ◌%◌, ◌^◌, Option, none, some, List, [], ◌∷◌, if◌then◌else◌, ltb, leb,
  Bool, take,
}
use xty.Msg.Stream.{Outcome, ok, thrown, fault}

-- XTY_DEFAULT_ARRAY_SIZE
abbrev pub default_size : ℕ
default_size = 4

-- m_NodeCount and m_NodeCapacity, each a size_t of 64 bits, and m_pDataStorage
pub record Array {ℓ} (A : Type ℓ) : Type ℓ where
  pub node_count : ℕ
  pub node_capacity : ℕ
  pub data_storage : List (Option A)

module _ {ℓ} {A : Type ℓ} where
  -- What Allocate answers with
  abbrev pub raw : ℕ → List (Option A)
  raw zero = []
  raw (suc n) = none ∷ raw n

  -- __Construct, at an index: the cell has no value yet.
  unfoldable pub construct_cell : ℕ → A → List (Option A) → Option (List (Option A))
  construct_cell i x [] = none
  construct_cell zero x (none ∷ cs) = some (some x ∷ cs)
  construct_cell zero x (some y ∷ cs) = none
  construct_cell (suc i) x (c ∷ cs) = elim (construct_cell i x cs) [
    | none ↦ none
    | some cs' ↦ some (c ∷ cs')
  ]

  -- __Destruct, at an index: the cell has a value.
  unfoldable pub destroy_cell : ℕ → List (Option A) → Option (List (Option A))
  destroy_cell i [] = none
  destroy_cell zero (none ∷ cs) = none
  destroy_cell zero (some x ∷ cs) = some (none ∷ cs)
  destroy_cell (suc i) (c ∷ cs) = elim (destroy_cell i cs) [
    | none ↦ none
    | some cs' ↦ some (c ∷ cs')
  ]

  -- The loop that copies so many values of the old memory to the start of new memory
  unfoldable pub copy_cells : ℕ → List (Option A) → List (Option A) → Option (List (Option A))
  copy_cells zero cs new = some new
  copy_cells (suc n) [] new = none
  copy_cells (suc n) (none ∷ cs) new = none
  copy_cells (suc n) (some x ∷ cs) [] = none
  copy_cells (suc n) (some x ∷ cs) (c ∷ new) = elim (copy_cells n cs new) [
    | none ↦ none
    | some new' ↦ some (some x ∷ new')
  ]

  -- The loop that destroys so many values: after copying, in Clear, and in the destructor
  unfoldable pub destroy_cells : ℕ → List (Option A) → Option (List (Option A))
  destroy_cells zero cs = some cs
  destroy_cells (suc n) [] = none
  destroy_cells (suc n) (none ∷ cs) = none
  destroy_cells (suc n) (some x ∷ cs) = elim (destroy_cells n cs) [
    | none ↦ none
    | some cs' ↦ some (none ∷ cs')
  ]

  -- The constructor
  abbrev pub new_array : Array A
  new_array = record {
    node_count = 0;
    node_capacity = default_size;
    data_storage = raw default_size;
  }

  -- Where PushBack constructs the value: in the old memory, or in memory of twice the size
  unfoldable pub grown : Array A → Option (Array A)
  unfolding copy_cells
  grown a =
      let capacity = a.node_capacity * 2 % 2 ^ 64 in
      let copied : Option (Array A) = elim (copy_cells a.node_count a.data_storage (raw capacity)) [
        | none ↦ none
        | some cells ↦ some (record a { node_capacity = capacity; data_storage = cells })
      ] in
      if ltb a.node_count a.node_capacity then some a else copied

  unfoldable pub construct_back : A → Array A → Option (Array A)
  unfolding construct_cell
  construct_back x a = elim (construct_cell a.node_count x a.data_storage) [
    | none ↦ none
    | some cells ↦
        some (record a { node_count = (a.node_count + 1) % 2 ^ 64; data_storage = cells })
  ]

  -- What PushBack destroys at its end: the values in the old memory, if the array has new memory
  unfoldable pub destroy_old : Array A → Option (List (Option A))
  unfolding destroy_cells
  destroy_old a =
      let destroyed = destroy_cells a.node_count a.data_storage in
      if ltb a.node_count a.node_capacity then some a.data_storage else destroyed

  unfoldable pub push_back : A → Array A → Option (Array A)
  unfolding grown construct_back destroy_old
  push_back x a = elim (grown a) [
    | none ↦ none
    | some b ↦ elim (construct_back x b) [
      | none ↦ none
      | some c ↦ elim (destroy_old a) [ none ↦ none | some old ↦ some c ]
    ]
  ]

  -- PopBack; m_NodeCount - 1 wraps.
  unfoldable pub pop_back : Array A → Option (Array A)
  unfolding destroy_cell
  pop_back a =
      let last = (a.node_count + 2 ^ 64 - 1) % 2 ^ 64 in
      elim (destroy_cell last a.data_storage) [
        | none ↦ none
        | some cells ↦ some (record a { node_count = last; data_storage = cells })
      ]

  -- What is read at an index: a cell without a value, or outside the memory, is not there.
  unfoldable pub cell_at : ℕ → List (Option A) → Outcome A
  cell_at i [] = fault
  cell_at zero (none ∷ cs) = fault
  cell_at zero (some x ∷ cs) = ok x
  cell_at (suc i) (c ∷ cs) = cell_at i cs

  -- operator []; `thrown` is XTY_INVALID_ARRAY_INDEX.
  unfoldable pub get : Array A → ℕ → Outcome A
  unfolding cell_at
  get a pos = let read = cell_at pos a.data_storage in if leb a.node_count pos then thrown else read

  -- Front and Back, which test nothing; m_NodeCount - 1 wraps.
  unfoldable pub front : Array A → Outcome A
  unfolding cell_at
  front a = cell_at 0 a.data_storage

  unfoldable pub back : Array A → Outcome A
  unfolding cell_at
  back a = cell_at ((a.node_count + 2 ^ 64 - 1) % 2 ^ 64) a.data_storage

  -- The copy constructor
  unfoldable pub copy : Array A → Option (Array A)
  unfolding copy_cells
  copy a = elim (copy_cells a.node_count a.data_storage (raw a.node_capacity)) [
    | none ↦ none
    | some cells ↦ some (record a { data_storage = cells })
  ]

  -- operator =, from the second array to the first; `same` is what the comparison of the two
  -- gives, which is of their memories among others. The values of the first are not destroyed.
  unfoldable pub assign : (same : Bool) → Array A → Array A → Option (Array A)
  unfolding copy
  assign same a b = let copied = copy b in if same then some a else copied

  -- Clear
  unfoldable pub clear : Array A → Option (Array A)
  unfolding destroy_cells
  clear a = elim (destroy_cells a.node_count a.data_storage) [
    | none ↦ none
    | some cells ↦ some (record a { node_count = 0; data_storage = cells })
  ]
