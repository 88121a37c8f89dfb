-- ===== src/Array/Tests.antt =====
-- Runs of the array of src/xty_array.h, and the theorems at them.
use xty.Base.{ℕ, ◌≡◌, refl, none, some, [], ◌∷◌, ◌++◌, arith}
use xty.Array.{Array, new_array, push_back, pop_back, destroy_cell}
use xty.Array.Grow.{IsArray, push_back-IsArray}

abbrev four : Array ℕ
four = record {
  node_count = 4;
  node_capacity = 4;
  data_storage = some 1 ∷ some 2 ∷ some 3 ∷ some 4 ∷ [];
}

four-IsArray : IsArray four (1 ∷ 2 ∷ 3 ∷ 4 ∷ []) 0
four-IsArray = record { storage = refl; count = refl; capacity = refl; small = omega arith }

push_back-IsArray_example :
    (a' : Array ℕ) × (n' : ℕ) × (push_back 5 four ≡ some a')
    × IsArray a' ((1 ∷ 2 ∷ 3 ∷ 4 ∷ []) ++ (5 ∷ [])) n'
push_back-IsArray_example =
    push_back-IsArray four 5 (1 ∷ 2 ∷ 3 ∷ 4 ∷ []) 0 four-IsArray (omega arith) (omega arith)

-- PopBack on an empty array destroys what is not there.
run_empty : pop_back (new_array {A = ℕ}) ≡ none
unfolding pop_back destroy_cell
run_empty = refl
