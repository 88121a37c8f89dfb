-- ===== src/Array/Access.antt =====
-- src/xty_array.h: reading, copying and clearing an array that is a list.
use xty.Base.{
  ℕ, ◌+◌, ◌-◌, ◌%◌, ◌^◌, ◌≤◌, ◌≡◌, refl, ap, ap₂, sym, ◌∙◌, false, true, Option, List, [], ◌∷◌,
  ◌++◌, length, length-append, leb, arith,
}
use xty.Msg.Stream.{ok, thrown}
use xty.Array.{Array, raw, cell_at, get, front, back}
use xty.Array.Grow.{full, IsArray}

module _ {ℓ} {A : Type ℓ} where
  cell_at-full :
      (xs : List A) (x : A) (ys : List A) (rest : List (Option A))
      → cell_at (length xs) (full (xs ++ (x ∷ ys)) ++ rest) ≡ ok x
  unfolding cell_at
  cell_at-full [] x ys rest = refl
  cell_at-full (y ∷ xs) x ys rest = cell_at-full xs x ys rest

  at_count :
      (a : Array A) (xs : List A) (x : A) (ys : List A) (n i : ℕ)
      → IsArray a (xs ++ (x ∷ ys)) n
      → i ≡ length xs
      → cell_at i a.data_storage ≡ ok x
  at_count a xs x ys n i h e = ap₂ cell_at e h.storage ∙ cell_at-full xs x ys (raw n)

  -- In an array that is a list, operator [] gives the value at each index that is below the number of
  -- values, and throws at every other one; Front gives the first value and Back the last one.
  pub get_lem :
      (a : Array A) (x : A) (xs ys : List A) (n i : ℕ)
      → IsArray a (xs ++ (x ∷ ys)) n
      → (get a (length xs) ≡ ok x)
        × (length (xs ++ (x ∷ ys)) ≤ i → get a i ≡ thrown)
        × (xs ≡ [] → front a ≡ ok x)
        × (ys ≡ [] → back a ≡ ok x)
  unfolding get front back
  get_lem a x xs ys n i h =
      let l = length-append xs (x ∷ ys) in
      let inside : leb a.node_count (length xs) ≡ false = ground (arith, h.count, l) in
      (
        rw (inside, get) (at_count a xs x ys n (length xs) h refl),
        λ outside.
            let past : leb a.node_count i ≡ true = ground (arith, h.count, outside) in
            rw (past, get) refl,
        λ first. at_count a xs x ys n 0 h (ap length (sym first)),
        λ last.
            at_count a xs x ys n ((a.node_count + 2 ^ 64 - 1) % 2 ^ 64) h
              (omega (arith, h.count, h.small, l, ap length last)),
      )
