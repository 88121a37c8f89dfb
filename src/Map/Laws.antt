-- ===== src/Map/Laws.antt =====
-- src/xty_map.h: each method as a change to a function from keys to values.
use xty.Base.{
  ◌≡◌, refl, ap, sym, ◌∙◌, Bool, true, false, ◌&&◌, Option, none, some, Bool-cases, Option-cases,
  ◌⊎◌, inl, inr, if◌then◌else◌,
}
use xty.Comparable.{Comparable}
use xty.RbTree.{search, insert}
use xty.RbTree.Insert.{IsValid, insert-IsValid, search-insert}
use xty.RbTree.Inorder.{to_list}
use xty.RbTree.Sorted.{find_congr}
use xty.RbTree.Search.{search-eq-find}
use xty.RbTree.Delete.Valid.{delete-IsValid, search-delete}
use xty.Map.{
  node_comparable, MapNode, Map, key_node, search_key, insert_key, write, insert_node, search_node,
  delete_key, delete_node, index, assign,
}
use xty.Map.Write.{with_value, write-IsValid, search-write}

abbrev pub or_else {ℓ} : {V : Type ℓ} → V → Option V → V
or_else v none = v
or_else v (some w) = w

module _ {ℓ κ} {K : Type ℓ} {V : Type κ} ⦃o : Comparable K⦄ (initial : V) where
  abbrev pub value_of : Option (MapNode K V) → Option V
  value_of none = none
  value_of (some n) = some n.value

  -- The map as a function
  unfoldable pub lookup : Map K V → K → Option V
  lookup m k = value_of (search m (key_node initial k))

  pub insert_key-IsValid : (m : Map K V) (k : K) → IsValid m → IsValid (insert_key initial m k).1
  unfolding insert_key
  insert_key-IsValid m k v = insert-IsValid m (key_node initial k) v

  pub insert_node-IsValid :
      (m : Map K V) (n : MapNode K V) → IsValid m → IsValid (insert_node initial m n)
  unfolding insert_node
  insert_node-IsValid m n v =
      write-IsValid initial (insert_key initial m n.key).1 n.key n.value
        (insert_key-IsValid m n.key v)

  value_of_with :
      (v : V) (a : Option (MapNode K V)) (n : MapNode K V)
      → a ≡ some n
      → value_of (with_value v a) ≡ some v
  value_of_with v a n e = rw e refl

  -- After a store at a key that is there, that key has the new value.
  lookup-write :
      (m : Map K V) (k j : K) (v : V) (n : MapNode K V)
      → IsValid m
      → (o.eq k j ≡ true → search m (key_node initial j) ≡ some n)
      → lookup (write initial m k v) j ≡ (if o.eq k j then some v else lookup m j)
  unfolding lookup
  lookup-write m k j v n valid there = elim (Bool-cases (o.eq k j)) [
    | inl e ↦
        rw (search-write initial m (key_node initial k) (key_node initial j) v valid, e)
          (value_of_with v (search m (key_node initial j)) n (there e))
    | inr e ↦ rw (search-write initial m (key_node initial k) (key_node initial j) v valid, e) refl
  ]

  inserted :
      (m : Map K V) (k j : K)
      → IsValid m
      → o.eq k j ≡ true
      → search (insert_key initial m k).1 (key_node initial j) ≡ some (insert_key initial m k).0
  unfolding insert_key
  inserted m k j v e = search-insert m (key_node initial k) (key_node initial j) v ∙ rw e refl

  not_inserted :
      (m : Map K V) (k j : K)
      → IsValid m
      → o.eq k j ≡ false
      → search (insert_key initial m k).1 (key_node initial j) ≡ search m (key_node initial j)
  unfolding insert_key
  not_inserted m k j v e = search-insert m (key_node initial k) (key_node initial j) v ∙ rw e refl

  -- Insert with a value, in a valid map: the key has that value afterwards, whether or not it was there before,
  -- and all other keys are as they were.
  pub lookup-insert_node :
      (m : Map K V) (n : MapNode K V) (j : K)
      → IsValid m
      → lookup (insert_node initial m n) j ≡ (if o.eq n.key j then some n.value else lookup m j)
  unfolding insert_node
  lookup-insert_node m n j v =
      lookup-write (insert_key initial m n.key).1 n.key j n.value (insert_key initial m n.key).0
        (insert_key-IsValid m n.key v) (inserted m n.key j v)
      ∙ others
    where
      others :
          (if o.eq n.key j then some n.value else lookup (insert_key initial m n.key).1 j)
          ≡ (if o.eq n.key j then some n.value else lookup m j)
      others =
          unfold lookup in
          elim (Bool-cases (o.eq n.key j)) [
            | inl e ↦ rw e refl
            | inr e ↦ rw (e, not_inserted m n.key j v e) refl
          ]

  pub delete_key-IsValid : (m : Map K V) (k : K) → IsValid m → IsValid (delete_key initial m k)
  unfolding delete_key
  delete_key-IsValid m k v = delete-IsValid m (key_node initial k) v

  -- Delete by key, in a valid map: the key is gone, and all other keys are as they were.
  pub lookup-delete_key :
      (m : Map K V) (k j : K)
      → IsValid m
      → lookup (delete_key initial m k) j ≡ (if o.eq k j then none else lookup m j)
  unfolding delete_key lookup
  lookup-delete_key m k j v =
      ap value_of (search-delete m (key_node initial k) (key_node initial j) v) ∙ push
    where
      push :
          value_of (if o.eq k j then none else search m (key_node initial j))
          ≡ (if o.eq k j then none else value_of (search m (key_node initial j)))
      push = elim (Bool-cases (o.eq k j)) [ inl e ↦ rw e refl | inr e ↦ rw e refl ]

  -- Whether both key and value are there.
  abbrev pub has_pair : (V → V → Bool) → Map K V → MapNode K V → Bool
  has_pair same m n = elim (lookup m n.key) [ none ↦ false | some v ↦ same n.value v ]

  delete_node-eq :
      (same : V → V → Bool) (m : Map K V) (n : MapNode K V)
      → delete_node initial same m n ≡ (if has_pair same m n then delete_key initial m n.key else m)
  unfolding delete_node search_node search_key lookup
  delete_node-eq same m n = choose (search m (key_node initial n.key))
    where
      choose :
          (a : Option (MapNode K V))
          → let kept : Option (MapNode K V) = elim a [
            | none ↦ none
            | some found ↦ if same n.value found.value then some found else none
          ] in
            let both : Bool = elim (value_of a) [ none ↦ false | some v ↦ same n.value v ] in
            let chosen : Map K V = elim kept [
              | none ↦ m
              | some found ↦ delete_key initial m n.key
            ] in
            chosen ≡ (if both then delete_key initial m n.key else m)
      choose none = refl
      choose (some f) = elim (Bool-cases (same n.value f.value)) [
        | inl e ↦ rw e refl
        | inr e ↦ rw e refl
      ]

  -- In a valid map, Delete by key and value takes the key away exactly where the map has it with that value.
  pub lookup-delete_node :
      (same : V → V → Bool) (m : Map K V) (n : MapNode K V) (j : K)
      → IsValid m
      → lookup (delete_node initial same m n) j
        ≡ (if has_pair same m n && o.eq n.key j then none else lookup m j)
  lookup-delete_node same m n j v = elim (Bool-cases (has_pair same m n)) [
    | inl e ↦ rw (delete_node-eq same m n, e) (lookup-delete_key m n.key j v)
    | inr e ↦ rw (delete_node-eq same m n, e) refl
  ]

  -- Delete by key and value keeps a valid map valid.
  pub delete_node-IsValid :
      (same : V → V → Bool) (m : Map K V) (n : MapNode K V)
      → IsValid m
      → IsValid (delete_node initial same m n)
  delete_node-IsValid same m n v = elim (Bool-cases (has_pair same m n)) [
    | inl e ↦ rw (delete_node-eq same m n, e) (delete_key-IsValid m n.key v)
    | inr e ↦ rw (delete_node-eq same m n, e) v
  ]

  -- The node that `index` answers with, found or inserted.
  pub index_lem :
      (m : Map K V) (k : K)
      → ((n : MapNode K V) × (search m (key_node initial k) ≡ some n)
          × (index initial m k ≡ (n.value, m)))
        ⊎ (search m (key_node initial k) ≡ none)
          × (index initial m k ≡ ((insert_key initial m k).0.value, (insert_key initial m k).1))
  unfolding index search_key
  index_lem m k = elim (Option-cases (search m (key_node initial k))) [
    | inr (n, e) ↦ inl (n, e, rw (e, index) refl)
    | inl e ↦ inr (e, rw (e, index) refl)
  ]

  pub index-IsValid : (m : Map K V) (k : K) → IsValid m → IsValid (index initial m k).1
  index-IsValid m k v = elim (index_lem m k) [
    | inl (n, e, same) ↦ rw same v
    | inr (e, new) ↦ rw new (insert_key-IsValid m k v)
  ]

  same_key :
      (m : Map K V) (k j : K)
      → IsValid m
      → o.eq k j ≡ true
      → search m (key_node initial k) ≡ search m (key_node initial j)
  same_key m k j v e =
      search-eq-find m (key_node initial k) v.sorted
      ∙ find_congr (key_node initial k) (key_node initial j) (to_list m.root) e
      ∙ sym (search-eq-find m (key_node initial j) v.sorted)

  fresh_value :
      (m : Map K V) (k : K)
      → search m (key_node initial k) ≡ none
      → (insert_key initial m k).0.value ≡ initial
  unfolding insert_key insert
  fresh_value m k e = rw (e, insert) refl

  -- In a valid map, operator [] answers with the value at the key, or with the initial value, which it then
  -- inserts: afterwards the key is there, and all other keys are as they were.
  pub lookup-index :
      (m : Map K V) (k j : K)
      → IsValid m
      → ((index initial m k).0 ≡ or_else initial (lookup m k))
        × (lookup (index initial m k).1 j
            ≡ (if o.eq k j then some (index initial m k).0 else lookup m j))
  unfolding lookup
  lookup-index m k j v = elim (index_lem m k) [
    | inl (n, e, same) ↦ (
      rw (same, e) refl,
      elim (Bool-cases (o.eq k j)) [
        | inl equal ↦ rw (same, equal, sym (same_key m k j v equal) ∙ e) refl
        | inr apart ↦ rw (same, apart) refl
      ],
    )
    | inr (e, new) ↦ (
      rw (new, e, fresh_value m k e) refl,
      elim (Bool-cases (o.eq k j)) [
        | inl equal ↦ rw (new, equal, inserted m k j v equal) refl
        | inr apart ↦ rw (new, apart, not_inserted m k j v apart) refl
      ],
    )
  ]

  -- A store by operator [] keeps a valid map valid.
  pub assign-IsValid : (m : Map K V) (k : K) (w : V) → IsValid m → IsValid (assign initial m k w)
  unfolding assign
  assign-IsValid m k w v = write-IsValid initial (index initial m k).1 k w (index-IsValid m k v)

  -- What `index` leaves in the tree at the key.
  indexed :
      (m : Map K V) (k j : K)
      → IsValid m
      → o.eq k j ≡ true
      → (n : MapNode K V) × (search (index initial m k).1 (key_node initial j) ≡ some n)
  indexed m k j v equal = elim (index_lem m k) [
    | inl (n, e, same) ↦ (n, rw (same, sym (same_key m k j v equal) ∙ e) refl)
    | inr (e, new) ↦ ((insert_key initial m k).0, rw (new, inserted m k j v equal) refl)
  ]

  -- `m[k] = w`, in a valid map: the key has the value `w` afterwards, and all other keys are as they were.
  pub lookup-assign :
      (m : Map K V) (k j : K) (w : V)
      → IsValid m
      → lookup (assign initial m k w) j ≡ (if o.eq k j then some w else lookup m j)
  unfolding assign
  lookup-assign m k j w v = elim (Bool-cases (o.eq k j)) [
    | inl e ↦
        let (n, there) = indexed m k j v e in
        lookup-write (index initial m k).1 k j w n (index-IsValid m k v) (λ _. there) ∙ rw e refl
    | inr e ↦
        lookup-write (index initial m k).1 k j w (key_node initial k) (index-IsValid m k v)
          (λ same. absurd (true≢false (sym same ∙ e)))
        ∙ rw e ((lookup-index m k j v).1 ∙ rw e refl)
  ]
    where
      true≢false : true ≡ false → ⊥
      true≢false e = cc
