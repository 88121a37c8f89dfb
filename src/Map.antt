-- ===== src/Map.antt =====
-- src/xty_map.h: xtyMap, a map from keys to values in a red-black tree of key-value nodes. What a
-- method returns by pointer or reference is the node's data; a store through it is `write`.
pub mod Write
pub mod Laws
mod Tests
use xty.Base.{ℕ, ◌≡◌, Bool, true, false, ◌&&◌, Option, none, some, if◌then◌else◌}
use xty.Comparable.{Comparable}
use xty.RbTree.{Color, Tree, leaf, node, RbTree, empty, search, insert}
use xty.RbTree.Delete.{delete}

-- xtyMapNode: m_Key and m_Value; First and Second are references to the two.
pub record MapNode {ℓ κ} (K : Type ℓ) (V : Type κ) : Type (ℓ ⊔ κ) where
  pub key : K
  pub value : V

-- Its operators `<`, `>` and `==` compare the keys.
instance abbrev pub node_comparable {ℓ κ} :
    {K : Type ℓ} {V : Type κ} ⦃o : Comparable K⦄ → Comparable (MapNode K V)
node_comparable ⦃o⦄ = record {
  lt = λ a b. o.lt a.key b.key;
  gt = λ a b. o.gt a.key b.key;
  eq = λ a b. o.eq a.key b.key;
  gt_lt = λ a b. o.gt_lt a.key b.key;
  lt_trans = λ a b c. o.lt_trans a.key b.key c.key;
  lt_ne = λ a b. o.lt_ne a.key b.key;
  trichotomy = λ a b. o.trichotomy a.key b.key;
  eq_lt = λ a b c. o.eq_lt a.key b.key c.key;
}

abbrev pub Map {ℓ κ} : (K : Type ℓ) (V : Type κ) → Type (ℓ ⊔ κ)
Map K V = RbTree (MapNode K V)

-- `initial` is Value().
module _ {ℓ κ} {K : Type ℓ} {V : Type κ} ⦃o : Comparable K⦄ (initial : V) where
  -- xtyMapNode(KeyPara), for a search
  abbrev pub key_node : K → MapNode K V
  key_node k = record { key = k; value = initial }

  -- Search(KeyPara)
  unfoldable pub search_key : Map K V → K → Option (MapNode K V)
  search_key m k = search m (key_node k)

  -- Insert(KeyPara)
  unfoldable pub insert_key : Map K V → K → MapNode K V × Map K V
  insert_key m k = insert m (key_node k)

  -- `pNode->m_Value = v`, for the node of the tree that has this key
  unfoldable pub write_from : Tree (MapNode K V) → K → V → Tree (MapNode K V)
  write_from leaf k v = leaf
  write_from (node c l n r) k v =
      let on_left = node c (write_from l k v) n r in
      let on_right = node c l n (write_from r k v) in
      if o.eq n.key k
      then node c l (record n { value = v }) r
      else (if o.gt n.key k then on_left else on_right)

  unfoldable pub write : Map K V → K → V → Map K V
  unfolding write_from
  write m k v = record m { root = write_from m.root k v }

  -- Insert(Node) and Insert(KeyPara, ValuePara): what is there gets the new value.
  unfoldable pub insert_node : Map K V → MapNode K V → Map K V
  unfolding insert_key write
  insert_node m n = write (insert_key m n.key).1 n.key n.value

  -- Search(Node) and Search(KeyPara, ValuePara); `same` is the operator `==` of the values.
  unfoldable pub search_node : (V → V → Bool) → Map K V → MapNode K V → Option (MapNode K V)
  unfolding search_key
  search_node same m n = elim (search_key m n.key) [
    | none ↦ none
    | some found ↦ if same n.value found.value then some found else none
  ]

  -- Delete(KeyPara)
  unfoldable pub delete_key : Map K V → K → Map K V
  delete_key m k = delete m (key_node k)

  -- Delete(Node) and Delete(KeyPara, ValuePara)
  unfoldable pub delete_node : (V → V → Bool) → Map K V → MapNode K V → Map K V
  unfolding search_node delete_key
  delete_node same m n = elim (search_node same m n) [ none ↦ m | some found ↦ delete_key m n.key ]

  -- operator []: the value at the key, which is inserted if it is not there.
  unfoldable pub index : Map K V → K → V × Map K V
  unfolding search_key insert_key
  index m k = elim (search_key m k) [
    | some found ↦ (found.value, m)
    | none ↦ let (new, m') = insert_key m k in (new.value, m')
  ]

  -- `m[k] = v`
  unfoldable pub assign : Map K V → K → V → Map K V
  unfolding index write
  assign m k v = write (index m k).1 k v
