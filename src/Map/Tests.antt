-- ===== src/Map/Tests.antt =====
-- Runs of the map of src/xty_map.h from numbers to numbers, and the theorems at them.
use xty.Base.{ℕ, ◌≡◌, none, some, if◌then◌else◌, ◌==◌, ◌&&◌}
use xty.Comparable.{nat_comparable}
use xty.RbTree.{empty}
use xty.RbTree.Insert.{IsValid, empty-IsValid}
use xty.Map.{Map, MapNode, node_comparable, insert_node, delete_node, assign}
use xty.Map.Laws.{lookup, has_pair, insert_node-IsValid, lookup-delete_node, lookup-assign}

-- The empty map, and the entry 4 ↦ 40.
abbrev no_entry : Map ℕ ℕ
no_entry = empty

abbrev entry : MapNode ℕ ℕ
entry = record { key = 4; value = 40 }

no_entry-IsValid : IsValid no_entry
no_entry-IsValid = empty-IsValid

lookup-delete_node_example :
    lookup 0 (delete_node 0 ◌==◌ (insert_node 0 no_entry entry) entry) 4 ≡ (
      if has_pair 0 ◌==◌ (insert_node 0 no_entry entry) entry && (4 == 4)
      then none
      else lookup 0 (insert_node 0 no_entry entry) 4)
lookup-delete_node_example =
    lookup-delete_node 0 ◌==◌ (insert_node 0 no_entry entry) entry 4
      (insert_node-IsValid 0 no_entry entry no_entry-IsValid)

lookup-assign_example :
    lookup 0 (assign 0 no_entry 6 60) 6 ≡ (if 6 == 6 then some 60 else lookup 0 no_entry 6)
lookup-assign_example = lookup-assign 0 no_entry 6 6 60 no_entry-IsValid
