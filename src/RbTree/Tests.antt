-- ===== src/RbTree/Tests.antt =====
-- Runs of the tree of src/xty_rbtree.h on numbers, and the theorems at them.
use xty.Base.{◌≢◌, zero, ℕ, ◌≡◌, refl, none, some, List, [], ◌∷◌, arith, if◌then◌else◌, ◌==◌}
use xty.Comparable.{nat_comparable}
use xty.RbTree.{
  red, black, leaf, node, Frame, in_right, Cursor, RbTree, empty, search, search_from, insert,
  insert_new, insert_fix_up, insert_loop, insert_round, find_parent, attach,
}
use xty.RbTree.Balance.{IsRepairable}
use xty.RbTree.Insert.{IsValid, insert-IsValid, search-insert}
use xty.RbTree.Iterator.{walk, begin}
use xty.RbTree.Iterator.Forward.{walk_all}
use xty.RbTree.Height.{depth}
use xty.RbTree.Visit.{
  empty_tree, count_of, layer, node_line, non_recursive_visit, visit_root, visit_layers,
  visit_layer, push_child, count_up,
}
use xty.RbTree.Visit.Layers.{layers_of}
use xty.RbTree.Visit.Complete.{non_recursive_visit_lem}
use xty.RbTree.Delete.{delete}
use xty.RbTree.Delete.Valid.{delete-IsValid, search-delete}

abbrev three_items : RbTree ℕ
three_items = record {
  root = node black (node red leaf 2 leaf) 5 (node red leaf 8 leaf);
  node_count = 3;
}

three_items-IsValid : IsValid three_items
three_items-IsValid = record {
  sorted = ((refl, (refl, tt)), ((refl, tt), (tt, tt)));
  red_black = (refl, (1, ((refl, refl, tt, tt), (refl, refl, tt, tt))));
  counted = refl;
}

run_insert : (insert (insert (insert empty 5).1 8).1 2).1 ≡ three_items
unfolding insert search search_from insert_new insert_fix_up insert_loop insert_round attach
    find_parent
run_insert = refl

-- The new node, red under the red 8, at the start of InsertFixUp.
abbrev new_nine : Cursor ℕ
new_nine = record {
  focus = node red leaf 9 leaf;
  path = in_right red leaf 8 ∷ in_right black (node red leaf 2 leaf) 5 ∷ [];
}

new_nine-IsRepairable : IsRepairable new_nine
new_nine-IsRepairable =
    (0, (refl, refl, tt, tt), (refl, refl, tt, ((refl, refl, tt, tt), tt)), refl)

search-insert_example :
    search (insert three_items 7).1 7
    ≡ (if 7 == 7 then some (insert three_items 7).0 else search three_items 7)
search-insert_example = search-insert three_items 7 7 three_items-IsValid

search-delete_example :
    search (delete three_items 5) 8 ≡ (if 5 == 8 then none else search three_items 8)
search-delete_example = search-delete three_items 5 8 three_items-IsValid

insert-IsValid_example : IsValid (insert three_items 9).1
insert-IsValid_example = insert-IsValid three_items 9 three_items-IsValid

delete-IsValid_example : IsValid (delete three_items 5)
delete-IsValid_example = delete-IsValid three_items 5 three_items-IsValid

abbrev below_five : List (Frame ℕ)
below_five = in_right black (node red leaf 2 leaf) 5 ∷ []

walk_all_example : walk 3 (begin three_items) ≡ 2 ∷ 5 ∷ 8 ∷ []
walk_all_example = walk_all three_items 3 (omega arith)

run_visit :
    non_recursive_visit 2 three_items
    ≡ some (
        count_of 3 ∷ layer 0 ∷ node_line 5 black ∷ layer 1 ∷ node_line 2 red ∷ node_line 8 red ∷ [])
unfolding non_recursive_visit visit_root visit_layers visit_layer push_child count_up
run_visit = refl

non_recursive_visit_lem_example :
    (three_items.node_count ≡ zero → non_recursive_visit 2 three_items ≡ some (empty_tree ∷ []))
    × (three_items.node_count ≢ zero
        → non_recursive_visit 2 three_items
          ≡ some (count_of 3 ∷ layers_of (depth three_items.root) 0 three_items.root))
unfolding depth
non_recursive_visit_lem_example = non_recursive_visit_lem 2 three_items (omega arith) (omega arith)
