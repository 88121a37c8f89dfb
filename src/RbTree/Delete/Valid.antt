-- ===== src/RbTree/Delete/Valid.antt =====
-- src/xty_rbtree.h, Delete: it refines removal from a sorted list and keeps the tree valid.
use xty.Base.{
  ℕ, ◌+◌, ◌-◌, ◌%◌, ◌^◌, ◌≡◌, refl, ap, sym, ◌∙◌, inl, inr, true, Option, none, some, List, [], ◌∷◌,
  ◌++◌, append_assoc, append-nil, length, length-append, All, Bool-cases, if◌then◌else◌, arith,
  subst,
}
use xty.Comparable.{Comparable}
use xty.RbTree.{
  Color, Tree, leaf, node, Frame, in_left, in_right, Cursor, RbTree, search, search_from,
}
use xty.RbTree.Inorder.{to_list, before, after, around, around-fill}
use xty.RbTree.Balance.{IsBalanced, Surrounds, Admits, enter_left, enter_right}
use xty.RbTree.Sorted.{Differs, find, IsSorted-append, Differs-of_eq}
use xty.RbTree.Search.{search-eq-find, search_from-eq-find}
use xty.RbTree.Remove.{remove, remove-append, find-remove, IsSorted-remove, remove_of_find}
use xty.RbTree.Insert.{IsValid}
use xty.RbTree.Delete.{locate, delete_node, delete_found, delete}
use xty.RbTree.Delete.Order.{to_list-delete_node}
use xty.RbTree.Delete.TakeOut.{delete_node-IsRedBlack}

module _ {ℓ} {A : Type ℓ} ⦃o : Comparable A⦄ where
  -- What the search of Delete finds: a node of the tree, with what it needs for the removal.
  record Located (whole : List A) (x : A) (c : Cursor A) : Type ℓ where
    hue : Color
    left : Tree A
    data_here : A
    right : Tree A
    is_node : c ≡ record { focus = node hue left data_here right; path = c.path }
    matches : o.eq data_here x ≡ true
    height : ℕ
    balanced : IsBalanced height (node hue left data_here right)
    surrounded : Surrounds height c.path
    admitted : Admits (node hue left data_here right) c.path
    all_data : around (node hue left data_here right) c.path ≡ whole

  abbrev Search : List A → A → Option A → Option (Cursor A) → Type ℓ
  Search whole x found none = found ≡ none
  Search whole x found (some c) = Located whole x c

  locate_lem :
      (n : ℕ) (t : Tree A) (x : A) (fs : List (Frame A))
      → IsBalanced n t
      → Surrounds n fs
      → Admits t fs
      → Search (around t fs) x (search_from t x) (locate t x fs)
  unfolding locate search_from
  locate_lem n leaf x fs b s a = refl
  locate_lem n (node c l k r) x fs b s a = elim (Bool-cases (o.eq k x)) [
    | inl e ↦ rw e (record {
      hue = c;
      left = l;
      data_here = k;
      right = r;
      is_node = refl;
      matches = e;
      height = n;
      balanced = b;
      surrounded = s;
      admitted = a;
      all_data = refl;
    })
    | inr e ↦ elim (Bool-cases (o.gt k x)) [
      | inl g ↦
          let (m, b', s', a') = enter_left n c l k r fs b s a in
          rw (e, g)
            (subst (λ w. Search w x (search_from l x) (locate l x (in_left c k r ∷ fs)))
              (sym (around-fill l (in_left c k r) fs))
              (locate_lem m l x (in_left c k r ∷ fs) b' s' a'))
      | inr g ↦
          let (m, b', s', a') = enter_right n c l k r fs b s a in
          rw (e, g)
            (subst (λ w. Search w x (search_from r x) (locate r x (in_right c l k ∷ fs)))
              (sym (around-fill r (in_right c l k) fs))
              (locate_lem m r x (in_right c l k ∷ fs) b' s' a'))
    ]
  ]

  -- The node leaves the list, and all that a tree has to keep is kept.
  abbrev Deletes : RbTree A → A → RbTree A → Type ℓ
  Deletes t x t' = (to_list t'.root ≡ remove x (to_list t.root)) × IsValid t'

  module _ {t : RbTree A} {x : A} (v : IsValid t) {c : Cursor A}
      (found : Located (around t.root []) x c) where
    open found use {hue, left, data_here, right, matches, height, balanced, surrounded, admitted}

    abbrev earlier : List A
    earlier = before c.path ++ to_list left

    abbrev later : List A
    later = to_list right ++ after c.path

    split_at : to_list t.root ≡ earlier ++ (data_here ∷ later)
    split_at = sym (append-nil (to_list t.root)) ∙ sym found.all_data ∙ simp append_assoc

    abbrev without : Tree A
    without = delete_node hue left data_here right c.path

    without_list : to_list without ≡ remove x (to_list t.root)
    without_list =
        to_list-delete_node hue left data_here right c.path
        ∙ sym (append_assoc (before c.path) (to_list left) later)
        ∙ sym (remove-append x data_here earlier later apart matches)
        ∙ ap (remove x) (sym split_at)
      where
        apart : All (Differs x) earlier
        apart =
            Differs-of_eq x data_here earlier matches
              (IsSorted-append earlier data_here later (rw split_at at v.sorted)).1

    without_count : (t.node_count + 2 ^ 32 - 1) % 2 ^ 32 ≡ length (to_list without) % 2 ^ 32
    without_count = omega (
      arith,
      v.counted,
      ap length split_at,
      length-append earlier (data_here ∷ later),
      length-append earlier later,
      ap length (to_list-delete_node hue left data_here right c.path),
      ap length (append_assoc (before c.path) (to_list left) later),
    )

    delete_found_lem : Deletes t x (delete_found t (some c))
    unfolding delete_found
    delete_found_lem =
        subst (λ z. Deletes t x (delete_found t (some z))) (sym found.is_node)
          (
            without_list,
            record {
              sorted = rw without_list (IsSorted-remove x (to_list t.root) v.sorted);
              red_black =
                  delete_node-IsRedBlack height hue left data_here right c.path balanced surrounded
                    admitted;
              counted = without_count;
            },
          )

  deleted :
      (t : RbTree A) (x : A)
      → IsValid t
      → (found : Option A) (at : Option (Cursor A)) → found ≡ find x (to_list t.root)
      → Search (around t.root []) x found at
      → Deletes t x (delete_found t at)
  unfolding delete_found
  deleted t x v found none e h = (sym (remove_of_find x (to_list t.root) (sym e ∙ h)), v)
  deleted t x v found (some c) e h = delete_found_lem v h

  delete_lem : (t : RbTree A) (x : A) → IsValid t → Deletes t x (delete t x)
  unfolding delete
  delete_lem t x v =
      let (root_black, (n, b)) = v.red_black in
      deleted t x v (search_from t.root x) (locate t.root x [])
        (search_from-eq-find t.root x v.sorted) (locate_lem n t.root x [] b tt root_black)

  -- Delete keeps a valid tree valid: its data in strict order, the red-black properties, and in
  -- m_NodeCount the number of nodes, modulo 2 ^ 32.
  pub delete-IsValid : (t : RbTree A) (x : A) → IsValid t → IsValid (delete t x)
  delete-IsValid t x v = (delete_lem t x v).1

  -- On a valid tree Delete takes the element equal to the value out of the data in order, and
  -- nothing else; where there is none it changes nothing of the data.
  pub delete_refines :
      (t : RbTree A) (x : A) → IsValid t → to_list (delete t x).root ≡ remove x (to_list t.root)
  delete_refines t x v = (delete_lem t x v).0

  -- On a valid tree: after Delete, Search finds nothing equal to the deleted value, and for everything else what
  -- it found before.
  pub search-delete :
      (t : RbTree A) (x y : A)
      → IsValid t
      → search (delete t x) y ≡ (if o.eq x y then none else search t y)
  search-delete t x y v =
      search-eq-find (delete t x) y ((delete-IsValid t x v).sorted)
      ∙ ap (find y) (delete_refines t x v)
      ∙ find-remove x y (to_list t.root) v.sorted
      ∙ sym (rw (search-eq-find t y v.sorted) refl)
