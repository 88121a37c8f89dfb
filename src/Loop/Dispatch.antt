-- ===== src/Loop/Dispatch.antt =====
-- src/xty_msg_loop.cpp: which function the table has for a type, and how far the loop goes.
use xty.Base.{
  ℕ, ◌≡◌, Bool, true, false, refl, ap, sym, ◌∙◌, Option, none, some, List, [], ◌∷◌, ◌++◌,
  append-nil, All, ◌==◌, if◌then◌else◌, Bool-cases, inl, inr,
}
use xty.Comparable.{Comparable, nat_comparable}
use xty.RbTree.{empty, search, search_from}
use xty.RbTree.Insert.{IsValid, empty-IsValid}
use xty.Map.{MapNode, node_comparable, key_node, search_key, assign}
use xty.Map.Laws.{value_of, lookup, lookup-assign, assign-IsValid}
use xty.Msg.{Msg}
use xty.Msg.Stream.{Outcome, ok, thrown, fault, ◌>>=◌}
use xty.Server.{Server, handle_reg, handle_dereg, handle_data}
use xty.Loop.{
  LoopState, state_dull, state_quit, CallBackFun, dull_fun, quit_fun, reg_fun, dereg_fun, data_fun,
  CallBackTable, init_call_back_table, run_fun, loop_round, loop_from, enter_msg_loop,
}

-- The function for a type, where there is one
abbrev pub fun_of : ℕ → Option CallBackFun
fun_of t =
    if 4 == t
    then some data_fun
    else if 3 == t
    then some dereg_fun
    else if 2 == t
    then some reg_fun
    else if 1 == t
    then some quit_fun
    else if 0 == t
    then some dull_fun
    else none

-- NULL as a value, and no value
abbrev flatten : Option (Option CallBackFun) → Option CallBackFun
flatten none = none
flatten (some f) = f

-- One store of InitCallBackTable, in a valid table that has the functions of `earlier`
stored :
    (m : CallBackTable) (k : ℕ) (f : CallBackFun) (t : ℕ) (earlier : Option CallBackFun)
    → IsValid m
    → flatten (lookup none m t) ≡ earlier
    → IsValid (assign none m k (some f))
      × (flatten (lookup none (assign none m k (some f)) t) ≡ (if k == t then some f else earlier))
stored m k f t earlier v e =
    (assign-IsValid none m k (some f) v, ap flatten (lookup-assign none m k t (some f) v) ∙ choose)
  where
    choose :
        flatten (if k == t then some (some f) else lookup none m t)
        ≡ (if k == t then some f else earlier)
    choose = elim (Bool-cases (k == t)) [ inl h ↦ rw h refl | inr h ↦ rw h e ]

lookup-init_call_back_table :
    (t : ℕ) → flatten (lookup none (init_call_back_table empty) t) ≡ fun_of t
unfolding init_call_back_table
lookup-init_call_back_table t =
    let m : CallBackTable = empty in
    let m0 = assign none m 0 (some dull_fun) in
    let m1 = assign none m0 1 (some quit_fun) in
    let m2 = assign none m1 2 (some reg_fun) in
    let m3 = assign none m2 3 (some dereg_fun) in
    let (v0, e0) = stored m 0 dull_fun t none empty-IsValid (nothing t) in
    let (v1, e1) = stored m0 1 quit_fun t _ v0 e0 in
    let (v2, e2) = stored m1 2 reg_fun t _ v1 e1 in
    let (v3, e3) = stored m2 3 dereg_fun t _ v2 e2 in (stored m3 4 data_fun t _ v3 e3).1
  where
    nothing : (t : ℕ) → flatten (lookup none empty t) ≡ none
    nothing t = unfold lookup search search_from in refl

module _ ⦃o : Comparable (List ℕ)⦄ where
  -- What a message does to the server: by its type, and nothing for a type that has no function.
  abbrev pub dispatch : ℕ → Msg → Server → Outcome (LoopState × Server)
  dispatch address m s = elim (fun_of m.msg_type) [
    | none ↦ ok (state_dull, s)
    | some f ↦ run_fun f address m s
  ]

  pub loop_round-init :
      (address : ℕ) (m : Msg) (s : Server)
      → loop_round (init_call_back_table empty) address m s ≡ dispatch address m s
  unfolding loop_round search_key lookup
  loop_round-init address m s =
      choose (search (init_call_back_table empty) (key_node none m.msg_type))
      ∙ ap by (lookup-init_call_back_table m.msg_type)
    where
      by : Option CallBackFun → Outcome (LoopState × Server)
      by f = elim f [ none ↦ ok (state_dull, s) | some f ↦ run_fun f address m s ]

      choose :
          (a : Option (MapNode ℕ (Option CallBackFun)))
          → let called : Outcome (LoopState × Server) = elim a [
            | none ↦ ok (state_dull, s)
            | some found ↦ elim found.value [
              | none ↦ ok (state_dull, s)
              | some f ↦ run_fun f address m s
            ]
          ] in
            called ≡ by (flatten (value_of none a))
      choose none = refl
      choose (some found) = inner found.value
        where
          inner :
              (v : Option CallBackFun)
              → let called : Outcome (LoopState × Server) = elim v [
                | none ↦ ok (state_dull, s)
                | some f ↦ run_fun f address m s
              ] in
                called ≡ by v
          inner none = refl
          inner (some f) = refl

  -- What a message of a type other than XTY_QUIT_MSG does to the server
  abbrev pub handle : ℕ → Msg → Server → Outcome Server
  handle address m s =
      if 4 == m.msg_type
      then handle_data address m.body s
      else if 3 == m.msg_type
      then handle_dereg address m.body s
      else if 2 == m.msg_type
      then handle_reg address m.body s
      else ok s

  unfoldable pub handle_all : List (ℕ × Msg) → Server → Outcome Server
  handle_all [] s = ok s
  handle_all (m ∷ messages) s = handle m.0 m.1 s >>= handle_all messages

  dispatch-handle :
      (address : ℕ) (m : Msg) (s : Server)
      → (1 == m.msg_type) ≡ false
      → dispatch address m s ≡ (handle address m s >>= λ s'. ok (state_dull, s'))
  unfolding run_fun
  dispatch-handle address m s q =
      go (4 == m.msg_type) (3 == m.msg_type) (2 == m.msg_type) (1 == m.msg_type) (0 == m.msg_type) q
    where
      go :
          (b4 b3 b2 b1 b0 : Bool)
          → b1 ≡ false
          → let f : Option CallBackFun =
              if b4
              then some data_fun
              else if b3
              then some dereg_fun
              else if b2
              then some reg_fun
              else if b1
              then some quit_fun
              else if b0
              then some dull_fun
              else none in
            let called : Outcome (LoopState × Server) = elim f [
              | none ↦ ok (state_dull, s)
              | some f ↦ run_fun f address m s
            ] in
            let handled : Outcome Server =
              if b4
              then handle_data address m.body s
              else if b3
              then handle_dereg address m.body s
              else if b2
              then handle_reg address m.body s
              else ok s in
            called ≡ (handled >>= λ s'. ok (state_dull, s'))
      go true b3 b2 b1 b0 h = refl
      go false true b2 b1 b0 h = refl
      go false false true b1 b0 h = refl
      go false false false true b0 h = cc
      go false false false false true h = refl
      go false false false false false h = refl

  dispatch-quit :
      (address : ℕ) (m : Msg) (s : Server)
      → m.msg_type ≡ 1
      → dispatch address m s ≡ ok (state_quit, s)
  unfolding run_fun
  dispatch-quit address m s q = rw q refl

  -- The messages of the loop up to some that follow
  loop_from-append :
      (earlier later : List (ℕ × Msg)) (s : Server)
      → All (λ m. (1 == m.1.msg_type) ≡ false) earlier
      → loop_from (init_call_back_table empty) (earlier ++ later) s
        ≡ (handle_all earlier s >>= loop_from (init_call_back_table empty) later)
  unfolding loop_from handle_all
  loop_from-append [] later s h = refl
  loop_from-append (m ∷ earlier) later s (q, h) =
      ap continue (loop_round-init m.0 m.1 s ∙ dispatch-handle m.0 m.1 s q)
      ∙ go (handle m.0 m.1 s) (λ s'. loop_from-append earlier later s' h)
    where
      continue : Outcome (LoopState × Server) → Outcome (LoopState × List (ℕ × Msg) × Server)
      continue r = r >>= λ p. elim p.0 [
        | state_quit ↦ ok (state_quit, earlier ++ later, p.1)
        | state_dull ↦ loop_from (init_call_back_table empty) (earlier ++ later) p.1
      ]

      go :
          (r : Outcome Server)
          → ((s' : Server)
              → loop_from (init_call_back_table empty) (earlier ++ later) s'
                ≡ (handle_all earlier s' >>= loop_from (init_call_back_table empty) later))
          → continue (r >>= λ s'. ok (state_dull, s'))
            ≡ ((r >>= handle_all earlier) >>= loop_from (init_call_back_table empty) later)
      go (ok s') rest = rest s'
      go thrown rest = refl
      go fault rest = refl

  loop_from-quit :
      (q : ℕ × Msg) (later : List (ℕ × Msg)) (s : Server)
      → q.1.msg_type ≡ 1
      → loop_from (init_call_back_table empty) (q ∷ later) s ≡ ok (state_quit, later, s)
  unfolding loop_from
  loop_from-quit q later s h =
      ap
        (λ r. r >>= λ p. elim p.0 [
          | state_quit ↦ ok (state_quit, later, p.1)
          | state_dull ↦ loop_from (init_call_back_table empty) later p.1
        ])
        (loop_round-init q.0 q.1 s ∙ dispatch-quit q.0 q.1 s h)

  bind_congr :
      (r : Outcome Server) (f g : Server → Outcome (LoopState × List (ℕ × Msg) × Server))
      → ((s : Server) → f s ≡ g s)
      → (r >>= f) ≡ (r >>= g)
  bind_congr (ok s) f g h = h s
  bind_congr thrown f g h = refl
  bind_congr fault f g h = refl

  -- EnterMsgLoop of the server's loop job gives each message, in the order in which they come, to the
  -- handler for its type, and drops those of a type that has none: after messages none of which is
  -- for quitting, it waits for another one, in the state that the handlers have left; and if one for
  -- quitting follows, it ends there and leaves all later messages where they are. If a handler
  -- fails, so does the loop.
  pub enter_msg_loop_lem :
      (earlier later : List (ℕ × Msg)) (q : ℕ × Msg) (s : Server)
      → All (λ m. (1 == m.1.msg_type) ≡ false) earlier
      → q.1.msg_type ≡ 1
      → (enter_msg_loop earlier s ≡ (handle_all earlier s >>= λ s'. ok (state_dull, [], s')))
        × (enter_msg_loop (earlier ++ (q ∷ later)) s
            ≡ (handle_all earlier s >>= λ s'. ok (state_quit, later, s')))
  unfolding enter_msg_loop
  enter_msg_loop_lem earlier later q s h e = (
    ap (λ z. loop_from (init_call_back_table empty) z s) (sym (append-nil earlier))
        ∙ loop_from-append earlier [] s h
        ∙ bind_congr (handle_all earlier s) _ _ (λ s'. unfold loop_from in refl),
    loop_from-append earlier (q ∷ later) s h
        ∙ bind_congr (handle_all earlier s) _ _ (λ s'. loop_from-quit q later s' e),
  )
