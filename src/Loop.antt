-- ===== src/Loop.antt =====
-- src/xty_msg_loop.cpp, src/xty_msg_callback.cpp and src/xty_msg_server_loop_job.cpp: the loop that
-- gives each message to the function that m_CallBackTable has for its type. The context is the
-- server, as in xtyMsgServerLoopJob.
pub mod Dispatch
pub mod Safe
mod Tests
use xty.Base.{ℕ, Option, none, some, List, [], ◌∷◌}
use xty.Comparable.{Comparable, nat_comparable}
use xty.RbTree.{empty}
use xty.Map.{Map, node_comparable, search_key, assign}
use xty.Msg.{Msg}
use xty.Msg.Stream.{Outcome, ok, ◌>>=◌}
use xty.Server.{Server, handle_reg, handle_dereg, handle_data}

-- xtyMsgLoopState
pub data LoopState : Type 0 where
  state_dull state_quit : LoopState

-- The functions that the table points to
pub data CallBackFun : Type 0 where
  dull_fun quit_fun reg_fun dereg_fun data_fun : CallBackFun

-- m_CallBackTable; `none` is NULL, the initial value.
abbrev pub CallBackTable : Type 0
CallBackTable = Map ℕ (Option CallBackFun)

-- InitCallBackTable, with the values of xtyMsgType as keys
unfoldable pub init_call_back_table : CallBackTable → CallBackTable
init_call_back_table t =
    let t0 = assign none t 0 (some dull_fun) in
    let t1 = assign none t0 1 (some quit_fun) in
    let t2 = assign none t1 2 (some reg_fun) in
    let t3 = assign none t2 3 (some dereg_fun) in assign none t3 4 (some data_fun)

module _ ⦃o : Comparable (List ℕ)⦄ where
  -- A call of one of them, with a message and its address
  unfoldable pub run_fun : CallBackFun → ℕ → Msg → Server → Outcome (LoopState × Server)
  run_fun dull_fun address m s = ok (state_dull, s)
  run_fun quit_fun address m s = ok (state_quit, s)
  run_fun reg_fun address m s = handle_reg address m.body s >>= λ s'. ok (state_dull, s')
  run_fun dereg_fun address m s = handle_dereg address m.body s >>= λ s'. ok (state_dull, s')
  run_fun data_fun address m s = handle_data address m.body s >>= λ s'. ok (state_dull, s')

  -- The body of the loop of EnterMsgLoop: the search, and the call of what it finds
  unfoldable pub loop_round : CallBackTable → ℕ → Msg → Server → Outcome (LoopState × Server)
  unfolding run_fun
  loop_round t address m s = elim (search_key none t m.msg_type) [
    | none ↦ ok (state_dull, s)
    | some found ↦ elim found.value [ none ↦ ok (state_dull, s) | some f ↦ run_fun f address m s ]
  ]

  -- The loop, on the messages that GetMsg gives: how it stands, and the messages that are left.
  -- With `state_dull` it waits for another one.
  unfoldable pub loop_from :
      CallBackTable → List (ℕ × Msg) → Server → Outcome (LoopState × List (ℕ × Msg) × Server)
  unfolding loop_round
  loop_from t [] s = ok (state_dull, [], s)
  loop_from t (m ∷ messages) s = loop_round t m.0 m.1 s >>= λ p. elim p.0 [
    | state_quit ↦ ok (state_quit, messages, p.1)
    | state_dull ↦ loop_from t messages p.1
  ]

  -- EnterMsgLoop, of a new xtyMsgLoop
  unfoldable pub enter_msg_loop :
      List (ℕ × Msg) → Server → Outcome (LoopState × List (ℕ × Msg) × Server)
  unfolding init_call_back_table loop_from
  enter_msg_loop messages s = loop_from (init_call_back_table empty) messages s
