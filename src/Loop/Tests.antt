-- ===== src/Loop/Tests.antt =====
-- The theorems on the message loop of src/xty_msg_loop.cpp, at a registration, a message for
-- quitting and one after it.
use xty.Base.{ℕ, ◌≡◌, refl, true, List, [], ◌∷◌, ◌++◌, arith, length}
use xty.Comparable.Strings.{string_comparable}
use xty.RbTree.{empty}
use xty.RbTree.Insert.{IsValid, empty-IsValid}
use xty.Map.{node_comparable}
use xty.Msg.{dull, quit, reg, Msg, new_msg, calculate_len, serialized_len}
use xty.Msg.Stream.{ok, ◌>>=◌}
use xty.Msg.RoundTrip.{round_trip}
use xty.Server.{Server}
use xty.Loop.{LoopState, state_dull, state_quit, enter_msg_loop}
use xty.Loop.Dispatch.{handle_all, enter_msg_loop_lem}
use xty.Loop.Safe.{IsDeSerialized, enter_msg_loop-IsValid}

abbrev new_server : Server
new_server = record {
  active_clients = empty;
  clients = λ _. record { client_fd = 5; client_name = []; client_ip = []; client_port = [] };
  entities = record { is_occupied = true; handle = 300 } ∷ [];
  send_queue = record { queue = []; events = 0; sent = []; received = [] };
}

abbrev registration : Msg
registration = new_msg (reg (112 ∷ []) (49 ∷ []) (50 ∷ []))

enter_msg_loop_lem_example :
    (enter_msg_loop ((300, registration) ∷ []) new_server
      ≡ (handle_all ((300, registration) ∷ []) new_server >>= λ s'. ok (state_dull, [], s')))
    × (enter_msg_loop
          (((300, registration) ∷ []) ++ ((301, new_msg quit) ∷ (302, new_msg dull) ∷ []))
          new_server
        ≡ (handle_all ((300, registration) ∷ []) new_server >>= λ s'.
            ok (state_quit, (302, new_msg dull) ∷ [], s')))
enter_msg_loop_lem_example =
    enter_msg_loop_lem ((300, registration) ∷ []) ((302, new_msg dull) ∷ []) (301, new_msg quit)
      new_server (refl, tt) refl

registration-IsDeSerialized : IsDeSerialized 4 (calculate_len 4 registration)
unfolding serialized_len
registration-IsDeSerialized =
    let (bytes, _, _, made) =
      round_trip 4 4096 8192 registration [] refl (omega arith, omega arith)
        (omega arith, omega arith) in
    (8192, bytes ++ [], length bytes, made)

enter_msg_loop-IsValid_example :
    (state : LoopState) × (left : List (ℕ × Msg)) × (s' : Server) × (enter_msg_loop
        ((300, calculate_len 4 registration) ∷ [])
        new_server
      ≡ ok (state, left, s'))
    × IsValid s'.active_clients
enter_msg_loop-IsValid_example =
    enter_msg_loop-IsValid 4 ((300, calculate_len 4 registration) ∷ []) new_server
      (registration-IsDeSerialized, tt) empty-IsValid
