-- ===== src/Epoll/Tests.antt =====
-- The theorems on src/xty_msg_server_epoll_job.cpp, at a server with one client, on a machine whose
-- size_t has four bytes.
use xty.Base.{ℕ, ◌+◌, ◌≡◌, refl, true, false, some, List, [], ◌∷◌, arith}
use xty.Comparable.Strings.{string_comparable, string_eq}
use xty.RbTree.{
  black, leaf, node, search, search_from, insert, insert_new, insert_fix_up, insert_loop, attach,
  find_parent,
}
use xty.Text.{uint_to_string}
use xty.RbTree.Insert.{IsValid}
use xty.RbTree.Iterator.{begin, walk, increment, increment_at, up_from_right, down_left}
use xty.Map.{Map, node_comparable, assign}
use xty.Msg.{Msg, reg, new_msg, serialized_len}
use xty.Msg.Stream.{ok}
use xty.Msg.Wire.{serialize}
use xty.Msg.Entities.{Entity, acquire, release}
use xty.MsgQueue.{put, produce}
use xty.Server.{Server}
use xty.Server.Handlers.{IsWritten}
use xty.Loop.{state_dull, enter_msg_loop}
use xty.Epoll.{Job, new_client, entries, find_fd, bytes, accept_client, client_event}
use xty.Epoll.Linked.{IsLinked, among}
use xty.Epoll.Steps.{Reachable, start, step, accepted, started, Reachable-IsLinked}
use xty.Epoll.Descriptors.{Running, Turn, idle, closing, close_fd, turn, shut}
use xty.Epoll.Descriptors.Kept.{IsOpen}
use xty.Epoll.Descriptors.Open.{Running-IsOpen}
use xty.Epoll.Arrival.{registration_arrives}

-- A free entity
abbrev entity : Entity
entity = record { is_occupied = false; handle = 300 }

abbrev no_job : Job
no_job = started (λ _. new_client 0) (λ _. new_msg (reg [] [] [])) (entity ∷ [])

-- Accepted from "1:2", on the descriptor 5, at the address 100
one_reached : Reachable (accept_client 5 100 (b'1' ∷ []) 2 no_job)
one_reached =
    step no_job (accept_client 5 100 (b'1' ∷ []) 2 no_job)
      (start (λ _. new_client 0) (λ _. new_msg (reg [] [] [])) (entity ∷ []))
      (accepted 5 100 (b'1' ∷ []) 2 no_job (λ e. ground arith) (unfold among in refl))

Reachable-IsLinked_example : IsLinked (accept_client 5 100 (b'1' ∷ []) 2 no_job)
Reachable-IsLinked_example =
    Reachable-IsLinked (accept_client 5 100 (b'1' ∷ []) 2 no_job) one_reached

-- The same table, written out
abbrev table : Map (List ℕ) ℕ
table = record {
  root = node black leaf (record { key = b'1' ∷ b':' ∷ b'2' ∷ []; value = 100 }) leaf;
  node_count = 1;
}

table-IsValid : IsValid table
table-IsValid = record { sorted = (tt, tt); red_black = (refl, (1, (tt, tt))); counted = refl }

abbrev one_job : Job
one_job = record no_job {
  server = record no_job.server { active_clients = table; clients = λ _. new_client 5 };
  live = 100 ∷ [];
  open_fds = 5 ∷ [];
}

found : find_fd one_job.server.clients 5 (entries table) ≡ some (b'1' ∷ b':' ∷ b'2' ∷ [])
unfolding find_fd walk begin down_left increment increment_at up_from_right
found = refl

registration_arrives_example :
    (sent : List ℕ) × (m : Msg) × (s' : Job) × (t : Server) × (serialize 4 4096
        (new_msg (reg (b'p' ∷ []) (b'1' ∷ []) (b'2' ∷ [])))
      ≡ ok (m, sent))
    × (client_event 4 8192 (λ a. a + 100) 5 (bytes sent) one_job ≡ some (ok s'))
    × (s'.recv_queue ≡ produce (put 400 one_job.recv_queue))
    × (enter_msg_loop ((400, s'.messages 400) ∷ []) s'.server ≡ ok (state_dull, [], t))
    × IsWritten (b'1' ∷ b':' ∷ b'2' ∷ []) (b'p' ∷ []) (b'1' ∷ []) (b'2' ∷ []) one_job.server t
    × (t.entities ≡ release 400 (record { is_occupied = true; handle = 400 } ∷ []))
unfolding serialized_len
registration_arrives_example =
    registration_arrives 4 4096 8192 5 (λ a. a + 100) (b'p' ∷ []) (b'1' ∷ []) (b'2' ∷ [])
      (b'1' ∷ b':' ∷ b'2' ∷ []) one_job (400, record { is_occupied = true; handle = 400 } ∷ [])
      (omega arith, omega arith) (omega arith, omega arith) table-IsValid found
      (unfold acquire in refl)

one_running : Running (accept_client 5 100 (b'1' ∷ []) 2 no_job) idle
one_running =
    turn no_job (accept_client 5 100 (b'1' ∷ []) 2 no_job) idle idle
      (Running.start (λ _. new_client 0) (λ _. new_msg (reg [] [] [])) (entity ∷ []))
      (Turn.accepted 5 100 (b'1' ∷ []) 2 no_job (unfold among in refl) (unfold among in refl))

one_found :
    find_fd
      (accept_client 5 100 (b'1' ∷ []) 2 no_job).server.clients
      5
      (entries (accept_client 5 100 (b'1' ∷ []) 2 no_job).server.active_clients)
    ≡ some (b'1' ∷ b':' ∷ b'2' ∷ [])
unfolding find_fd walk begin down_left increment increment_at up_from_right accept_client assign
    search search_from insert insert_new insert_fix_up insert_loop attach find_parent string_eq
    uint_to_string
one_found = refl

Running-IsOpen_example :
    IsOpen
      (close_fd 5 (accept_client 5 100 (b'1' ∷ []) 2 no_job))
      (closing 5 (b'1' ∷ b':' ∷ b'2' ∷ []))
Running-IsOpen_example =
    Running-IsOpen (close_fd 5 (accept_client 5 100 (b'1' ∷ []) 2 no_job))
      (closing 5 (b'1' ∷ b':' ∷ b'2' ∷ []))
      (turn (accept_client 5 100 (b'1' ∷ []) 2 no_job)
        (close_fd 5 (accept_client 5 100 (b'1' ∷ []) 2 no_job)) idle
        (closing 5 (b'1' ∷ b':' ∷ b'2' ∷ [])) one_running
        (shut 5 (b'1' ∷ b':' ∷ b'2' ∷ []) (accept_client 5 100 (b'1' ∷ []) 2 no_job) one_found))
