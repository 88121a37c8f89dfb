-- ===== src/Session/Tests.antt =====
-- The theorems on src/xty_session.cpp and its jobs, at one session and a server with one client, on a
-- machine whose size_t has four bytes.
use xty.Base.{none, inl, ℕ, ◌+◌, ◌≡◌, refl, true, false, some, List, [], ◌∷◌, ◌++◌, arith}
use xty.Comparable.Strings.{string_comparable}
use xty.RbTree.{black, leaf, node}
use xty.RbTree.Inorder.{to_list}
use xty.RbTree.Iterator.{begin, walk, increment, increment_at, up_from_right, down_left}
use xty.Msg.{Body, reg, data_for, new_msg, calculate_len, serialized_len}
use xty.Conf.{read_buf}
use xty.Msg.Bytes.{decode}
use xty.Msg.Wire.{create_msg, deserialize, deserialize_at, read_body, read_three}
use xty.Msg.Stream.{ok, fault, read_string, read_word, read_chars}
use xty.Msg.Entities.{Entity, acquire, release}
use xty.Msg.Reuse.{AreBuffers}
use xty.MsgQueue.{Shared, put, produce}
use xty.Server.{ClientEntity, Server}
use xty.Loop.{state_dull, enter_msg_loop}
use xty.Epoll.{Job, entries, find_fd, bytes, client_event}
use xty.Sender.{Sending, send_msg_on}
use xty.Sender.Recipients.{recipients, length-recipients}
use xty.Sender.Delivered.{deliveries}
use xty.Session.{
  Session, keep_received, receive, send_msg, send_round, recv_round, recv_msg, pop_msg,
}
use xty.Session.Sent.{CanSend, wire_of, IsIdle, send_round-send_msg}
use xty.Session.Exchange.{recv_msg-recv_round}
use xty.Session.Passage.{data_passes}

abbrev no_msgs : Shared
no_msgs = record { queue = []; events = 0; sent = []; received = [] }

abbrev buffer : Entity
buffer = record { is_occupied = false; handle = 300 }

buffers : AreBuffers 4 (buffer ∷ [])
buffers = record { distinct = (tt, tt); in_space = (omega arith, tt) }

-- "p" at "1:2"
abbrev session : Session
session = record {
  process_name = b'p' ∷ [];
  process_ip = b'1' ∷ [];
  process_port = b'2' ∷ [];
  serializers = buffer ∷ [];
  deserializers = buffer ∷ [];
  send_queue = no_msgs;
  recv_queue = no_msgs;
  messages = λ _. new_msg (reg [] [] []);
  sent = [];
}

session-CanSend : CanSend 4 session
session-CanSend = record { buffers = buffers; idle = λ e. ground arith }

-- "hi" to "p" at "1"
abbrev greeting : Body
greeting = data_for (b'1' ∷ []) (b'p' ∷ []) (b'h' ∷ b'i' ∷ [])

send_round-send_msg_example :
    (s' : Session) × (send_round 4 (send_msg 700 (new_msg greeting) session) ≡ some (ok s'))
    × (s'.sent ≡ [] ++ (wire_of 4 greeting ∷ []))
    × IsIdle s'.send_queue
    × (s'.serializers ≡ buffer ∷ [])
unfolding serialized_len
send_round-send_msg_example =
    send_round-send_msg 4 700 greeting session session-CanSend (refl, refl) (omega arith)

abbrev taken : ℕ × List Entity
taken = (400, record { is_occupied = true; handle = 400 } ∷ [])

recv_msg-recv_round_example :
    (s1 : Session) × (s2 : Session) × (recv_round 4 8192 (λ a. a + 100) (wire_of 4 greeting) session
      ≡ some (ok s1))
    × (recv_msg s1 ≡ some (ok (calculate_len 4 (new_msg greeting), s2)))
    × (s2.deserializers ≡ release 400 (record { is_occupied = true; handle = 400 } ∷ []))
    × IsIdle s2.recv_queue
unfolding serialized_len acquire
recv_msg-recv_round_example =
    recv_msg-recv_round 4 8192 (λ a. a + 100) (b'1' ∷ []) (b'p' ∷ []) (b'h' ∷ b'i' ∷ []) session
      taken (omega arith, omega arith) refl (refl, refl)

abbrev client : ClientEntity
client = record {
  client_fd = 5;
  client_name = b'p' ∷ [];
  client_ip = b'1' ∷ [];
  client_port = b'2' ∷ [];
}

abbrev job : Job
job = record {
  server = record {
    active_clients = record {
      root = node black leaf (record { key = b'1' ∷ b':' ∷ b'2' ∷ []; value = 100 }) leaf;
      node_count = 1;
    };
    clients = λ _. client;
    entities = buffer ∷ [];
    send_queue = no_msgs;
  };
  recv_queue = no_msgs;
  messages = λ _. new_msg (reg [] [] []);
  live = 100 ∷ [];
  open_fds = 5 ∷ [];
}

found :
    find_fd job.server.clients 5 (entries job.server.active_clients)
    ≡ some (b'1' ∷ b':' ∷ b'2' ∷ [])
unfolding find_fd walk begin down_left increment increment_at up_from_right
found = refl

data_passes_example :
    let cs =
      recipients (λ _. client) (b'1' ∷ []) (b'p' ∷ []) (to_list job.server.active_clients.root) in
    (s' : Job) × (t : Server) × (out : Sending) × (q : Shared) × (q' : Shared) × (client_event 4
        8192
        (λ a. a + 100)
        5
        (bytes (wire_of 4 greeting))
        job
      ≡ some (ok s'))
    × (s'.recv_queue ≡ produce (put 400 no_msgs))
    × (pop_msg s'.recv_queue ≡ some (ok (400, q)))
    × (enter_msg_loop ((400, s'.messages 400) ∷ []) s'.server ≡ ok (state_dull, [], t))
    × (t.send_queue ≡ produce (put 400 no_msgs))
    × (pop_msg t.send_queue ≡ some (ok (400, q')))
    × (send_msg_on 4 400 (λ _. none) (s'.messages 400) (buffer ∷ []) t ≡ some (ok out))
    × (out.sent ≡ deliveries (wire_of 4 greeting) cs)
unfolding serialized_len acquire
data_passes_example =
    data_passes 4 8192 5 (λ a. a + 100) (λ _. none) (b'1' ∷ []) (b'p' ∷ []) (b'h' ∷ b'i' ∷ [])
      (b'1' ∷ b':' ∷ b'2' ∷ []) job taken (buffer ∷ []) (omega arith, omega arith) found refl
      buffers (λ e. ground arith) (refl, refl) (refl, refl)
      (inl (
        length-recipients (λ _. client) (b'1' ∷ []) (b'p' ∷ [])
          (to_list job.server.active_clients.root)))

-- With a size_t of eight bytes: a head of a registration whose length is 2 ^ 32 + 20, and then the
-- length 5000 of a name. There are 20 bytes, and so the comparison as an `int` lets them pass; the end
-- of the buffer that DeSerialize gets is far behind it, the name's length is not refused, and the
-- read leaves the buffer.
abbrev crafted : List ℕ
crafted = 2 ∷ 0 ∷ 0 ∷ 0 ∷ 20 ∷ 0 ∷ 0 ∷ 0 ∷ 1 ∷ 0 ∷ 0 ∷ 0 ∷ 136 ∷ 19 ∷ 0 ∷ 0 ∷ 0 ∷ 0 ∷ 0 ∷ 0 ∷ []

int_length : recv_round 8 8192 (λ a. a + 100) crafted session ≡ some fault
unfolding recv_round receive keep_received acquire deserialize create_msg deserialize_at read_body
    read_three read_string read_word read_chars decode read_buf
int_length = refl
