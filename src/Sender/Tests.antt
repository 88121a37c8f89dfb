-- ===== src/Sender/Tests.antt =====
-- The theorem on src/xty_msg_server_send_job.cpp, at a server with one client, on a machine whose
-- size_t has four bytes.
use xty.Base.{refl, none, inl, ◌≡◌, true, false, some, [], ◌∷◌, arith}
use xty.RbTree.{red, black, leaf, node}
use xty.RbTree.Inorder.{to_list}
use xty.RbTree.Iterator.{walk, begin, down_left, increment, increment_at, up_from_right}
use xty.Comparable.Strings.{string_eq}
use xty.Msg.Wire.{serialize}
use xty.Msg.Bytes.{encode}
use xty.Msg.{calculate_len, serialized_len}
use xty.Msg.Stream.{ok, fault, write_word, write_string}
use xty.Msg.Format.{wire}
use xty.Msg.Entities.{Entity}
use xty.Msg.Reuse.{AreBuffers}
use xty.Server.{ClientEntity, Server}
use xty.Sender.{Sending, send_msg_on, send_entries, send_entry, send_to}
use xty.Sender.Recipients.{recipients, length-recipients}
use xty.Sender.Delivered.{deliveries, released_if_any, data_msg, send_msg_on_lem}

-- "p" at "1"
abbrev client : ClientEntity
client = record {
  client_fd = 5;
  client_name = b'p' ∷ [];
  client_ip = b'1' ∷ [];
  client_port = b'2' ∷ [];
}

abbrev server : Server
server = record {
  active_clients = record {
    root = node black leaf (record { key = b'1' ∷ b':' ∷ b'2' ∷ []; value = 100 }) leaf;
    node_count = 1;
  };
  clients = λ _. client;
  entities = record { is_occupied = true; handle = 400 } ∷ [];
  send_queue = record { queue = []; events = 0; sent = []; received = [] };
}

abbrev buffer : Entity
buffer = record { is_occupied = false; handle = 300 }

buffers : AreBuffers 4 (buffer ∷ [])
buffers = record { distinct = (tt, tt); in_space = (omega arith, tt) }

send_msg_on_lem_example :
    let m = data_msg 4 0 (b'1' ∷ []) (b'p' ∷ []) (b'h' ∷ b'i' ∷ []) in
    let cs =
      recipients (λ _. client) (b'1' ∷ []) (b'p' ∷ []) (to_list server.active_clients.root) in
    (s' : Sending) × (send_msg_on 4 400 (λ _. none) m (buffer ∷ []) server ≡ some (ok s'))
    × (s'.sent ≡ deliveries (wire 4 (calculate_len 4 m)) cs)
    × (s'.serializers ≡ buffer ∷ [])
    × (s'.deserializers ≡ released_if_any 400 cs server.entities)
unfolding serialized_len
send_msg_on_lem_example =
    send_msg_on_lem 4 400 4 0 (λ _. none) (b'1' ∷ []) (b'p' ∷ []) (b'h' ∷ b'i' ∷ []) (buffer ∷ [])
      server buffers (λ e. ground arith) (omega arith)
      (inl (
        length-recipients (λ _. client) (b'1' ∷ []) (b'p' ∷ [])
          (to_list server.active_clients.root)))

-- Two clients with the same IP and name, and a message that another thread deletes when its entity has
-- been released for the first of them
abbrev two_clients : Server
two_clients = record server {
  active_clients = record {
    root =
        node black leaf (record { key = b'1' ∷ b':' ∷ b'2' ∷ []; value = 100 })
          (node red leaf (record { key = b'1' ∷ b':' ∷ b'3' ∷ []; value = 200 }) leaf);
    node_count = 2;
  };
}

used_after_release :
    send_msg_on 4 400
      (λ _. none)
      (data_msg 4 0 (b'1' ∷ []) (b'p' ∷ []) (b'h' ∷ b'i' ∷ []))
      (buffer ∷ [])
      two_clients
    ≡ some fault
unfolding send_msg_on send_entries send_entry send_to walk begin down_left increment increment_at
    up_from_right string_eq serialize write_word write_string encode serialized_len
used_after_release = refl
