-- ===== src/Epoll.antt =====
-- src/xty_msg_server_epoll_job.cpp: what the server does at a connection, at its end, and at bytes
-- from a client. What the system answers is a parameter: the new descriptor and the peer's address
-- of accept, and what read gives; so is the address of a new object. An error of epoll_wait, accept
-- or read ends the program and is left out.
pub mod Linked
pub mod Steps
pub mod Arrival
pub mod Descriptors
mod Tests
use xty.Base.{
  ℕ, ◌+◌, Bool, true, false, not, ◌&&◌, Option, none, some, List, [], ◌∷◌, ◌++◌, length, leb, ◌==◌,
  if◌then◌else◌,
}
use xty.Comparable.{Comparable}
use xty.RbTree.Inorder.{to_list}
use xty.RbTree.Iterator.{begin, walk}
use xty.Map.{Map, MapNode, node_comparable, index, assign, delete_key}
use xty.Msg.{Msg}
use xty.Msg.Stream.{Outcome, ok, thrown, fault}
use xty.Msg.Wire.{buf_len, deserialize}
use xty.Msg.Entities.{acquire}
use xty.MsgQueue.{Shared, put, produce}
use xty.Text.{uint16_places, uint_to_string}
use xty.Conf.{read_buf}
use xty.Server.{ClientEntity, null, Server, user_ip_port, at_client}

-- The server, with m_pRecvMsgQueue, the messages that m_pDeSerializer made, by their addresses,
-- the client entities that are in memory, and the descriptors of clients that are open.
pub record Job : Type 0 where
  pub server : Server
  pub recv_queue : Shared
  pub messages : ℕ → Msg
  pub live : List ℕ
  pub open_fds : List ℕ

-- XTY_EPOLL_MAX_EVENTS
abbrev pub max_events : ℕ
max_events = 1024

-- xtyClientEntity(ClientFd)
abbrev pub new_client : ℕ → ClientEntity
new_client fd = record { client_fd = fd; client_name = []; client_ip = []; client_port = [] }

-- `delete` of an object, and `close` of a descriptor
unfoldable pub without : ℕ → List ℕ → List ℕ
without p [] = []
without p (q ∷ qs) = let rest = without p qs in if q == p then rest else q ∷ rest

-- A loop over the table, from Begin to End: the nodes that it sees
abbrev pub entries : Map (List ℕ) ℕ → List (MapNode (List ℕ) ℕ)
entries m = walk (length (to_list m.root)) (begin m)

-- The loop that searches a descriptor: the key of the first node whose entity has it
unfoldable pub find_fd : (ℕ → ClientEntity) → ℕ → List (MapNode (List ℕ) ℕ) → Option (List ℕ)
find_fd clients fd [] = none
find_fd clients fd (n ∷ ns) =
    let later = find_fd clients fd ns in
    if not (n.value == null) && ((clients n.value).client_fd == fd) then some n.key else later

-- What `read` gives: EWOULDBLOCK, no bytes, or some
pub data Input : Type 0 where
  would_block end_of_file : Input
  bytes : List ℕ → Input

-- What DeSerialize gives, at the address of the message: it is put in m_pRecvMsgQueue. An exception
-- is caught.
unfoldable pub keep_msg : ℕ → Job → Outcome Msg → Outcome Job
keep_msg address s (ok m) = ok (record s {
  recv_queue = produce (put address s.recv_queue);
  messages = λ p. if p == address then m else s.messages p;
})
keep_msg address s thrown = ok s
keep_msg address s fault = fault

-- The bytes of a message, in m_pRecvBuffer at `buffer`; `prepare` gives the address of the message
-- that an entity makes. `none`: DeSerialize waits for an entity.
unfoldable pub receive_msg : (word buffer : ℕ) → (ℕ → ℕ) → List ℕ → Job → Option (Outcome Job)
unfolding keep_msg read_buf
receive_msg word buffer prepare received s = elim (acquire prepare s.server.entities) [
  | none ↦ none
  | some (address, entities) ↦
      let held = record s { server = record s.server { entities = entities } } in
      let made = deserialize word buffer (read_buf buf_len received) (length received) in
      some (keep_msg address held made)
]

module _ ⦃o : Comparable (List ℕ)⦄ where
  -- A new connection. Of too many, it is closed again.
  unfoldable pub accept_client : (fd entity : ℕ) (ip : List ℕ) (port : ℕ) → Job → Job
  unfolding at_client
  accept_client fd entity ip port s =
      let table = s.server.active_clients in
      let key = user_ip_port ip (uint_to_string uint16_places port) in
      if leb max_events table.node_count then s else record s {
        server = record s.server {
          active_clients = assign null table key entity;
          clients = at_client entity (λ _. new_client fd) s.server.clients;
        };
        live = entity ∷ s.live;
        open_fds = fd ∷ s.open_fds;
      }

  -- The end of a connection, at the key that was found for it
  unfoldable pub close_client : (fd : ℕ) (key : List ℕ) → Job → Job
  unfolding without
  close_client fd key s =
      let found = index null s.server.active_clients key in
      let cleared = assign null found.1 key null in
      record s {
        server = record s.server { active_clients = delete_key null cleared key };
        live = without found.0 s.live;
        open_fds = without fd s.open_fds;
      }

  -- An event on a client's descriptor, which can be read
  unfoldable pub client_event : (word buffer : ℕ) → (ℕ → ℕ) → ℕ → Input → Job → Option (Outcome Job)
  unfolding find_fd close_client receive_msg
  client_event word buffer prepare fd input s =
      elim (find_fd s.server.clients fd (entries s.server.active_clients)) [
        | none ↦ some (ok s)
        | some key ↦ elim input [
          | would_block ↦ some (ok s)
          | end_of_file ↦ some (ok (close_client fd key s))
          | bytes received ↦ receive_msg word buffer prepare received s
        ]
      ]
