-- ===== src/Sender.antt =====
-- src/xty_msg_server_send_job.cpp: the job that passes a data message on to the clients that it is
-- for. A `send` that fails is only logged.
pub mod Recipients
pub mod Delivered
mod Tests
use xty.Base.{
  ℕ, Bool, true, false, ◌&&◌, Option, none, some, List, [], ◌∷◌, ◌++◌, ◌==◌, if◌then◌else◌,
}
use xty.Comparable.Strings.{string_eq}
use xty.Map.{MapNode}
use xty.Msg.{Body, data_for, Msg}
use xty.Msg.Stream.{Outcome, ok, thrown, fault, ◌>>=◌}
use xty.Msg.Entities.{Entity, release}
use xty.Msg.Reuse.{Transmitted, transmit}
use xty.Server.{ClientEntity, null, Server}
use xty.Epoll.{entries}

-- While the table is gone through: the message at pSendMsg, or that it has been deleted; the entities of m_pSerializer and m_pDeSerializer;
-- and what has been sent, with the descriptors.
pub record Sending : Type 0 where
  pub message : Option Msg
  pub serializers : List Entity
  pub deserializers : List Entity
  pub sent : List (ℕ × List ℕ)

-- What is done for a client that the message is for: it is sent, and then both entities are
-- released, that of the message at its address. From then on another thread may have the entity:
-- `reused` is what then stands at pSendMsg, where `none` is that the message has been deleted.
unfoldable pub send_to :
    (word address : ℕ)
    → (reused : Msg → Option Msg) → ClientEntity
    → Sending
    → Option (Outcome Sending)
unfolding transmit
send_to word address reused client s = elim s.message [
  | none ↦ some fault
  | some m ↦ elim (transmit word m s.serializers) [
    | none ↦ none
    | some r ↦ some (
        r >>= λ t. ok (elim t.bytes [
          | none ↦ record s { message = some t.message; serializers = t.entities }
          | some bytes ↦ record {
            message = reused t.message;
            serializers = t.entities;
            deserializers = release address s.deserializers;
            sent = s.sent ++ ((client.client_fd, bytes) ∷ []);
          }
        ]))
  ]
]

-- `ClientIP == ToProcessIP && ClientName == ToProcessName`
abbrev pub is_for : (to_ip to_name : List ℕ) → ClientEntity → Bool
is_for to_ip to_name client =
    string_eq client.client_ip to_ip && string_eq client.client_name to_name

module _ (word address : ℕ) (reused : Msg → Option Msg) (clients : ℕ → ClientEntity)
    (to_ip to_name : List ℕ) where
  -- The body of the loop over the table
  unfoldable pub send_entry : MapNode (List ℕ) ℕ → Sending → Option (Outcome Sending)
  unfolding send_to
  send_entry n s =
      if n.value == null
      then some (ok s)
      else if is_for to_ip to_name (clients n.value)
      then send_to word address reused (clients n.value) s
      else some (ok s)

  unfoldable pub send_entries : List (MapNode (List ℕ) ℕ) → Sending → Option (Outcome Sending)
  unfolding send_entry
  send_entries [] s = some (ok s)
  send_entries (n ∷ ns) s = elim (send_entry n s) [
    | none ↦ none
    | some r ↦ elim r [ ok s' ↦ send_entries ns s' | thrown ↦ some thrown | fault ↦ some fault ]
  ]

-- A message from m_pSendMsgQueue, with its address and the entities of m_pSerializer. For another
-- class dynamic_cast gives NULL, which is read.
unfoldable pub send_msg_on :
    (word address : ℕ)
    → (reused : Msg → Option Msg) → Msg
    → List Entity
    → Server
    → Option (Outcome Sending)
unfolding send_entries
send_msg_on word address reused m serializers s = send_body m.body
  where
    start : Sending
    start = record {
      message = some m;
      serializers = serializers;
      deserializers = s.entities;
      sent = [];
    }

    send_body : Body → Option (Outcome Sending)
    send_body (data_for to_ip to_name content) =
        send_entries word address reused s.clients to_ip to_name (entries s.active_clients) start
    send_body b = some fault
