-- ===== src/Session.antt =====
-- src/xty_session.cpp, src/xty_session_send_job.cpp and src/xty_session_recv_job.cpp: the client of
-- the message server. What recv answers is a parameter; a `send` or `recv` that fails, and the end of
-- the connection, are only logged.
pub mod Sent
pub mod Exchange
pub mod Passage
mod Tests
use xty.Base.{
  ℕ, ◌+◌, ◌%◌, ◌^◌, Bool, true, false, not, Option, none, some, List, [], ◌∷◌, ◌++◌, length, take,
  drop, ltb, ◌==◌, if◌then◌else◌,
}
use xty.Msg.{Body, dull, quit, reg, dereg, data_for, Msg, new_msg, clone}
use xty.Msg.Bytes.{decode}
use xty.Msg.Stream.{Outcome, ok, thrown, fault, ◌>>=◌}
use xty.Msg.Wire.{buf_len, deserialize}
use xty.Msg.Entities.{Entity, acquire, release}
use xty.Msg.Reuse.{Transmitted, transmit}
use xty.MsgQueue.{Shared, put, produce, consume}
use xty.Conf.{read_buf}

-- xtySession, with the messages in memory, by their addresses, and the bytes that it has given to
-- `send` so far, message by message
pub record Session : Type 0 where
  pub process_name : List ℕ
  pub process_ip : List ℕ
  pub process_port : List ℕ
  pub serializers : List Entity
  pub deserializers : List Entity
  pub send_queue : Shared
  pub recv_queue : Shared
  pub messages : ℕ → Msg
  pub sent : List (List ℕ)

-- What Register and DeRegister do with their message; the answer is true for XTY_OK.
unfoldable pub announce : (word : ℕ) → Body → Session → Option (Outcome (Bool × Session))
unfolding transmit
announce word b s = elim (transmit word (new_msg b) s.serializers) [
  | none ↦ none
  | some r ↦ some (
      r >>= λ t. ok (elim t.bytes [
        | none ↦ (false, record s { serializers = t.entities })
        | some bytes ↦ (true, record s { serializers = t.entities; sent = s.sent ++ (bytes ∷ []) })
      ]))
]

unfoldable pub register : (word : ℕ) → Session → Option (Outcome (Bool × Session))
unfolding announce
register word s = announce word (reg s.process_name s.process_ip s.process_port) s

unfoldable pub deregister : (word : ℕ) → Session → Option (Outcome (Bool × Session))
unfolding announce
deregister word s = announce word (dereg s.process_name s.process_ip s.process_port) s

-- A store of a message at an address
unfoldable pub at_message : ℕ → Msg → (ℕ → Msg) → ℕ → Msg
at_message p m messages q = if q == p then m else messages q

-- SendMsg, where the copy of the message is made at this address
unfoldable pub send_msg : (address : ℕ) → Msg → Session → Session
unfolding at_message
send_msg address m s = record s {
  messages = at_message address (clone m) s.messages;
  send_queue = produce (put address s.send_queue);
}

-- PopMsg, from the test of Consume to DeQueue, while no other thread takes from the queue: the
-- address of the message. `none`: it waits for an event.
unfoldable pub pop_msg : Shared → Option (Outcome (ℕ × Shared))
pop_msg s =
    let popped : Outcome (ℕ × Shared) = elim s.queue [
      | [] ↦ thrown
      | m ∷ rest ↦ ok (m, record (consume s) { queue = rest; received = s.received ++ (m ∷ []) })
    ] in
    if s.events == 0 then none else some popped

-- A round of the job that sends. Where nothing is sent, the message is not deleted.
unfoldable pub send_round : (word : ℕ) → Session → Option (Outcome Session)
unfolding pop_msg transmit at_message
send_round word s = elim (pop_msg s.send_queue) [
  | none ↦ none
  | some thrown ↦ some thrown
  | some fault ↦ some fault
  | some (ok (address, queue)) ↦ elim (transmit word (s.messages address) s.serializers) [
    | none ↦ none
    | some r ↦ some (
        r >>= λ t. ok (record s {
          send_queue = queue;
          serializers = t.entities;
          messages = at_message address t.message s.messages;
          sent = elim t.bytes [ none ↦ s.sent | some bytes ↦ s.sent ++ (bytes ∷ []) ];
        }))
  ]
]

-- What DeSerialize gives, at the address of the message. An exception is caught.
unfoldable pub keep_received : ℕ → Session → Outcome Msg → Outcome Session
unfolding at_message
keep_received address s (ok m) = ok (record s {
  recv_queue = produce (put address s.recv_queue);
  messages = at_message address m s.messages;
})
keep_received address s thrown = ok s
keep_received address s fault = fault

-- DeSerialize and PushMsg, for a message whose head says this length
unfoldable pub receive :
    (word buffer : ℕ) → (ℕ → ℕ) → (memory : List ℕ) (len : ℕ) → Session → Option (Outcome Session)
unfolding keep_received
receive word buffer prepare memory len s = elim (acquire prepare s.deserializers) [
  | none ↦ none
  | some (address, entities) ↦ some (
      keep_received address (record s { deserializers = entities })
        (deserialize word buffer memory len))
]

-- A round of the job that receives, on the bytes that recv gives: at most as many as the buffer has.
-- The length in the message's head is compared as an `int`.
unfoldable pub recv_round :
    (word buffer : ℕ) → (ℕ → ℕ) → List ℕ → Session → Option (Outcome Session)
unfolding receive read_buf
recv_round word buffer prepare bytes s =
    let memory = read_buf buf_len bytes in
    let len = decode (take word (drop 4 memory)) in
    if length bytes == 0
    then some (ok s)
    else if ltb (length bytes) (4 + word)
    then some (ok s)
    else if not (len % 2 ^ 32 == length bytes)
    then some (ok s)
    else receive word buffer prepare memory len s

-- RecvMsg. For a message of another class dynamic_cast gives NULL, which is read.
unfoldable pub copy_received : ℕ → Msg → Session → Outcome (Msg × Session)
copy_received address m s = elim m.body [
  | data_for _ _ _ ↦ ok (clone m, record s { deserializers = release address s.deserializers })
  | _ ↦ fault
]

unfoldable pub recv_msg : Session → Option (Outcome (Msg × Session))
unfolding pop_msg copy_received
recv_msg s = elim (pop_msg s.recv_queue) [
  | none ↦ none
  | some r ↦ some (r >>= λ p. copy_received p.0 (s.messages p.0) (record s { recv_queue = p.1 }))
]
