-- ===== src/Session/Sent.antt =====
-- src/xty_session.cpp and src/xty_session_send_job.cpp: what a session sends.
use xty.Base.{ℕ, ◌≤◌, ◌≡◌, ◌≢◌, refl, ap, ◌∙◌, true, some, List, [], ◌∷◌, ◌++◌, ==_same}
use xty.Msg.{Body, reg, dereg, new_msg, clone, calculate_len, serialized_len}
use xty.Msg.Stream.{ok}
use xty.Msg.Wire.{buf_len}
use xty.Msg.Format.{wire}
use xty.Msg.Entities.{free}
use xty.Msg.Reuse.{AreBuffers, transmit, transmit_lem}
use xty.MsgQueue.{Shared, put, produce, consume}
use xty.Session.{Session, announce, register, deregister, at_message, send_msg, pop_msg, send_round}

-- The serializer is ready for the next message.
pub record CanSend (word : ℕ) (s : Session) : Type 0 where
  pub buffers : AreBuffers word s.serializers
  pub idle : free s.serializers ≢ 0

-- The bytes of a message with this body
abbrev pub wire_of : ℕ → Body → List ℕ
wire_of word b = wire word (calculate_len word (new_msg b))

announce_lem :
    (word : ℕ) (b : Body) (s : Session)
    → CanSend word s
    → serialized_len word b ≤ buf_len
    → announce word b s ≡ some (ok (true, record s { sent = s.sent ++ (wire_of word b ∷ []) }))
unfolding announce
announce_lem word b s h fits =
    rw (transmit_lem word (new_msg b) s.serializers h.buffers h.idle fits, announce) refl

-- Register and DeRegister, where a serializing entity is free and the name, the IP and the port fit
-- a buffer: they answer with XTY_OK, and have sent the bytes of one message with the session's name,
-- IP and port, and nothing else has changed, so that the entity can be used again.
pub register_lem :
    (word : ℕ) (s : Session)
    → CanSend word s
    → serialized_len word (reg s.process_name s.process_ip s.process_port) ≤ buf_len
    → (register word s
        ≡ some (
            ok (
              true,
              record s {
                sent =
                    s.sent ++ (wire_of word (reg s.process_name s.process_ip s.process_port) ∷ []);
              },
            )))
      × (deregister word s
          ≡ some (
              ok (
                true,
                record s {
                  sent =
                      s.sent
                      ++ (wire_of word (dereg s.process_name s.process_ip s.process_port) ∷ []);
                },
              )))
unfolding register deregister serialized_len
register_lem word s h fits = (
  announce_lem word (reg s.process_name s.process_ip s.process_port) s h fits,
  announce_lem word (dereg s.process_name s.process_ip s.process_port) s h fits,
)

-- PopMsg after PushMsg on an empty queue
abbrev pub IsIdle : Shared → Type 0
IsIdle q = (q.queue ≡ []) × (q.events ≡ 0)

pub pop_msg-put :
    (address : ℕ) (q : Shared)
    → IsIdle q
    → (q' : Shared) × (pop_msg (produce (put address q)) ≡ some (ok (address, q')))
      × IsIdle q'
      × (q'.received ≡ q.received ++ (address ∷ []))
unfolding pop_msg put produce consume
pop_msg-put address q (none_left, quiet) = (
  record (consume (produce (put address q))) {
    queue = [];
    received = q.received ++ (address ∷ []);
  },
  rw (none_left, quiet) refl,
  (refl, rw quiet refl),
  refl,
)

message_there :
    (address : ℕ) (b : Body) (s : Session)
    → (send_msg address (new_msg b) s).messages address ≡ new_msg b
unfolding send_msg at_message clone
message_there address b s = rw (==_same address) refl

-- SendMsg and then a round of the job that sends, where nothing waits to be sent, a serializing
-- entity is free and the message fits a buffer: exactly its bytes are sent, nothing waits then, and
-- the entities are as before.
pub send_round-send_msg :
    (word address : ℕ) (b : Body) (s : Session)
    → CanSend word s
    → IsIdle s.send_queue
    → serialized_len word b ≤ buf_len
    → (s' : Session) × (send_round word (send_msg address (new_msg b) s) ≡ some (ok s'))
      × (s'.sent ≡ s.sent ++ (wire_of word b ∷ []))
      × IsIdle s'.send_queue
      × (s'.serializers ≡ s.serializers)
unfolding send_round send_msg at_message clone
send_round-send_msg word address b s h quiet fits =
    let (q', popped, idle, _) = pop_msg-put address s.send_queue quiet in
    let s1 = send_msg address (new_msg b) s in
    let transmitted =
      ap (λ m. transmit word m s.serializers) (message_there address b s)
      ∙ transmit_lem word (new_msg b) s.serializers h.buffers h.idle fits in
    (
      record s1 {
        send_queue = q';
        messages = at_message address (calculate_len word (new_msg b)) s1.messages;
        sent = s.sent ++ (wire_of word b ∷ []);
      },
      rw (popped, send_round, transmitted) refl,
      refl,
      idle,
      refl,
    )
