-- ===== src/Session/Exchange.antt =====
-- src/xty_session_recv_job.cpp and src/xty_session.cpp: a data message on its way from one session
-- over the server to another.
use xty.Base.{
  ℕ, ◌+◌, ◌%◌, ◌^◌, ◌≤◌, ◌<◌, ◌≡◌, refl, ap, sym, ◌∙◌, true, false, some, List, ◌++◌, append_assoc,
  ◌==◌, ==_same, ==_iff, ltb, length, take, drop, take_exact, drop_exact, arith,
}
use native.Mathlib.Nat.{mod-eq_of_lt}
use xty.Msg.{
  Body, dull, quit, reg, dereg, data_for, Msg, new_msg, clone, calculate_len, serialized_len,
}
use xty.Msg.Bytes.{encode, decode, length-encode, decode-encode}
use xty.Msg.Stream.{ok}
use xty.Msg.Wire.{buf_len, deserialize}
use xty.Msg.Format.{wire, body_bytes, length-wire}
use xty.Msg.RoundTrip.{deserialize-wire}
use xty.Msg.Entities.{Entity, acquire, release}
use xty.MsgQueue.{put, produce}
use xty.Conf.{read_buf}
use xty.Epoll.Arrival.{read_buf-le}
use xty.Session.{Session, at_message, keep_received, receive, recv_round, copy_received, recv_msg}
use xty.Session.Sent.{wire_of, IsIdle, pop_msg-put}

-- The length that the receiver reads in a message's head
head_length :
    (word : ℕ) (m : Msg) (rest : List ℕ)
    → m.msg_len < 256 ^ word
    → decode (take word (drop 4 (wire word m ++ rest))) ≡ m.msg_len
head_length word m rest h =
    let tail = encode word m.msg_len ++ (body_bytes word m.body ++ rest) in
    let split : wire word m ++ rest ≡ encode 4 m.msg_type ++ tail =
      append_assoc (encode 4 m.msg_type) (encode word m.msg_len ++ body_bytes word m.body) rest
      ∙ ap (λ z. encode 4 m.msg_type ++ z)
          (append_assoc (encode word m.msg_len) (body_bytes word m.body) rest) in
    ap (λ z. decode (take word (drop 4 z))) split
    ∙ ap (λ z. decode (take word z))
        (drop_exact 4 (encode 4 m.msg_type) tail (length-encode 4 m.msg_type))
    ∙ ap decode (
        take_exact word (encode word m.msg_len) (body_bytes word m.body ++ rest)
          (length-encode word m.msg_len))
    ∙ decode-encode word m.msg_len h

-- What the buffer of a receiver needs for a message with this body
abbrev pub FitsAt : (word buffer : ℕ) → Body → Type 0
FitsAt word buffer b = (serialized_len word b ≤ buf_len) × (buffer + buf_len < 256 ^ word)

serialized_len_ge : (word : ℕ) (b : Body) → 4 + word ≤ serialized_len word b
unfolding serialized_len
serialized_len_ge word dull = omega arith
serialized_len_ge word quit = omega arith
serialized_len_ge word (reg a b c) = omega arith
serialized_len_ge word (dereg a b c) = omega arith
serialized_len_ge word (data_for a b c) = omega arith

recv_round-wire :
    (word buffer : ℕ) (prepare : ℕ → ℕ) (b : Body) (s : Session) (taken : ℕ × List Entity)
    → FitsAt word buffer b
    → acquire prepare s.deserializers ≡ some taken
    → recv_round word buffer prepare (wire_of word b) s
      ≡ some (
          ok (record s {
            deserializers = taken.1;
            recv_queue = produce (put taken.0 s.recv_queue);
            messages = at_message taken.0 (calculate_len word (new_msg b)) s.messages;
          }))
unfolding recv_round receive keep_received
recv_round-wire word buffer prepare b s taken (fits, space) got =
    let m = calculate_len word (new_msg b) in
    let n = length (wire_of word b) in
    let size : n ≡ serialized_len word b = length-wire word m in
    let long = serialized_len_ge word b in
    let (zeros, same) = read_buf-le buf_len (wire_of word b) (omega (arith, size, fits)) in
    let head : decode (take word (drop 4 (read_buf buf_len (wire_of word b)))) ≡ n =
      ap (λ z. decode (take word (drop 4 z))) same
      ∙ head_length word m zeros (omega (arith, fits, space))
      ∙ sym size in
    let some_bytes : (n == 0) ≡ false = ground (arith, size, long) in
    let whole_head : ltb n (4 + word) ≡ false = ground (arith, size, long) in
    let right_length : (n % 2 ^ 32 == n) ≡ true =
      (==_iff (n % 2 ^ 32) n).1 (mod-eq_of_lt {n = n} {m = 2 ^ 32} (omega (arith, size, fits))) in
    let memory = read_buf buf_len (wire_of word b) in
    let made : deserialize word buffer memory (decode (take word (drop 4 memory))) ≡ ok m =
      ap (deserialize word buffer memory) head
      ∙ ap (λ z. deserialize word buffer z n) same
      ∙ deserialize-wire word buffer m zeros refl (omega (arith, fits, space))
          (omega (arith, fits, space)) in
    rw (head, some_bytes, whole_head, right_length, got, receive, made) refl

-- A data message that is serialized, and whose bytes a session receives while nothing else waits in
-- its queue, is what RecvMsg then returns, its length included; the entity that was taken for it is
-- released, and nothing waits in the queue. The message fits the receiver's buffer, and an entity of
-- its m_pDeSerializer is free.
pub recv_msg-recv_round :
    (word buffer : ℕ) (prepare : ℕ → ℕ) (to_ip to_name content : List ℕ) (s : Session)
    (taken : ℕ × List Entity)
    → let b = data_for to_ip to_name content in
      FitsAt word buffer b
      → acquire prepare s.deserializers ≡ some taken
      → IsIdle s.recv_queue
      → (s1 : Session) × (s2 : Session) × (recv_round word buffer prepare (wire_of word b) s
          ≡ some (ok s1))
        × (recv_msg s1 ≡ some (ok (calculate_len word (new_msg b), s2)))
        × (s2.deserializers ≡ release taken.0 taken.1)
        × IsIdle s2.recv_queue
unfolding recv_msg at_message copy_received clone
recv_msg-recv_round word buffer prepare to_ip to_name content s taken fits got quiet =
    let b = data_for to_ip to_name content in
    let m = calculate_len word (new_msg b) in
    let s1 = record s {
      deserializers = taken.1;
      recv_queue = produce (put taken.0 s.recv_queue);
      messages = at_message taken.0 m s.messages;
    } in
    let (q, popped, idle, _) = pop_msg-put taken.0 s.recv_queue quiet in
    let there : at_message taken.0 m s.messages taken.0 ≡ m = rw (==_same taken.0) refl in
    (
      s1,
      record s1 { recv_queue = q; deserializers = release taken.0 taken.1 },
      recv_round-wire word buffer prepare b s taken fits got,
      rw (popped, recv_msg, there) refl,
      refl,
      idle,
    )
