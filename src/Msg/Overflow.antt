-- ===== src/Msg/Overflow.antt =====
-- src/xty_msg.cpp: a message that is too long for the buffer.
use xty.Base.{ℕ, ◌+◌, ◌≤◌, ◌<◌, ◌^◌, ◌≡◌, refl, List, [], ◌++◌, length, inl, inr, arith}
use xty.Msg.{Body, dull, quit, reg, dereg, data_for, Msg, head_len, serialized_len, calculate_len}
use xty.Msg.Bytes.{encode}
use xty.Msg.Stream.{thrown, Writer, write_word-cases, write_string-cases}
use xty.Msg.Wire.{buf_len, write_three, write_body, serialize_at, serialize}

module _ (word : ℕ) where
  module _ (buf_end : ℕ) where
    abbrev three_len : List ℕ → List ℕ → List ℕ → ℕ
    three_len a b c = word + length a + word + length b + word + length c

    write_three-thrown :
        (a b c : List ℕ) (s : Writer)
        → buf_end < s.iterator + three_len a b c
        → s.iterator + three_len a b c < 256 ^ word
        → write_three word buf_end a b c s ≡ thrown
    unfolding write_three
    write_three-thrown a b c s long h =
        let s' : Writer = record {
          iterator = s.iterator + word + length a;
          written = (s.written ++ encode word (length a)) ++ a;
        } in
        let s'' : Writer = record {
          iterator = s'.iterator + word + length b;
          written = (s'.written ++ encode word (length b)) ++ b;
        } in
        elim (write_string-cases word buf_end a s (omega arith)) [
          | inr (_, e) ↦ rw e refl
          | inl (_, e) ↦ elim (write_string-cases word buf_end b s' (omega arith)) [
            | inr (_, e') ↦ rw e (rw e' refl)
            | inl (_, e') ↦ elim (write_string-cases word buf_end c s'' (omega arith)) [
              | inr (_, e'') ↦ rw e (rw e' (rw e'' refl))
              | inl (p, _) ↦ absurd (omega arith)
            ]
          ]
        ]

    -- With the header inside the buffer and the end of the message outside it.
    write_body-thrown :
        (b : Body) (start : ℕ) (s : Writer)
        → s.iterator ≡ start + head_len word
        → s.iterator ≤ buf_end
        → buf_end < start + serialized_len word b
        → start + serialized_len word b < 256 ^ word
        → write_body word buf_end b s ≡ thrown
    unfolding write_body serialized_len
    write_body-thrown dull start s i fits long h = absurd (omega arith)
    write_body-thrown quit start s i fits long h = absurd (omega arith)
    write_body-thrown (reg x y z) start s i fits long h =
        write_three-thrown x y z s (omega arith) (omega arith)
    write_body-thrown (dereg x y z) start s i fits long h =
        write_three-thrown x y z s (omega arith) (omega arith)
    write_body-thrown (data_for x y z) start s i fits long h =
        write_three-thrown x y z s (omega arith) (omega arith)

  head_le : (b : Body) → head_len word ≤ serialized_len word b
  unfolding serialized_len
  head_le dull = omega arith
  head_le quit = omega arith
  head_le (reg x y z) = omega arith
  head_le (dereg x y z) = omega arith
  head_le (data_for x y z) = omega arith

  -- Serializing a message that is longer than the buffer throws, if the sum of the buffer's address
  -- and the length of the message does not wrap.
  pub serialize-thrown :
      (address : ℕ) (m : Msg)
      → buf_len < serialized_len word m.body
      → address + serialized_len word m.body < 256 ^ word
      → serialize word address m ≡ thrown
  unfolding serialize serialize_at
  serialize-thrown address m long h =
      let m' = calculate_len word m in
      let e = address + buf_len in
      let p = head_le m.body in
      let s0 : Writer = record { iterator = address; written = [] } in
      let s1 : Writer = record { iterator = address + 4; written = encode 4 m'.msg_type } in
      let s2 : Writer = record {
        iterator = address + 4 + word;
        written = encode 4 m'.msg_type ++ encode word m'.msg_len;
      } in
      elim (write_word-cases word e 4 m'.msg_type s0 (omega (arith, p))) [
        | inr (_, t) ↦ rw t refl
        | inl (_, t) ↦ elim (write_word-cases word e word m'.msg_len s1 (omega (arith, p))) [
          | inr (_, n) ↦ rw t (rw n refl)
          | inl (fits, n) ↦ rw t (
              rw n (
                rw (write_body-thrown e m.body address s2 (omega arith) fits (omega arith) h) refl))
        ]
      ]
