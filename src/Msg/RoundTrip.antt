-- ===== src/Msg/RoundTrip.antt =====
-- src/xty_msg.cpp and src/xty_msg_serialization.cpp: what is written, and that it is read back.
use xty.Base.{
  ℕ, ◌+◌, ◌≤◌, ◌<◌, ◌^◌, ◌≡◌, refl, ap, ap₂, sym, ◌∙◌, List, [], ◌++◌, length, append_assoc,
  append-nil, arith, take, take_exact,
}
use xty.Msg.{
  Body, dull, quit, reg, dereg, data_for, Msg, type_of, new_msg, serialized_len, calculate_len,
}
use xty.Msg.Bytes.{encode, decode, length-encode, decode-encode}
use xty.Msg.Stream.{ok, Writer, Fits, write_word-eq, write_string-eq, read_word-eq, read_string-eq}
use xty.Msg.Wire.{
  buf_len, write_three, write_body, serialize_at, read_three, read_body, deserialize_at, create_msg,
  serialize, deserialize,
}
use xty.Msg.Format.{
  three_bytes, body_bytes, wire, length-three_bytes, length-body_bytes, length-wire,
}

module _ (word : ℕ) where
  module _ (buf_end : ℕ) where
    write_three-eq :
        (a b c : List ℕ) (s : Writer)
        → Fits word buf_end s.iterator (length (three_bytes word a b c))
        → write_three word buf_end a b c s
          ≡ ok (record {
            iterator = s.iterator + length (three_bytes word a b c);
            written = s.written ++ three_bytes word a b c;
          })
    unfolding write_three
    write_three-eq a b c s h =
        let n = length-three_bytes word a b c in
        let s' : Writer = record {
          iterator = s.iterator + word + length a;
          written = (s.written ++ encode word (length a)) ++ a;
        } in
        let s'' : Writer = record {
          iterator = s'.iterator + word + length b;
          written = (s'.written ++ encode word (length b)) ++ b;
        } in
        rw (write_string-eq word buf_end a s (omega (arith, n))) (
          rw (write_string-eq word buf_end b s' (omega (arith, n))) (
            write_string-eq word buf_end c s'' (omega (arith, n))
            ∙ ap₂ (λ i w. ok (record { iterator = i; written = w })) (omega (arith, n))
                (simp append_assoc)))

    write_body-eq :
        (b : Body) (s : Writer)
        → Fits word buf_end s.iterator (length (body_bytes word b))
        → write_body word buf_end b s
          ≡ ok (record {
            iterator = s.iterator + length (body_bytes word b);
            written = s.written ++ body_bytes word b;
          })
    unfolding write_body
    write_body-eq dull s h =
        ap₂ (λ i w. ok (record { iterator = i; written = w })) (omega arith)
          (sym (append-nil s.written))
    write_body-eq quit s h =
        ap₂ (λ i w. ok (record { iterator = i; written = w })) (omega arith)
          (sym (append-nil s.written))
    write_body-eq (reg x y z) s h = write_three-eq x y z s h
    write_body-eq (dereg x y z) s h = write_three-eq x y z s h
    write_body-eq (data_for x y z) s h = write_three-eq x y z s h

    read_three-eq :
        (make : List ℕ → List ℕ → List ℕ → Body) (a b c : List ℕ) (iterator : ℕ) (rest : List ℕ)
        → Fits word buf_end iterator (length (three_bytes word a b c))
        → read_three word buf_end make
            (record { iterator = iterator; ahead = three_bytes word a b c ++ rest })
          ≡ ok (
            make a b c,
            record { iterator = iterator + length (three_bytes word a b c); ahead = rest },
          )
    unfolding read_three
    read_three-eq make a b c iterator rest h =
        let n = length-three_bytes word a b c in
        let ea = encode word (length a) in
        let eb = encode word (length b) in
        let ec = encode word (length c) in
        let split : three_bytes word a b c ++ rest
            ≡ ea ++ (a ++ (eb ++ (b ++ (ec ++ (c ++ rest))))) =
          simp append_assoc in
        rw split (
          rw
            (read_string-eq word buf_end a iterator (eb ++ (b ++ (ec ++ (c ++ rest))))
              (omega (arith, n)))
            (rw
              (read_string-eq word buf_end b (iterator + word + length a) (ec ++ (c ++ rest))
                (omega (arith, n)))
              (rw
                (read_string-eq word buf_end c (iterator + word + length a + word + length b) rest
                  (omega (arith, n)))
                (ap (λ i. ok (make a b c, record { iterator = i; ahead = rest }))
                  (omega (arith, n))))))

  -- What a reader of this class makes of these bytes.
  module _ (buf_end : ℕ) where
    read_body-eq :
        (b like : Body) (iterator : ℕ) (rest : List ℕ)
        → type_of like ≡ type_of b
        → Fits word buf_end iterator (length (body_bytes word b))
        → read_body word buf_end like
            (record { iterator = iterator; ahead = body_bytes word b ++ rest })
          ≡ ok (b, record { iterator = iterator + length (body_bytes word b); ahead = rest })
    unfolding read_body
    read_body-eq dull dull iterator rest e h =
        ap (λ i. ok (dull, record { iterator = i; ahead = rest })) (omega arith)
    read_body-eq quit quit iterator rest e h =
        ap (λ i. ok (quit, record { iterator = i; ahead = rest })) (omega arith)
    read_body-eq (reg a b c) (reg _ _ _) iterator rest e h =
        read_three-eq buf_end reg a b c iterator rest h
    read_body-eq (dereg a b c) (dereg _ _ _) iterator rest e h =
        read_three-eq buf_end dereg a b c iterator rest h
    read_body-eq (data_for a b c) (data_for _ _ _) iterator rest e h =
        read_three-eq buf_end data_for a b c iterator rest h
    read_body-eq b like iterator rest e h = absurd (omega arith)

  -- A message fits the buffer at this address, which ends inside the address space.
  abbrev pub FitsBuffer : ℕ → Msg → Type 0
  FitsBuffer address m = (serialized_len word m.body ≤ buf_len) × (address + buf_len < 256 ^ word)

  -- Serializing a message that fits the buffer gives its wire word format, type, length and strings,
  -- and sets m_MsgLen to the number of bytes written.
  pub serialize-eq-wire :
      (address : ℕ) (m : Msg)
      → FitsBuffer address m
      → serialize word address m ≡ ok (calculate_len word m, wire word (calculate_len word m))
  unfolding serialize serialize_at
  serialize-eq-wire address m h =
      let m' = calculate_len word m in
      let e = address + buf_len in
      let n = length-body_bytes word m.body in
      let s0 : Writer = record { iterator = address; written = [] } in
      let s1 : Writer = record { iterator = address + 4; written = encode 4 m'.msg_type } in
      let s2 : Writer = record {
        iterator = address + 4 + word;
        written = encode 4 m'.msg_type ++ encode word m'.msg_len;
      } in
      rw (write_word-eq word e 4 m'.msg_type s0 (omega arith)) (
        rw (write_word-eq word e word m'.msg_len s1 (omega (arith, n))) (
          rw (write_body-eq e m.body s2 (omega (arith, n))) (
            ap (λ w. ok (m', w))
              (append_assoc (encode 4 m'.msg_type) (encode word m'.msg_len)
                (body_bytes word m.body)))))

  create_type :
      (b : Body)
      → (like : Msg) × (create_msg (type_of b) ≡ ok like) × (type_of like.body ≡ type_of b)
  unfolding create_msg
  create_type dull = (new_msg dull, refl, refl)
  create_type quit = (new_msg quit, refl, refl)
  create_type (reg _ _ _) = (new_msg (reg [] [] []), refl, refl)
  create_type (dereg _ _ _) = (new_msg (dereg [] [] []), refl, refl)
  create_type (data_for _ _ _) = (new_msg (data_for [] [] []), refl, refl)

  type-lt : (b : Body) → type_of b < 256 ^ 4
  type-lt dull = omega arith
  type-lt quit = omega arith
  type-lt (reg _ _ _) = omega arith
  type-lt (dereg _ _ _) = omega arith
  type-lt (data_for _ _ _) = omega arith

  -- The bytes of a message are read back as that message, whatever stands in memory after them,
  -- if its type is that of its class and its length field holds in a size_t.
  pub deserialize-wire :
      (address : ℕ) (m : Msg) (rest : List ℕ)
      → m.msg_type ≡ type_of m.body
      → m.msg_len < 256 ^ word
      → address + serialized_len word m.body < 256 ^ word
      → deserialize word address (wire word m ++ rest) (length (wire word m)) ≡ ok m
  unfolding deserialize deserialize_at
  deserialize-wire address m rest t l h =
      let n = length-body_bytes word m.body in
      let e = address + length (wire word m) in
      let w = length-wire word m in
      let (like, made, same) = create_type m.body in
      let number : decode (take 4 (wire word m ++ rest)) ≡ type_of m.body =
        ap (λ z. decode (take 4 z))
          (append_assoc (encode 4 m.msg_type) (encode word m.msg_len ++ body_bytes word m.body)
            rest)
        ∙ ap decode (
            take_exact 4 (encode 4 m.msg_type)
              ((encode word m.msg_len ++ body_bytes word m.body) ++ rest)
              (length-encode 4 m.msg_type))
        ∙ decode-encode 4 m.msg_type (rw t (type-lt m.body))
        ∙ t in
      let split : wire word m ++ rest
          ≡ encode 4 m.msg_type ++ (encode word m.msg_len ++ (body_bytes word m.body ++ rest)) =
        simp append_assoc in
      rw (number, made)
        (rw split (
          rw
            (read_word-eq word e 4 m.msg_type address
              (encode word m.msg_len ++ (body_bytes word m.body ++ rest)) (rw t (type-lt m.body))
              (omega (arith, n, w)))
            (rw
              (read_word-eq word e word m.msg_len (address + 4) (body_bytes word m.body ++ rest) l
                (omega (arith, n, w)))
              (rw
                (read_body-eq e m.body like.body (address + 4 + word) rest same
                  (omega (arith, n, w)))
                refl))))

  -- Round trip: a message that fits the buffer, and whose type is that of its class, is
  -- serialized to as many bytes as its m_MsgLen then says, and from those bytes, at any address
  -- and with anything after them, DeSerialize makes the same message, the length included.
  pub round_trip :
      (from to : ℕ) (m : Msg) (rest : List ℕ)
      → m.msg_type ≡ type_of m.body
      → FitsBuffer from m
      → FitsBuffer to m
      → (bytes : List ℕ) × (serialize word from m ≡ ok (calculate_len word m, bytes))
        × (length bytes ≡ (calculate_len word m).msg_len)
        × (deserialize word to (bytes ++ rest) (length bytes) ≡ ok (calculate_len word m))
  round_trip from to m rest t f g =
      let m' = calculate_len word m in
      (
        wire word m',
        serialize-eq-wire from m f,
        length-wire word m',
        deserialize-wire to m' rest t (omega arith) (omega arith),
      )
