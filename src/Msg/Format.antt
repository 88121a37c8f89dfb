-- ===== src/Msg/Format.antt =====
-- src/xty_msg.cpp: the wire format of the messages, and its length.
use xty.Base.{ℕ, ◌+◌, ◌≡◌, List, [], ◌++◌, length, length-append, arith}
use xty.Msg.{Body, dull, quit, reg, dereg, data_for, Msg, head_len, serialized_len}
use xty.Msg.Bytes.{encode, length-encode}

module _ (word : ℕ) where
  -- A string on the wire: its length, then its bytes.
  abbrev pub string_bytes : List ℕ → List ℕ
  string_bytes text = encode word (length text) ++ text

  abbrev pub three_bytes : List ℕ → List ℕ → List ℕ → List ℕ
  three_bytes a b c = string_bytes a ++ (string_bytes b ++ string_bytes c)

  abbrev pub body_bytes : Body → List ℕ
  body_bytes dull = []
  body_bytes quit = []
  body_bytes (reg name ip port) = three_bytes name ip port
  body_bytes (dereg name ip port) = three_bytes name ip port
  body_bytes (data_for to_ip to_name content) = three_bytes to_ip to_name content

  -- The wire format: type, length, and the strings of the class.
  abbrev pub wire : Msg → List ℕ
  wire m = encode 4 m.msg_type ++ (encode word m.msg_len ++ body_bytes m.body)

  pub length-string_bytes : (text : List ℕ) → length (string_bytes text) ≡ word + length text
  length-string_bytes text =
      omega
        (arith, length-append (encode word (length text)) text, length-encode word (length text))

  pub length-three_bytes :
      (a b c : List ℕ)
      → length (three_bytes a b c) ≡ word + length a + word + length b + word + length c
  length-three_bytes a b c = omega (
    arith,
    length-append (string_bytes a) (string_bytes b ++ string_bytes c),
    length-append (string_bytes b) (string_bytes c),
    length-string_bytes a,
    length-string_bytes b,
    length-string_bytes c,
  )

  pub length-body_bytes : (b : Body) → head_len word + length (body_bytes b) ≡ serialized_len word b
  unfolding serialized_len
  length-body_bytes dull = omega arith
  length-body_bytes quit = omega arith
  length-body_bytes (reg a b c) = omega (arith, length-three_bytes a b c)
  length-body_bytes (dereg a b c) = omega (arith, length-three_bytes a b c)
  length-body_bytes (data_for a b c) = omega (arith, length-three_bytes a b c)

  -- The length that a message announces, once it is calculated, is the number of its bytes.
  pub length-wire : (m : Msg) → length (wire m) ≡ serialized_len word m.body
  length-wire m = omega (
    arith,
    length-append (encode 4 m.msg_type) (encode word m.msg_len ++ body_bytes m.body),
    length-append (encode word m.msg_len) (body_bytes m.body),
    length-encode 4 m.msg_type,
    length-encode word m.msg_len,
    length-body_bytes m.body,
  )
