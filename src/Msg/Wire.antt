-- ===== src/Msg/Wire.antt =====
-- src/xty_msg.cpp, lines 56 to 137, and the entities of src/xty_msg_serialization.h and .cpp that
-- call it: Serialize and DeSerialize of the message classes.
use xty.Base.{ℕ, ◌+◌, List, [], if◌then◌else◌, ◌==◌, take}
use xty.Msg.{Body, dull, quit, reg, dereg, data_for, Msg, new_msg, calculate_len}
use xty.Msg.Bytes.{decode}
use xty.Msg.Stream.{
  Outcome, ok, fault, ◌>>=◌, Writer, Reader, write_word, write_string, read_word, read_string,
}

-- XTY_SERIALIZE_BUF_LEN
abbrev pub buf_len : ℕ
buf_len = 4096

module _ (word buf_end : ℕ) where
  unfoldable pub write_three : List ℕ → List ℕ → List ℕ → Writer → Outcome Writer
  write_three a b c s = do
    s' ← write_string word buf_end a s
    s'' ← write_string word buf_end b s'
    write_string word buf_end c s''

  -- What each class writes after the header.
  unfoldable pub write_body : Body → Writer → Outcome Writer
  unfolding write_three
  write_body dull s = ok s
  write_body quit s = ok s
  write_body (reg name ip port) s = write_three name ip port s
  write_body (dereg name ip port) s = write_three name ip port s
  write_body (data_for to_ip to_name content) s = write_three to_ip to_name content s

  -- Serialize of each class: the message, its length now set, and the iterator.
  unfoldable pub serialize_at : Msg → Writer → Outcome (Msg × Writer)
  unfolding write_body
  serialize_at m s = do
    let m' = calculate_len word m
    s' ← write_word word buf_end 4 m'.msg_type s
    s'' ← write_word word buf_end word m'.msg_len s'
    done ← write_body m'.body s''
    ok (m', done)

  unfoldable pub read_three : (List ℕ → List ℕ → List ℕ → Body) → Reader → Outcome (Body × Reader)
  read_three make s = do
    a ← read_string word buf_end s
    b ← read_string word buf_end a.1
    c ← read_string word buf_end b.1
    ok (make a.0 b.0 c.0, c.1)

  -- What each class reads after the header; the argument says which class.
  unfoldable pub read_body : Body → Reader → Outcome (Body × Reader)
  unfolding read_three
  read_body dull s = ok (dull, s)
  read_body quit s = ok (quit, s)
  read_body (reg _ _ _) s = read_three reg s
  read_body (dereg _ _ _) s = read_three dereg s
  read_body (data_for _ _ _) s = read_three data_for s

  -- DeSerialize of each class
  unfoldable pub deserialize_at : Msg → Reader → Outcome (Msg × Reader)
  unfolding read_body
  deserialize_at m s = do
    t ← read_word word buf_end 4 s
    n ← read_word word buf_end word t.1
    b ← read_body m.body n.1
    ok (record { msg_type = t.0; msg_len = n.0; body = b.0 }, b.1)

-- xtyCreateMsgFunArray[Type](): the sixth entry is NULL, and after it the array has ended.
unfoldable pub create_msg : ℕ → Outcome Msg
create_msg t =
    if t == 0
    then ok (new_msg dull)
    else (if t == 1
        then ok (new_msg quit)
        else (if t == 2
            then ok (new_msg (reg [] [] []))
            else (if t == 3
                then ok (new_msg (dereg [] [] []))
                else (if t == 4 then ok (new_msg (data_for [] [] [])) else fault))))

module _ (word : ℕ) where
  -- xtySerializeEntity::Serialize, on a buffer at this address: the message and its bytes.
  unfoldable pub serialize : ℕ → Msg → Outcome (Msg × List ℕ)
  unfolding serialize_at
  serialize address m = do
    done ← serialize_at word (address + buf_len) m (record { iterator = address; written = [] })
    ok (done.0, done.1.written)

  -- xtyDeSerializeEntity::Prepare and DeSerialize, on `len` bytes at an address; `memory` is what
  -- stands from there on. The type is read whatever `len` is.
  unfoldable pub deserialize : ℕ → List ℕ → ℕ → Outcome Msg
  unfolding create_msg deserialize_at
  deserialize address memory len = do
    m ← create_msg (decode (take 4 memory))
    done ← deserialize_at word (address + len) m (record { iterator = address; ahead = memory })
    ok done.0
