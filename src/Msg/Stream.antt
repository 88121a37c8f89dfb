-- ===== src/Msg/Stream.antt =====
-- src/xty_msg.cpp, lines 4 to 54: __Serialize and __DeSerialize, for an integer and for a string.
-- An iterator is an address, below 256 ^ word, and pointer sums wrap there.
use xty.Base.{
  ℕ, ◌+◌, ◌%◌, ◌^◌, ◌≤◌, ◌<◌, ◌≡◌, refl, ap, ap₂, ◌⊎◌, inl, inr, ◌∙◌, Bool, true, false, List, ◌++◌,
  length, take, drop, ltb, leb, le→leb, if◌then◌else◌, arith, length-append, take-append,
  drop-append, take_exact, drop_exact,
}
use native.Mathlib.Nat.{mod-eq_of_lt}
use native.Mathlib.Decide.{dec_lt}
use xty.Msg.Bytes.{encode, decode, length-encode, decode-encode}

-- `thrown`: an xtyException with XTY_OUT_OF_BUFFER_RANGE. `fault`: the code reads, writes or
-- calls what is not there.
pub data Outcome {ℓ} (A : Type ℓ) : Type ℓ where
  ok : A → Outcome A
  thrown : Outcome A
  fault : Outcome A

infixl 5 ◌>>=◌
abbrev pub ◌>>=◌ {ℓ κ} : {A : Type ℓ} {B : Type κ} → Outcome A → (A → Outcome B) → Outcome B
ok a >>= f = f a
thrown >>= f = thrown
fault >>= f = fault

-- pSerializeIterator, and the bytes between the start of the buffer and it
pub record Writer : Type 0 where
  pub iterator : ℕ
  pub written : List ℕ

-- pDeSerializeIterator, and the memory from there on
pub record Reader : Type 0 where
  pub iterator : ℕ
  pub ahead : List ℕ

-- `word` is sizeof(size_t), `buf_end` the end of the buffer.
module _ (word buf_end : ℕ) where
  -- `iterator + n > pBufEnd`
  abbrev pub is_past_end : ℕ → ℕ → Bool
  is_past_end iterator n = ltb buf_end ((iterator + n) % 256 ^ word)

  -- A sum that wraps may pass the test; what is then written is outside the buffer.
  unfoldable pub write_word : ℕ → ℕ → Writer → Outcome Writer
  write_word size value s =
      if is_past_end s.iterator size
      then thrown
      else if leb (s.iterator + size) buf_end
      then ok (record { iterator = s.iterator + size; written = s.written ++ encode size value })
      else fault

  unfoldable pub write_string : List ℕ → Writer → Outcome Writer
  write_string text s =
      if is_past_end s.iterator (word + length text)
      then thrown
      else if leb (s.iterator + (word + length text)) buf_end
      then ok (record {
        iterator = s.iterator + word + length text;
        written = (s.written ++ encode word (length text)) ++ text;
      })
      else fault

  unfoldable pub read_word : ℕ → Reader → Outcome (ℕ × Reader)
  read_word size s =
      if is_past_end s.iterator size
      then thrown
      else (if leb size (length s.ahead)
          then ok (
            decode (take size s.ahead),
            record { iterator = s.iterator + size; ahead = drop size s.ahead },
          )
          else fault)

  -- The characters after their number: the second half of the reading of a string. A string
  -- longer than the memory that is left cannot be assigned.
  unfoldable pub read_chars : ℕ → Reader → Outcome (List ℕ × Reader)
  read_chars n s =
      if is_past_end s.iterator n
      then thrown
      else (if leb n (length s.ahead)
          then ok (take n s.ahead, record { iterator = s.iterator + n; ahead = drop n s.ahead })
          else fault)

  unfoldable pub read_string : Reader → Outcome (List ℕ × Reader)
  unfolding read_word read_chars
  read_string s = read_word word s >>= λ r. read_chars r.0 r.1

  -- Room for `n` more bytes, and no sum that wraps.
  abbrev pub Fits : ℕ → ℕ → Type 0
  Fits iterator n = (iterator + n ≤ buf_end) × (buf_end < 256 ^ word)

  Fits-test : (iterator n : ℕ) → Fits iterator n → is_past_end iterator n ≡ false
  Fits-test iterator n h = ground (arith, mod-eq_of_lt {n = iterator + n} {m = 256 ^ word})

  pub write_word-eq :
      (size value : ℕ) (s : Writer)
      → Fits s.iterator size
      → write_word size value s
        ≡ ok (record { iterator = s.iterator + size; written = s.written ++ encode size value })
  unfolding write_word
  write_word-eq size value s h =
      rw (Fits-test s.iterator size h, le→leb (s.iterator + size) buf_end h.0) refl

  pub write_string-eq :
      (text : List ℕ) (s : Writer)
      → Fits s.iterator (word + length text)
      → write_string text s
        ≡ ok (record {
          iterator = s.iterator + word + length text;
          written = (s.written ++ encode word (length text)) ++ text;
        })
  unfolding write_string
  write_string-eq text s h =
      rw
        (
          Fits-test s.iterator (word + length text) h,
          le→leb (s.iterator + (word + length text)) buf_end h.0,
        )
        refl

  pub read_word-eq :
      (size value iterator : ℕ) (rest : List ℕ)
      → value < 256 ^ size
      → Fits iterator size
      → read_word size (record { iterator = iterator; ahead = encode size value ++ rest })
        ≡ ok (value, record { iterator = iterator + size; ahead = rest })
  unfolding read_word
  read_word-eq size value iterator rest v h =
      rw
        (
          Fits-test iterator size h,
          le→leb size (length (encode size value ++ rest))
              (omega (arith, length-append (encode size value) rest, length-encode size value)),
        )
        (ap₂ (λ x y. ok (x, record { iterator = iterator + size; ahead = y }))
          (ap decode (take_exact size (encode size value) rest (length-encode size value))
            ∙ decode-encode size value v)
          (drop_exact size (encode size value) rest (length-encode size value)))

  pub read_chars-eq :
      (text : List ℕ) (iterator : ℕ) (rest : List ℕ)
      → Fits iterator (length text)
      → read_chars (length text) (record { iterator = iterator; ahead = text ++ rest })
        ≡ ok (text, record { iterator = iterator + length text; ahead = rest })
  unfolding read_chars
  read_chars-eq text iterator rest h =
      rw
        (
          Fits-test iterator (length text) h,
          le→leb (length text) (length (text ++ rest)) (omega (arith, length-append text rest)),
          take-append text rest,
          drop-append text rest,
        )
        refl

  pub read_string-eq :
      (text : List ℕ) (iterator : ℕ) (rest : List ℕ)
      → Fits iterator (word + length text)
      → read_string
          (record { iterator = iterator; ahead = encode word (length text) ++ (text ++ rest) })
        ≡ ok (text, record { iterator = iterator + word + length text; ahead = rest })
  unfolding read_string
  read_string-eq text iterator rest h =
      rw (read_word-eq word (length text) iterator (text ++ rest) (omega arith) (omega arith))
        (read_chars-eq text (iterator + word) rest (omega arith))

  -- Without a sum that wraps there are two outcomes.
  past_end_cases :
      (iterator n : ℕ)
      → iterator + n < 256 ^ word
      → ((iterator + n ≤ buf_end) × (is_past_end iterator n ≡ false))
        ⊎ (buf_end < iterator + n) × (is_past_end iterator n ≡ true)
  past_end_cases iterator n h = elim (dec_lt buf_end (iterator + n)) [
    | yes p ↦ inr (p, ground (arith, mod-eq_of_lt {n = iterator + n} {m = 256 ^ word}))
    | no p ↦ inl (omega arith, ground (arith, mod-eq_of_lt {n = iterator + n} {m = 256 ^ word}))
  ]

  pub write_word-cases :
      (size value : ℕ) (s : Writer)
      → s.iterator + size < 256 ^ word
      → ((s.iterator + size ≤ buf_end)
          × (write_word size value s
              ≡ ok (record {
                iterator = s.iterator + size;
                written = s.written ++ encode size value;
              })))
        ⊎ (buf_end < s.iterator + size) × (write_word size value s ≡ thrown)
  unfolding write_word
  write_word-cases size value s h = elim (past_end_cases s.iterator size h) [
    | inl (p, e) ↦ inl (p, rw (e, le→leb (s.iterator + size) buf_end p) refl)
    | inr (p, e) ↦ inr (p, rw e refl)
  ]

  pub write_string-cases :
      (text : List ℕ) (s : Writer)
      → s.iterator + (word + length text) < 256 ^ word
      → ((s.iterator + (word + length text) ≤ buf_end)
          × (write_string text s
              ≡ ok (record {
                iterator = s.iterator + word + length text;
                written = (s.written ++ encode word (length text)) ++ text;
              })))
        ⊎ (buf_end < s.iterator + (word + length text)) × (write_string text s ≡ thrown)
  unfolding write_string
  write_string-cases text s h = elim (past_end_cases s.iterator (word + length text) h) [
    | inl (p, e) ↦ inl (p, rw (e, le→leb (s.iterator + (word + length text)) buf_end p) refl)
    | inr (p, e) ↦ inr (p, rw e refl)
  ]
