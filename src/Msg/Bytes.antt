-- ===== src/Msg/Bytes.antt =====
-- src/xty_msg.cpp: the bytes of an integer in memory, as memcpy takes and puts them, lowest first.
use native.Mathlib.Nat.{pow-suc}
use xty.Base.{
  ℕ, zero, suc, ◌+◌, ◌*◌, ◌/◌, ◌%◌, ◌^◌, ◌<◌, ◌≡◌, refl, ap, List, [], ◌∷◌, length, arith,
}

unfoldable pub encode : ℕ → ℕ → List ℕ
encode zero n = []
encode (suc w) n = (n % 256) ∷ encode w (n / 256)

unfoldable pub decode : List ℕ → ℕ
decode [] = 0
decode (b ∷ bs) = b + 256 * decode bs

pub length-encode : (w n : ℕ) → length (encode w n) ≡ w
unfolding encode
length-encode zero n = refl
length-encode (suc w) n = ap suc (length-encode w (n / 256))

pub decode-encode : (w n : ℕ) → n < 256 ^ w → decode (encode w n) ≡ n
unfolding encode decode
decode-encode zero n h = omega arith
decode-encode (suc w) n h = omega (arith, decode-encode w (n / 256) (omega (arith, pow-suc 256 w)))
