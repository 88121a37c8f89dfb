-- ===== src/Msg/Tests.antt =====
-- Runs of the messages of src/xty_msg.h, and the theorems at them, on a machine whose size_t has
-- four bytes.
use xty.Base.{
  ℕ, zero, suc, ◌+◌, ◌-◌, ◌^◌, ◌≡◌, refl, List, [], ◌∷◌, ◌++◌, length, arith, none, some, false,
}
use xty.Msg.{reg, data_for, Msg, new_msg, calculate_len, serialized_len}
use xty.Msg.Stream.{Outcome, ok, thrown, fault, Reader, read_chars}
use xty.Msg.Wire.{serialize, deserialize}
use xty.Msg.RoundTrip.{round_trip}
use xty.Msg.Overflow.{serialize-thrown}
use xty.Msg.Entities.{Entity, call, free, malformed_messages, malformed_messages-exhaust}

abbrev hello : Msg
hello = new_msg (data_for (49 ∷ []) (112 ∷ 49 ∷ []) (104 ∷ 105 ∷ []))

round_trip_example :
    (bytes : List ℕ) × (serialize 4 4096 hello ≡ ok (calculate_len 4 hello, bytes))
    × (length bytes ≡ (calculate_len 4 hello).msg_len)
    × (deserialize 4 8192 (bytes ++ (0 ∷ [])) (length bytes) ≡ ok (calculate_len 4 hello))
unfolding serialized_len
round_trip_example =
    round_trip 4 4096 8192 hello (0 ∷ []) refl (omega arith, omega arith) (omega arith, omega arith)

abbrev repeated : ℕ → List ℕ
repeated zero = []
repeated (suc n) = 97 ∷ repeated n

length-repeated : (n : ℕ) → length (repeated n) ≡ n
length-repeated zero = refl
length-repeated (suc n) = omega (arith, length-repeated n)

abbrev too_long : Msg
too_long = new_msg (reg (repeated 4096) [] [])

serialize-thrown_example : serialize 4 4096 too_long ≡ thrown
unfolding serialized_len
serialize-thrown_example =
    serialize-thrown 4 4096 too_long (omega (arith, length-repeated 4096))
      (omega (arith, length-repeated 4096))

-- Sixteen bytes at 4096 + 20, in a buffer that ends at 8192, and a length that takes the iterator
-- round the address space to the address 0: the test before the characters are read lets it pass.
abbrev short_reader : Reader
short_reader = record { iterator = 4116; ahead = repeated 16 }

wrapped_length : read_chars 4 8192 (256 ^ 4 - 4116) short_reader ≡ fault
unfolding read_chars
wrapped_length = refl

abbrev two_entities : List Entity
two_entities =
    record { is_occupied = false; handle = 10 } ∷ record { is_occupied = false; handle = 20 } ∷ []

malformed_messages-exhaust_example :
    (es' : List Entity) × (malformed_messages (λ a. a + 100) 2 two_entities ≡ some es')
    × (free es' ≡ 0)
    × ((result : Outcome Msg) → call (λ a. a + 100) result es' ≡ none)
malformed_messages-exhaust_example = malformed_messages-exhaust (λ a. a + 100) 2 two_entities refl
