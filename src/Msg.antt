-- ===== src/Msg.antt =====
-- src/xty_msg.h: the message classes. A std::string is the list of its bytes.
pub mod Bytes
pub mod Stream
pub mod Wire
pub mod Format
pub mod RoundTrip
pub mod Overflow
pub mod Entities
pub mod Reuse
mod Tests
use xty.Base.{ℕ, ◌+◌, List, [], ◌∷◌, length}

-- What the five classes have beside the header: none, or three strings in declaration order.
pub data Body : Type 0 where
  dull quit : Body
  -- process name, IP and port
  reg dereg : List ℕ → List ℕ → List ℕ → Body
  -- IP and name of the process it is for, and the content
  data_for : List ℕ → List ℕ → List ℕ → Body

-- A message object; its class is the constructor of its body.
pub record Msg : Type 0 where
  pub msg_type : ℕ
  pub msg_len : ℕ
  pub body : Body

-- The value of xtyMsgType with which the class is constructed.
abbrev pub type_of : Body → ℕ
type_of dull = 0
type_of quit = 1
type_of (reg _ _ _) = 2
type_of (dereg _ _ _) = 3
type_of (data_for _ _ _) = 4

-- The constructors of the classes.
abbrev pub new_msg : Body → Msg
new_msg b = record { msg_type = type_of b; msg_len = 0; body = b }

-- Clone of each class, and its copy constructor: a new object, whose fields are then assigned.
unfoldable pub clone : Msg → Msg
clone m = record (new_msg m.body) { msg_type = m.msg_type; msg_len = m.msg_len }

-- CalculateSerializedMsgLen, where a size_t has `word` bytes and the enum has four.
module _ (word : ℕ) where
  abbrev pub head_len : ℕ
  head_len = 4 + word

  unfoldable pub serialized_len : Body → ℕ
  serialized_len dull = head_len
  serialized_len quit = head_len
  serialized_len (reg name ip port) =
      head_len + word + length name + word + length ip + word + length port
  serialized_len (dereg name ip port) =
      head_len + word + length name + word + length ip + word + length port
  serialized_len (data_for to_ip to_name content) =
      head_len + word + length to_ip + word + length to_name + word + length content

  abbrev pub calculate_len : Msg → Msg
  calculate_len m = record m { msg_len = serialized_len m.body }
