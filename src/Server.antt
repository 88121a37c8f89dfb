-- ===== src/Server.antt =====
-- src/xty_msg_server.cpp, lines 130 to 196: the handlers of xtyMsgServer, which the message loop
-- calls with a message and its address. m_ClientTableLock makes each one step on the tables.
pub mod Handlers
mod Tests
use xty.Base.{ℕ, List, [], ◌∷◌, ◌++◌, Bool, if◌then◌else◌, ◌==◌}
use xty.Comparable.{Comparable}
use xty.Map.{Map, MapNode, node_comparable, index}
use xty.Msg.{Body, dull, quit, reg, dereg, data_for}
use xty.Msg.Stream.{Outcome, ok, thrown, fault}
use xty.Msg.Entities.{Entity, release}
use xty.MsgQueue.{Shared, put, produce}

-- xtyClientEntity
pub record ClientEntity : Type 0 where
  pub client_fd : ℕ
  pub client_name : List ℕ
  pub client_ip : List ℕ
  pub client_port : List ℕ

abbrev pub null : ℕ
null = 0

-- m_ActiveClientTable, from "ip:port" to the address of an entity; the entities in memory; those
-- of m_pDeSerializer; and m_pSendMsgQueue.
pub record Server : Type 0 where
  pub active_clients : Map (List ℕ) ℕ
  pub clients : ℕ → ClientEntity
  pub entities : List Entity
  pub send_queue : Shared

-- `"##Invalid: client log out##"`
abbrev pub invalid : List ℕ
invalid =
    35 ∷ 35 ∷ 73 ∷ 110 ∷ 118 ∷ 97 ∷ 108 ∷ 105 ∷ 100 ∷ 58 ∷ 32 ∷ 99 ∷ 108 ∷ 105 ∷ 101 ∷ 110 ∷ 116
    ∷ 32 ∷ 108 ∷ 111 ∷ 103 ∷ 32 ∷ 111 ∷ 117 ∷ 116 ∷ 35 ∷ 35 ∷ []

-- `ip + ":" + port`
abbrev pub user_ip_port : List ℕ → List ℕ → List ℕ
user_ip_port ip port = ip ++ (58 ∷ port)

-- A store to a field of the entity at an address
unfoldable pub at_client : ℕ → (ClientEntity → ClientEntity) → (ℕ → ClientEntity) → ℕ → ClientEntity
at_client p f m q = if q == p then f (m q) else m q

-- `o` compares two std::strings.
module _ ⦃o : Comparable (List ℕ)⦄ where
  -- What both handlers do to the table and the entity: operator [] is called for the test, which
  -- inserts the key if it is missing, and then once for each field.
  unfoldable pub write_client : (key name ip port : List ℕ) → Server → Server
  unfolding at_client
  write_client key name ip port s =
      let tested = index null s.active_clients key in
      let first = index null tested.1 key in
      let second = index null first.1 key in
      let third = index null second.1 key in
      let named = at_client first.0 (λ c. record c { client_name = name }) s.clients in
      let placed = at_client second.0 (λ c. record c { client_ip = ip }) named in
      let ported = at_client third.0 (λ c. record c { client_port = port }) placed in
      if tested.0 == null
      then record s { active_clients = tested.1 }
      else record s { active_clients = third.1; clients = ported }

  -- HandleRegMsg. With a message of another class, dynamic_cast gives NULL, which is read.
  unfoldable pub handle_reg : ℕ → Body → Server → Outcome Server
  unfolding write_client
  handle_reg address (reg name ip port) s =
      let s' = write_client (user_ip_port ip port) name ip port s in
      ok (record s' { entities = release address s'.entities })
  handle_reg address b s = fault

  -- HandleDeRegMsg
  unfoldable pub handle_dereg : ℕ → Body → Server → Outcome Server
  unfolding write_client
  handle_dereg address (dereg name ip port) s =
      let s' = write_client (user_ip_port ip port) invalid invalid invalid s in
      ok (record s' { entities = release address s'.entities })
  handle_dereg address b s = fault

  -- HandleDataMsg; the entity stays acquired until the message is sent.
  unfoldable pub handle_data : ℕ → Body → Server → Outcome Server
  handle_data address (data_for to_ip to_name content) s =
      ok (record s { send_queue = produce (put address s.send_queue) })
  handle_data address b s = ok (record s { send_queue = produce (put null s.send_queue) })
