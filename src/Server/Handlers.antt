-- ===== src/Server/Handlers.antt =====
-- src/xty_msg_server.cpp: what the handlers of registration change, and what they leave.
use xty.Base.{
  ℕ, ◌≡◌, refl, sym, ap, ◌∙◌, Bool-cases, inl, inr, true, false, not, ◌&&◌, none, some, List,
  if◌then◌else◌, ◌==◌,
}
use mathlib.Core.Option.{some-injective}
use xty.Comparable.{Comparable}
use xty.RbTree.Insert.{IsValid}
use xty.RbTree.Remove.{eq_refl}
use xty.Map.{Map, node_comparable, index}
use xty.Map.Laws.{or_else, value_of, lookup, index_lem, index-IsValid, lookup-index}
use xty.Msg.{reg, dereg}
use xty.Msg.Stream.{ok}
use xty.Msg.Entities.{release}
use xty.Server.{
  ClientEntity, null, Server, invalid, user_ip_port, at_client, write_client, handle_reg,
  handle_dereg,
}

module _ ⦃o : Comparable (List ℕ)⦄ where
  -- Operator [] at a key that is there changes nothing.
  index-found :
      (m : Map (List ℕ) ℕ) (k : List ℕ) (p : ℕ) → lookup null m k ≡ some p → index null m k ≡ (p, m)
  unfolding lookup
  index-found m k p e = elim (index_lem null m k) [
    | inl (n, f, same) ↦
        same ∙ ap (λ z. (z, m)) (some-injective n.value p (ap (value_of null) (sym f) ∙ e))
    | inr (f, new) ↦
        let nothing : none ≡ some p = ap (value_of null) (sym f) ∙ e in absurd (none≢some p nothing)
  ]
    where
      none≢some : (q : ℕ) → none ≡ some q → ⊥
      none≢some q h = cc

  -- The address that the table has for a key; NULL where it has none.
  abbrev pub client_at : Server → List ℕ → ℕ
  client_at s k = or_else null (lookup null s.active_clients k)

  -- What write_client does: the key is in the table afterwards, with the address that it had, and
  -- only the entity there, if it is one, has the new fields.
  pub record IsWritten (key name ip port : List ℕ) (s s' : Server) : Type 0 where
    pub valid : IsValid s'.active_clients
    pub table :
        (j : List ℕ)
        → lookup null s'.active_clients j
          ≡ (if o.eq key j then some (client_at s key) else lookup null s.active_clients j)
    pub written :
        (q : ℕ)
        → s'.clients q ≡ (
            if (q == client_at s key) && not (client_at s key == null)
            then record (s.clients q) { client_name = name; client_ip = ip; client_port = port }
            else s.clients q)
    pub queued : s'.send_queue ≡ s.send_queue

  -- The table after the first operator [], and the address that it gives
  abbrev tested : List ℕ → Server → Map (List ℕ) ℕ
  tested key s = (index null s.active_clients key).1

  abbrev address_of : List ℕ → Server → ℕ
  address_of key s = (index null s.active_clients key).0

  abbrev rewritten : (name ip port : List ℕ) → ℕ → (ℕ → ClientEntity) → ℕ → ClientEntity
  rewritten name ip port p m =
      at_client p (λ c. record c { client_port = port })
        (at_client p (λ c. record c { client_ip = ip })
          (at_client p (λ c. record c { client_name = name }) m))

  rewritten_lem :
      (name ip port : List ℕ) (p q : ℕ) (m : ℕ → ClientEntity)
      → rewritten name ip port p m q ≡ (
          if q == p
          then record (m q) { client_name = name; client_ip = ip; client_port = port }
          else m q)
  unfolding at_client
  rewritten_lem name ip port p q m = elim (Bool-cases (q == p)) [
    | inl e ↦ rw e refl
    | inr e ↦ rw e refl
  ]

  there :
      (key : List ℕ) (s : Server)
      → IsValid s.active_clients
      → lookup null (tested key s) key ≡ some (address_of key s)
  there key s v = (lookup-index null s.active_clients key key v).1 ∙ rw (eq_refl key) refl

  write_client-eq :
      (key name ip port : List ℕ) (s : Server)
      → IsValid s.active_clients
      → write_client key name ip port s ≡ (
          if address_of key s == null
          then record s { active_clients = tested key s }
          else record s {
            active_clients = tested key s;
            clients = rewritten name ip port (address_of key s) s.clients;
          })
  unfolding write_client
  write_client-eq key name ip port s v =
      let again = index-found (tested key s) key (address_of key s) (there key s v) in
      rw again (rw again (rw again refl))

  -- The test for NULL under the test for the address.
  guard_true :
      (q p : ℕ) (x y : ClientEntity)
      → (p == null) ≡ true
      → y ≡ (if (q == p) && not (p == null) then x else y)
  guard_true q p x y e = elim (Bool-cases (q == p)) [ inl f ↦ rw (f, e) refl | inr f ↦ rw f refl ]

  guard_false :
      (q p : ℕ) (x y : ClientEntity)
      → (p == null) ≡ false
      → (if q == p then x else y) ≡ (if (q == p) && not (p == null) then x else y)
  guard_false q p x y e = elim (Bool-cases (q == p)) [ inl f ↦ rw (f, e) refl | inr f ↦ rw f refl ]

  write_client_lem :
      (key name ip port : List ℕ) (s : Server)
      → IsValid s.active_clients
      → IsWritten key name ip port s (write_client key name ip port s)
        × ((write_client key name ip port s).entities ≡ s.entities)
  write_client_lem key name ip port s v =
      let same = (lookup-index null s.active_clients key key v).0 in
      let valid = index-IsValid null s.active_clients key v in
      let table : (j : List ℕ)
          → lookup null (tested key s) j
            ≡ (if o.eq key j then some (client_at s key) else lookup null s.active_clients j) =
        λ j.
          (lookup-index null s.active_clients key j v).1
          ∙ ap (λ z. if o.eq key j then some z else lookup null s.active_clients j) same in
      let full : ℕ → ClientEntity =
        λ q. record (s.clients q) { client_name = name; client_ip = ip; client_port = port } in
      elim (Bool-cases (address_of key s == null)) [
        | inl e ↦
            rw (write_client-eq key name ip port s v, e)
              (
                record {
                  valid = valid;
                  table = table;
                  written = λ q.
                      guard_true q (client_at s key) (full q) (s.clients q)
                        (ap (λ z. z == null) (sym same) ∙ e);
                  queued = refl;
                },
                refl,
              )
        | inr e ↦
            rw (write_client-eq key name ip port s v, e)
              (
                record {
                  valid = valid;
                  table = table;
                  written = λ q.
                      rewritten_lem name ip port (address_of key s) q s.clients
                      ∙ ap (λ z. if q == z then full q else s.clients q) same
                      ∙ guard_false q (client_at s key) (full q) (s.clients q)
                          (ap (λ z. z == null) (sym same) ∙ e);
                  queued = refl;
                },
                refl,
              )
      ]

  -- HandleRegMsg with a registration, on a valid table: the client's key is in the table afterwards, new keys with
  -- NULL, and all other keys are as they were; the entity at the key's address, where that is not
  -- NULL, has the name, the IP and the port of the message and keeps its descriptor, and all other
  -- entities are as they were; and the message's entity is released.
  pub handle_reg_lem :
      (address : ℕ) (name ip port : List ℕ) (s : Server)
      → IsValid s.active_clients
      → (s' : Server) × (handle_reg address (reg name ip port) s ≡ ok s')
        × IsWritten (user_ip_port ip port) name ip port s s'
        × (s'.entities ≡ release address s.entities)
  unfolding handle_reg
  handle_reg_lem address name ip port s v =
      let (w, same) = write_client_lem (user_ip_port ip port) name ip port s v in
      let s1 = write_client (user_ip_port ip port) name ip port s in
      (
        record s1 { entities = release address s1.entities },
        refl,
        record { valid = w.valid; table = w.table; written = w.written; queued = w.queued },
        ap (release address) same,
      )

  -- HandleDeRegMsg with a deregistration, on a valid table: the same, with the text for a client that has logged
  -- out in all three fields. The key stays in the table.
  pub handle_dereg_lem :
      (address : ℕ) (name ip port : List ℕ) (s : Server)
      → IsValid s.active_clients
      → (s' : Server) × (handle_dereg address (dereg name ip port) s ≡ ok s')
        × IsWritten (user_ip_port ip port) invalid invalid invalid s s'
        × (s'.entities ≡ release address s.entities)
  unfolding handle_dereg
  handle_dereg_lem address name ip port s v =
      let (w, same) = write_client_lem (user_ip_port ip port) invalid invalid invalid s v in
      let s1 = write_client (user_ip_port ip port) invalid invalid invalid s in
      (
        record s1 { entities = release address s1.entities },
        refl,
        record { valid = w.valid; table = w.table; written = w.written; queued = w.queued },
        ap (release address) same,
      )
