-- ===== src/Sender/Delivered.antt =====
-- src/xty_msg_server_send_job.cpp: who gets a data message.
use xty.Base.{
  ◌⊎◌, Option, length, arith, ℕ, ◌≤◌, ◌≡◌, ◌≢◌, refl, ap, sym, ◌∙◌, some, List, [], ◌∷◌, ◌++◌,
  append_assoc, append-nil, ◌==◌, Bool-cases, inl, inr,
}
use xty.RbTree.Inorder.{to_list}
use xty.Map.{MapNode}
use xty.Msg.{data_for, Msg, calculate_len, serialized_len}
use xty.Msg.Stream.{ok}
use xty.Msg.Wire.{buf_len}
use xty.Msg.Format.{wire}
use xty.Msg.Entities.{Entity, release, free}
use xty.Msg.Reuse.{AreBuffers, transmit_lem}
use xty.Server.{ClientEntity, null, Server}
use xty.Epoll.Arrival.{entries_lem}
use xty.Sender.{Sending, send_to, send_entry, send_entries, send_msg_on}
use xty.Sender.Recipients.{recipients, for_cases}

-- The same bytes for each of them
abbrev pub deliveries : List ℕ → List ClientEntity → List (ℕ × List ℕ)
deliveries bytes [] = []
deliveries bytes (c ∷ cs) = (c.client_fd, bytes) ∷ deliveries bytes cs

abbrev pub released_if_any : ℕ → List ClientEntity → List Entity → List Entity
released_if_any address [] es = es
released_if_any address (c ∷ cs) es = release address es

release-release :
    (address : ℕ) (es : List Entity) → release address (release address es) ≡ release address es
unfolding release
release-release address [] = refl
release-release address (e ∷ es) = elim (Bool-cases (e.handle == address)) [
  | inl h ↦ rw (h, h) refl
  | inr h ↦ rw (h, h) (ap (λ z. e ∷ z) (release-release address es))
]

release-released_if_any :
    (address : ℕ) (cs : List ClientEntity) (es : List Entity)
    → released_if_any address cs (release address es) ≡ release address es
release-released_if_any address [] es = refl
release-released_if_any address (c ∷ cs) es = release-release address es

length_nil : (cs : List ClientEntity) → length cs ≤ 0 → cs ≡ []
length_nil [] h = refl
length_nil (c ∷ cs) h = absurd (omega (arith, h))

-- What is to hold before the message is sent to a client
record Ready (word : ℕ) (m k : Msg) (s : Sending) : Type 0 where
  there : s.message ≡ some k
  message : calculate_len word k ≡ m
  buffers : AreBuffers word s.serializers
  idle : free s.serializers ≢ 0
  fits : serialized_len word k.body ≤ buf_len

-- After the message has been sent to some clients
abbrev IsSentTo : (word address : ℕ) → Msg → List ClientEntity → Sending → Sending → Type 0
IsSentTo word address m cs s s' =
    (s'.sent ≡ s.sent ++ deliveries (wire word m) cs)
    × (s'.serializers ≡ s.serializers)
    × (s'.deserializers ≡ released_if_any address cs s.deserializers)

-- The message is not used again after its release, or is then as it was.
abbrev pub Stays : (reused : Msg → Option Msg) → List ClientEntity → Type 0
Stays reused cs = (length cs ≤ 1) ⊎ ((m : Msg) → reused m ≡ some m)

-- After it has been sent to one client
abbrev sent_one : (word address : ℕ) → (Msg → Option Msg) → Msg → ClientEntity → Sending → Sending
sent_one word address reused m client s = record {
  message = reused m;
  serializers = s.serializers;
  deserializers = release address s.deserializers;
  sent = s.sent ++ ((client.client_fd, wire word m) ∷ []);
}

send_to_lem :
    (word address : ℕ) (reused : Msg → Option Msg) (m k : Msg) (client : ClientEntity) (s : Sending)
    → Ready word m k s
    → send_to word address reused client s ≡ some (ok (sent_one word address reused m client s))
unfolding send_to
send_to_lem word address reused m k client s r =
    rw (r.there, send_to, transmit_lem word k s.serializers r.buffers r.idle r.fits)
      (ap (λ z. some (ok (sent_one word address reused z client s))) r.message)

module _ (word address : ℕ) (reused : Msg → Option Msg) (clients : ℕ → ClientEntity)
    (to_ip to_name : List ℕ) where
  -- The message is for no client.
  send_entries-none :
      (ns : List (MapNode (List ℕ) ℕ)) (s : Sending)
      → recipients clients to_ip to_name ns ≡ []
      → send_entries word address reused clients to_ip to_name ns s ≡ some (ok s)
  unfolding send_entries send_entry
  send_entries-none [] s e = refl
  send_entries-none (n ∷ ns) s e = elim (Bool-cases (n.value == null)) [
    | inl z ↦ rw (z, send_entries) (send_entries-none ns s (rw z at e))
    | inr z ↦ elim (for_cases to_ip to_name (clients n.value)) [
      | inr (other, same) ↦ rw (z, other, send_entries) (send_entries-none ns s (rw (z, same) at e))
      | inl (for_it, added) ↦ absurd (cons≢nil (rw (z, added) at e))
    ]
  ]
    where
      cons≢nil : {c : ClientEntity} {cs : List ClientEntity} → c ∷ cs ≡ [] → ⊥
      cons≢nil h = cc

  send_entries_lem :
      (m k : Msg) (ns : List (MapNode (List ℕ) ℕ)) (s : Sending)
      → Ready word m k s
      → Stays reused (recipients clients to_ip to_name ns)
      → (s' : Sending) × (send_entries word address reused clients to_ip to_name ns s
          ≡ some (ok s'))
        × IsSentTo word address m (recipients clients to_ip to_name ns) s s'
  unfolding send_entries send_entry
  send_entries_lem m k [] s r stays = (s, refl, (sym (append-nil s.sent), refl, refl))
  send_entries_lem m k (n ∷ ns) s r stays = elim (Bool-cases (n.value == null)) [
    | inl z ↦
        let (s', done, all) = send_entries_lem m k ns s r (rw z at stays) in
        (s', rw (z, send_entries) done, rw z all)
    | inr z ↦ elim (for_cases to_ip to_name (clients n.value)) [
      | inr (other, same) ↦
          let (s', done, all) = send_entries_lem m k ns s r (rw (z, same) at stays) in
          (s', rw (z, other, send_entries) done, rw (z, same) all)
      | inl (for_it, added) ↦
          let client = clients n.value in
          let s1 = sent_one word address reused m client s in
          let cs = recipients clients to_ip to_name ns in
          let rest : (s' : Sending) × (send_entries word address reused clients to_ip to_name ns s1
                ≡ some (ok s'))
              × IsSentTo word address m cs s1 s' =
            elim (rw (z, added) at stays) [
              | inl one ↦
                  let nobody = length_nil cs (omega (arith, one)) in
                  (
                    s1,
                    send_entries-none ns s1 nobody,
                    (
                      sym (
                          ap (λ y. s1.sent ++ deliveries (wire word m) y) nobody
                          ∙ append-nil s1.sent),
                      refl,
                      sym (ap (λ y. released_if_any address y s1.deserializers) nobody),
                    ),
                  )
              | inr same ↦
                  send_entries_lem m m ns s1
                    (record {
                      there = same m;
                      message = ap (calculate_len word) (sym r.message) ∙ r.message;
                      buffers = r.buffers;
                      idle = r.idle;
                      fits = omega (arith, r.fits, ap (λ y. serialized_len word y.body) r.message);
                    })
                    (inr same)
            ] in
          let (s', done, (sent, kept, freed)) = rest in
          (
            s',
            rw (z, for_it, send_entries, send_to_lem word address reused m k client s r) done,
            rw (z, added)
                (
                  sent
                      ∙ append_assoc s.sent ((client.client_fd, wire word m) ∷ [])
                          (deliveries (wire word m) cs),
                  kept,
                  freed ∙ release-released_if_any address cs s.deserializers,
                ),
          )
    ]
  ]

abbrev pub data_msg : (type len : ℕ) (to_ip to_name content : List ℕ) → Msg
data_msg type len to_ip to_name content = record {
  msg_type = type;
  msg_len = len;
  body = data_for to_ip to_name content;
}

-- A data message that fits a buffer is passed on, where m_pSerializer has a free entity, and where
-- it has at most one recipient or no other thread changes it after its entity has been released: its
-- bytes go to the clients of the table whose IP and name, as they have registered, are those of the
-- message, to each of them once and in the order of the table's keys, and to no others; the entities
-- of m_pSerializer are as before; and the message's entity of m_pDeSerializer is released if there was
-- such a client, and is as before if there was none.
pub send_msg_on_lem :
    (word address type len : ℕ) (reused : Msg → Option Msg) (to_ip to_name content : List ℕ)
    (serializers : List Entity) (s : Server)
    → AreBuffers word serializers
    → free serializers ≢ 0
    → serialized_len word (data_for to_ip to_name content) ≤ buf_len
    → Stays reused (recipients s.clients to_ip to_name (to_list s.active_clients.root))
    → let m = data_msg type len to_ip to_name content in
      let cs = recipients s.clients to_ip to_name (to_list s.active_clients.root) in
      (s' : Sending) × (send_msg_on word address reused m serializers s ≡ some (ok s'))
      × (s'.sent ≡ deliveries (wire word (calculate_len word m)) cs)
      × (s'.serializers ≡ serializers)
      × (s'.deserializers ≡ released_if_any address cs s.entities)
unfolding send_msg_on
send_msg_on_lem word address type len reused to_ip to_name content serializers s h f fits stays =
    let m = data_msg type len to_ip to_name content in
    let start : Sending = record {
      message = some m;
      serializers = serializers;
      deserializers = s.entities;
      sent = [];
    } in
    let ready : Ready word (calculate_len word m) m start = record {
      there = refl;
      message = refl;
      buffers = h;
      idle = f;
      fits = fits;
    } in
    let (s', done, (sent, kept, freed)) =
      send_entries_lem word address reused s.clients to_ip to_name (calculate_len word m) m
        (to_list s.active_clients.root) start ready stays in
    (s', rw (entries_lem s.active_clients) done, sent, kept, freed)
