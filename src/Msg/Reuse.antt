-- ===== src/Msg/Reuse.antt =====
-- src/xty_msg_serialization.cpp: a serializing entity is used for one message, and given back.
use xty.Base.{
  ℕ, ◌+◌, ◌≤◌, ◌<◌, ◌^◌, ◌≡◌, ◌≢◌, refl, ap, sym, subst, true, false, Option, none, some, List, [],
  ◌∷◌, All, Bool-cases, Option-cases, inl, inr, ◌⊎◌, ==_iff, ==_same, ==_apart, ◌==◌, if◌then◌else◌,
  length,
}
use mathlib.Core.Option.{some-injective}
use xty.Msg.{Msg, calculate_len, serialized_len}
use xty.Msg.Stream.{Outcome, ok, ◌>>=◌}
use xty.Msg.Wire.{buf_len, serialize}
use xty.Msg.Format.{wire, length-wire}
use xty.Msg.RoundTrip.{serialize-eq-wire}
use xty.Msg.Entities.{Entity, acquire, release, free, acquire-release}

-- No two entities hand out the same address.
abbrev pub AreDistinct : List Entity → Type 0
AreDistinct [] = Unit
AreDistinct (e ∷ es) = All (λ x. x.handle ≢ e.handle) es × AreDistinct es

-- What AcquireEntity of a serializer hands out is the address of one of its buffers.
unfoldable pub lend : List Entity → Option (ℕ × List Entity)
unfolding acquire
lend es = acquire (λ a. a) es

-- What Serialize leaves: the message, its length now set; the bytes, if they are sent; and the
-- entities.
pub record Transmitted : Type 0 where
  pub message : Msg
  pub bytes : Option (List ℕ)
  pub entities : List Entity

-- What the session and the server do with each message that they send: Serialize, the comparison of
-- the length with m_MsgLen, and, after the send, ReleaseEntity. Where the lengths differ, nothing is
-- sent and the entity is kept. `none`: Serialize waits for an entity.
unfoldable pub transmit : (word : ℕ) → Msg → List Entity → Option (Outcome Transmitted)
unfolding lend
transmit word m es = elim (lend es) [
  | none ↦ none
  | some (a, es') ↦ some (
      serialize word a m >>= λ r. ok (
        if length r.1 == r.0.msg_len
        then record { message = r.0; bytes = some r.1; entities = release a es' }
        else record { message = r.0; bytes = none; entities = es' }))
]

none≢some : (p : ℕ × List Entity) → none ≡ some p → ⊥
none≢some p h = cc

lend_cases :
    (e : Entity) (es : List Entity) (p : ℕ × List Entity)
    → lend (e ∷ es) ≡ some p
    → ((e.is_occupied ≡ false) × (p ≡ (e.handle, record e { is_occupied = true } ∷ es)))
      ⊎ ((e.is_occupied ≡ true)
          × ((q : ℕ × List Entity) × (lend es ≡ some q) × (p ≡ (q.0, e ∷ q.1))))
unfolding lend acquire
lend_cases e es p h = elim (Bool-cases e.is_occupied) [
  | inr idle ↦ inl (idle, sym (some-injective _ p (rw (idle, acquire) at h)))
  | inl taken ↦ inr (
    taken,
    elim (Option-cases (lend es)) [
      | inl waits ↦ absurd (none≢some p (rw (taken, waits, acquire) at h))
      | inr (q, got) ↦ (q, got, sym (some-injective _ p (rw (taken, got, acquire) at h)))
    ],
  )
]

lend-release :
    (es : List Entity) (p : ℕ × List Entity)
    → AreDistinct es
    → lend es ≡ some p
    → (release p.0 p.1 ≡ es) × ((Q : ℕ → Type 0) → All (λ e. Q e.handle) es → Q p.0)
unfolding release lend acquire
lend-release [] p d h = absurd (none≢some p h)
lend-release (e ∷ es) p (apart, d) h = elim (lend_cases e es p h) [
  | inl (idle, same) ↦ subst Good (sym same) (
    (rw (==_same e.handle) (ap (λ b. record e { is_occupied = b } ∷ es) (sym idle))),
    λ Q hs. hs.0,
  )
  | inr (taken, (q, got, same)) ↦
      let (back, from) = lend-release es q d got in
      subst Good (sym same) (
        (rw (==_apart e.handle q.0 (λ z. from (λ a. a ≢ e.handle) apart (sym z)))
            (ap (λ z. e ∷ z) back)),
        λ Q hs. from Q hs.1,
      )
]
  where
    Good : ℕ × List Entity → Type 1
    Good q =
        (release q.0 q.1 ≡ e ∷ es) × ((Q : ℕ → Type 0) → All (λ x. Q x.handle) (e ∷ es) → Q q.0)

-- The entities of a serializer: their buffers are in the address space and apart.
pub record AreBuffers (word : ℕ) (es : List Entity) : Type 0 where
  pub distinct : AreDistinct es
  pub in_space : All (λ e. e.handle + buf_len < 256 ^ word) es

-- A serializer with a free entity, and a message that fits a buffer: Serialize gives the bytes of
-- the message, as many as m_MsgLen then says, and after ReleaseEntity the entities are as before.
pub lend-serialize :
    (word : ℕ) (m : Msg) (es : List Entity)
    → AreBuffers word es
    → free es ≢ 0
    → serialized_len word m.body ≤ buf_len
    → (p : ℕ × List Entity) × (lend es ≡ some p)
      × (serialize word p.0 m ≡ ok (calculate_len word m, wire word (calculate_len word m)))
      × ((length (wire word (calculate_len word m)) == serialized_len word m.body) ≡ true)
      × (release p.0 p.1 ≡ es)
unfolding lend
lend-serialize word m es h f fits = elim (acquire-release (λ a. a) es) [
  | inl (_, z) ↦ absurd (f z)
  | inr (a, es', got, _, _) ↦
      let (back, from) = lend-release es (a, es') h.distinct got in
      (
        (a, es'),
        got,
        serialize-eq-wire word a m (fits, from (λ b. b + buf_len < 256 ^ word) h.in_space),
        (==_iff (length (wire word (calculate_len word m))) (serialized_len word m.body)).1
            (length-wire word (calculate_len word m)),
        back,
      )
]

-- The same of all that is done with the message: its bytes are sent, and the entities are as before.
pub transmit_lem :
    (word : ℕ) (m : Msg) (es : List Entity)
    → AreBuffers word es
    → free es ≢ 0
    → serialized_len word m.body ≤ buf_len
    → transmit word m es
      ≡ some (
          ok (record {
            message = calculate_len word m;
            bytes = some (wire word (calculate_len word m));
            entities = es;
          }))
unfolding transmit
transmit_lem word m es h f fits =
    let (p, got, serialized, same, back) = lend-serialize word m es h f fits in
    rw (got, transmit, serialized, same, back) refl
