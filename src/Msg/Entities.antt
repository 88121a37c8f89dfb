-- ===== src/Msg/Entities.antt =====
-- src/xty_msg_serialization.h and .cpp: the entities of xtyMsgSerializer and xtyMsgDeSerializer,
-- taken by AcquireEntity and given back by ReleaseEntity under m_EntityArrayLock. An entity is
-- told by the address that it hands out, of its buffer or of its message.
use xty.Base.{
  ℕ, zero, suc, ◌+◌, ◌≡◌, ◌≢◌, All, refl, ap, ◌∙◌, Bool, true, false, Option, none, some, List, [],
  ◌∷◌, if◌then◌else◌, ◌==◌, ==_same, ==_apart, arith, Bool-cases, inl, inr, ◌⊎◌,
}
use xty.Msg.{Msg}
use xty.Msg.Stream.{Outcome, ok, thrown, ◌>>=◌}

pub record Entity : Type 0 where
  pub is_occupied : Bool
  pub handle : ℕ

-- The constructors: all free, and no two hand out the same address.
unfoldable pub fresh_entities : ℕ → List Entity
fresh_entities zero = []
fresh_entities (suc n) = record { is_occupied = false; handle = n } ∷ fresh_entities n

-- AcquireEntity: SearchAvailableEntity, and the entity found is marked; its address is handed
-- out. `none`: every entity is occupied, and the caller waits on m_EntityArrayCond. `prepare` is
-- what a deserializing entity does next to its address: it makes a new message.
unfoldable pub acquire : (ℕ → ℕ) → List Entity → Option (ℕ × List Entity)
acquire prepare [] = none
acquire prepare (e ∷ es) =
    let later : Option (ℕ × List Entity) = elim (acquire prepare es) [
      | none ↦ none
      | some (a, es') ↦ some (a, e ∷ es')
    ] in
    if e.is_occupied
    then later
    else some (prepare e.handle, record { is_occupied = true; handle = prepare e.handle } ∷ es)

-- ReleaseEntity: the first entity with this address becomes free.
unfoldable pub release : ℕ → List Entity → List Entity
release a [] = []
release a (e ∷ es) =
    if e.handle == a then record e { is_occupied = false } ∷ es else e ∷ release a es

-- xtyMsgDeSerializer::DeSerialize at a message made at the address `a`, and, where nothing is
-- made, xtyMsgSerializer::Serialize: the entity is acquired, and stays so however the work ends;
-- an exception passes the caller no address to release.
unfoldable pub call {ℓ} :
    {A : Type ℓ} → (ℕ → ℕ) → Outcome A → List Entity → Option (Outcome (ℕ × A) × List Entity)
unfolding acquire
call prepare result es = elim (acquire prepare es) [
  | none ↦ none
  | some (a, es') ↦ some (result >>= λ r. ok (a, r), es')
]

abbrev pub free : List Entity → ℕ
free [] = 0
free (e ∷ es) = (if e.is_occupied then 0 else 1) + free es

-- `n` messages come, and none of them can be read: DeSerialize throws each time. `none`: one of
-- the calls waits for an entity.
unfoldable pub malformed_messages : (ℕ → ℕ) → ℕ → List Entity → Option (List Entity)
malformed_messages prepare zero es = some es
malformed_messages prepare (suc n) es = elim (call {A = Msg} prepare thrown es) [
  | none ↦ none
  | some (result, es') ↦ malformed_messages prepare n es'
]

if-true {ℓ} : {A : Type ℓ} → (b : Bool) (x y : A) → b ≡ true → (if b then x else y) ≡ x
if-true b x y e = rw e refl

if-false {ℓ} : {A : Type ℓ} → (b : Bool) (x y : A) → b ≡ false → (if b then x else y) ≡ y
if-false b x y e = rw e refl

-- AcquireEntity waits exactly where no entity is free. Otherwise it takes one of the free ones,
-- and where no entity had the address that it hands out, ReleaseEntity at that address makes as
-- many free as before.
pub acquire-release :
    (prepare : ℕ → ℕ) (es : List Entity)
    → (acquire prepare es ≡ none) × (free es ≡ 0)
      ⊎ (a : ℕ) × (es' : List Entity) × (acquire prepare es ≡ some (a, es'))
        × (free es ≡ suc (free es'))
        × (All (λ e. e.handle ≢ a) es → free (release a es') ≡ free es)
unfolding acquire release
acquire-release prepare [] = inl (refl, refl)
acquire-release prepare (e ∷ es) = elim (Bool-cases e.is_occupied) [
  | inr idle ↦ inr (
    prepare e.handle,
    record { is_occupied = true; handle = prepare e.handle } ∷ es,
    if-false e.is_occupied _ _ idle,
    rw idle (omega arith),
    λ new.
        ap free (if-true (prepare e.handle == prepare e.handle) _ _ (==_same (prepare e.handle)))
        ∙ (rw idle refl),
  )
  | inl taken ↦ elim (acquire-release prepare es) [
    | inl (wait, z) ↦ inl (if-true e.is_occupied _ _ taken ∙ (rw wait refl), rw taken (omega arith))
    | inr (a, es', got, z, back) ↦ inr (
      a,
      e ∷ es',
      if-true e.is_occupied _ _ taken ∙ (rw got refl),
      rw taken (omega arith),
      λ new.
          ap free (if-false (e.handle == a) _ _ (==_apart e.handle a new.0))
          ∙ ap (λ n. (if e.is_occupied then 0 else 1) + n) (back new.1),
    )
  ]
]

waits : (prepare : ℕ → ℕ) (es : List Entity) → free es ≡ 0 → acquire prepare es ≡ none
waits prepare es z = elim (acquire-release prepare es) [
  | inl (wait, _) ↦ wait
  | inr (a, es', got, s, _) ↦ ground arith
]

-- Every message that DeSerialize throws on keeps an entity: after as many as there are
-- free entities, none is free, and the next call of DeSerialize waits, whatever it is to read.
pub malformed_messages-exhaust :
    (prepare : ℕ → ℕ) (n : ℕ) (es : List Entity)
    → free es ≡ n
    → (es' : List Entity) × (malformed_messages prepare n es ≡ some es')
      × (free es' ≡ 0)
      × ((result : Outcome Msg) → call prepare result es' ≡ none)
unfolding malformed_messages call
malformed_messages-exhaust prepare zero es z =
    (es, refl, z, λ result. rw (waits prepare es z, call) refl)
malformed_messages-exhaust prepare (suc n) es z = elim (acquire-release prepare es) [
  | inl (_, z') ↦ ground arith
  | inr (a, es', got, s, _) ↦
      let (es'', done, none_free, rest) = malformed_messages-exhaust prepare n es' (omega arith) in
      (es'', rw (got, call, malformed_messages) done, none_free, rest)
]

pub fresh_entities-free : (n : ℕ) → free (fresh_entities n) ≡ n
unfolding fresh_entities
fresh_entities-free zero = refl
fresh_entities-free (suc n) = omega (arith, fresh_entities-free n)
