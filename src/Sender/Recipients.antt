-- ===== src/Sender/Recipients.antt =====
-- src/xty_msg_server_send_job.cpp, line 46: which clients a data message is for.
use xty.Base.{
  length, arith, ◌≤◌, ◌+◌, ◌↔◌, ◌⊎◌, true, false, arith, ℕ, ◌≡◌, refl, sym, ◌∙◌, List, [], ◌∷◌,
  ◌==◌, if◌then◌else◌, Bool-cases, inl, inr,
}
use xty.Comparable.Strings.{string_eq_sound, string_eq_complete}
use xty.Map.{MapNode}
use xty.Server.{ClientEntity, null}
use xty.Sender.{is_for}

-- Whether a client has registered with this IP and this name
abbrev pub IsRecipient : (to_ip to_name : List ℕ) → ClientEntity → Type 0
IsRecipient to_ip to_name c = (c.client_ip ≡ to_ip) × (c.client_name ≡ to_name)

is_for_iff :
    (to_ip to_name : List ℕ) (c : ClientEntity)
    → (is_for to_ip to_name c ≡ true) ↔ IsRecipient to_ip to_name c
is_for_iff to_ip to_name c = (
  λ e. (
    string_eq_sound c.client_ip to_ip (ground (arith, e)),
    string_eq_sound c.client_name to_name (ground (arith, e)),
  ),
  λ h.
      let ip = string_eq_complete c.client_ip to_ip h.0 in
      let name = string_eq_complete c.client_name to_name h.1 in rw (ip, name) refl,
)

pub is_recipient : (to_ip to_name : List ℕ) (c : ClientEntity) → Dec (IsRecipient to_ip to_name c)
is_recipient to_ip to_name c = elim (Bool-cases (is_for to_ip to_name c)) [
  | inl e ↦ yes ((is_for_iff to_ip to_name c).0 e)
  | inr e ↦ no (λ h. true≢false (sym ((is_for_iff to_ip to_name c).1 h) ∙ e))
]
  where
    true≢false : true ≡ false → ⊥
    true≢false e = cc

abbrev pub add_if {ℓ} : {P : Type ℓ} → Dec P → ClientEntity → List ClientEntity → List ClientEntity
add_if (yes _) c cs = c ∷ cs
add_if (no _) c cs = cs

-- The clients of the table that have registered with this IP and this name
abbrev pub recipients :
    (clients : ℕ → ClientEntity) (to_ip to_name : List ℕ)
    → List (MapNode (List ℕ) ℕ)
    → List ClientEntity
recipients clients to_ip to_name [] = []
recipients clients to_ip to_name (n ∷ ns) =
    let rest = recipients clients to_ip to_name ns in
    if n.value == null
    then rest
    else add_if (is_recipient to_ip to_name (clients n.value)) (clients n.value) rest

add_if_yes :
    {P : Type 0} (d : Dec P) (c : ClientEntity) (cs : List ClientEntity)
    → P
    → add_if d c cs ≡ c ∷ cs
add_if_yes (yes _) c cs h = refl
add_if_yes (no n) c cs h = absurd (n h)

add_if_no :
    {P : Type 0} (d : Dec P) (c : ClientEntity) (cs : List ClientEntity)
    → (P → ⊥)
    → add_if d c cs ≡ cs
add_if_no (yes h) c cs n = absurd (n h)
add_if_no (no _) c cs n = refl

pub for_cases :
    (to_ip to_name : List ℕ) (c : ClientEntity)
    → ((is_for to_ip to_name c ≡ true)
        × ((cs : List ClientEntity) → add_if (is_recipient to_ip to_name c) c cs ≡ c ∷ cs))
      ⊎ ((is_for to_ip to_name c ≡ false)
          × ((cs : List ClientEntity) → add_if (is_recipient to_ip to_name c) c cs ≡ cs))
for_cases to_ip to_name c = elim (Bool-cases (is_for to_ip to_name c)) [
  | inl e ↦
      inl
        (e, λ cs. add_if_yes (is_recipient to_ip to_name c) c cs ((is_for_iff to_ip to_name c).0 e))
  | inr e ↦ inr (
    e,
    λ cs.
        add_if_no (is_recipient to_ip to_name c) c cs
          (λ h. true≢false (sym ((is_for_iff to_ip to_name c).1 h) ∙ e)),
  )
]
  where
    true≢false : true ≡ false → ⊥
    true≢false e = cc

length-add_if :
    {P : Type 0} (d : Dec P) (c : ClientEntity) (cs : List ClientEntity)
    → length (add_if d c cs) ≤ length cs + 1
length-add_if (yes _) c cs = omega arith
length-add_if (no _) c cs = omega arith

pub length-recipients :
    (clients : ℕ → ClientEntity) (to_ip to_name : List ℕ) (ns : List (MapNode (List ℕ) ℕ))
    → length (recipients clients to_ip to_name ns) ≤ length ns
length-recipients clients to_ip to_name [] = omega arith
length-recipients clients to_ip to_name (n ∷ ns) =
    let later = length-recipients clients to_ip to_name ns in
    let c = clients n.value in
    let one =
      length-add_if (is_recipient to_ip to_name c) c (recipients clients to_ip to_name ns) in
    elim (Bool-cases (n.value == null)) [
      | inl z ↦ rw z (omega (arith, later))
      | inr z ↦ rw z (omega (arith, later, one))
    ]
