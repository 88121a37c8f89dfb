-- ===== src/Epoll/Linked.antt =====
-- src/xty_msg_server_epoll_job.cpp and src/xty_msg_server.cpp: the entities that the table of the
-- clients points to, while the job on epoll, the message loop and the job that sends take turns.
use xty.Base.{
  ℕ, ◌≡◌, ◌≢◌, refl, ap, sym, ◌∙◌, Bool, true, false, Option, none, some, List, [], ◌∷◌, ◌==◌,
  ==_iff, ==_apart, if◌then◌else◌, Bool-cases, Option-cases, inl, inr, leb,
}
use mathlib.Core.Option.{some-injective}
use xty.Comparable.{Comparable}
use xty.RbTree.Insert.{IsValid}
use xty.RbTree.Remove.{eq_refl, eq_symm}
use xty.Map.{Map, node_comparable, index, assign}
use xty.Map.Laws.{
  or_else, lookup, lookup-index, index-IsValid, lookup-assign, assign-IsValid, lookup-delete_key,
  delete_key-IsValid,
}
use xty.Server.{null, Server, user_ip_port}
use xty.Server.Handlers.{client_at, IsWritten}
use xty.Text.{uint16_places, uint_to_string}
use xty.Epoll.{Job, max_events, without, accept_client, close_client}

unfoldable pub among : ℕ → List ℕ → Bool
among p [] = false
among p (q ∷ qs) = let rest = among p qs in if q == p then true else rest

pub among-without : (p q : ℕ) (xs : List ℕ) → p ≢ q → among p (without q xs) ≡ among p xs
unfolding among without
among-without p q [] h = refl
among-without p q (x ∷ xs) h = elim (Bool-cases (x == q)) [
  | inl e ↦ rw (e, ==_apart x p (λ same. h (sym same ∙ (==_iff x q).0 e))) (among-without p q xs h)
  | inr e ↦ rw e (ap (λ z. if x == p then true else z) (among-without p q xs h))
]

module _ ⦃o : Comparable (List ℕ)⦄ where
  -- Two that are equal to a third one
  eq_common : (k i j : List ℕ) → o.eq k i ≡ true → o.eq k j ≡ true → o.eq i j ≡ true
  eq_common k i j h h' = sym (o.eq_lt k j i h').2 ∙ eq_symm k i h

  abbrev pub address_at : Job → List ℕ → Option ℕ
  address_at s j = lookup null s.server.active_clients j

  -- The table is a valid tree; every entity that it points to is in memory; and no two keys
  -- point to the same one.
  pub record IsLinked (s : Job) : Type 0 where
    pub valid : IsValid s.server.active_clients
    pub points_to_live :
        (j : List ℕ) (p : ℕ) → address_at s j ≡ some p → p ≢ null → among p s.live ≡ true
    pub apart :
        (i j : List ℕ) (p : ℕ)
        → address_at s i ≡ some p
        → address_at s j ≡ some p
        → p ≢ null
        → o.eq i j ≡ true

  some≢none : (p : ℕ) → none ≡ some p → ⊥
  some≢none p e = cc

  -- What the table has after the end of a connection
  pub lookup-close_client :
      (fd : ℕ) (key j : List ℕ) (s : Job)
      → IsValid s.server.active_clients
      → address_at (close_client fd key s) j ≡ (if o.eq key j then none else address_at s j)
  unfolding close_client
  lookup-close_client fd key j s v =
      let table = s.server.active_clients in
      let found = index null table key in
      let v1 = index-IsValid null table key v in
      let cleared = assign null found.1 key null in
      let v2 = assign-IsValid null found.1 key null v1 in
      lookup-delete_key null cleared key j v2 ∙ elim (Bool-cases (o.eq key j)) [
        | inl e ↦ rw e refl
        | inr e ↦ rw e (
            lookup-assign null found.1 key j null v1
            ∙ (rw e ((lookup-index null table key j v).1 ∙ rw e refl)))
      ]

  -- A step on a table that only points to what it pointed to before, at equal keys
  pub IsLinked-same :
      (s s' : Job)
      → IsLinked s
      → s'.live ≡ s.live
      → IsValid s'.server.active_clients
      → ((j : List ℕ) (p : ℕ)
          → address_at s' j ≡ some p
          → p ≢ null
          → (i : List ℕ) × (address_at s i ≡ some p) × (o.eq i j ≡ true))
      → IsLinked s'
  IsLinked-same s s' h live v from = record {
    valid = v;
    points_to_live = λ j p e n.
        let (i, there, _) = from j p e n in ap (among p) live ∙ h.points_to_live i p there n;
    apart = λ j j' p e e' n.
        let (i, there, same) = from j p e n in
        let (i', there', same') = from j' p e' n in
        let both = h.apart i i' p there there' n in
        eq_common i j j' same (sym (o.eq_lt i' j' i same').2 ∙ both);
  }

  pub accept_client-IsLinked :
      (fd entity : ℕ) (ip : List ℕ) (port : ℕ) (s : Job)
      → among entity s.live ≡ false
      → IsLinked s
      → IsLinked (accept_client fd entity ip port s)
  unfolding accept_client
  accept_client-IsLinked fd entity ip port s fresh h =
      elim (Bool-cases (leb max_events s.server.active_clients.node_count)) [
        | inl full ↦ simp full h
        | inr room ↦ simp room (record {
          valid = assign-IsValid null s.server.active_clients key entity h.valid;
          points_to_live = λ j p e n. live j p n (after j ∙ e);
          apart = λ i j p e e' n. unshared i j p n (after i ∙ e) (after j ∙ e');
        })
      ]
    where
      key : List ℕ
      key = user_ip_port ip (uint_to_string uint16_places port)

      table : Map (List ℕ) ℕ
      table = assign null s.server.active_clients key entity

      after :
          (j : List ℕ) → (if o.eq key j then some entity else address_at s j) ≡ lookup null table j
      after j = sym (lookup-assign null s.server.active_clients key j entity h.valid)

      not_fresh : (p : ℕ) → among p s.live ≡ true → p ≢ entity
      not_fresh p there same = true≢false (sym there ∙ ap (λ z. among z s.live) same ∙ fresh)
        where
          true≢false : true ≡ false → ⊥
          true≢false e = cc

      live :
          (j : List ℕ) (p : ℕ)
          → p ≢ null
          → (if o.eq key j then some entity else address_at s j) ≡ some p
          → among p (entity ∷ s.live) ≡ true
      live j p n e =
          unfold among in
          elim (Bool-cases (o.eq key j)) [
            | inl same ↦ rw ((==_iff entity p).1 (some-injective entity p (rw same at e))) refl
            | inr other ↦
                rw (h.points_to_live j p (rw other at e) n)
                  (elim (Bool-cases (entity == p)) [ inl y ↦ rw y refl | inr y ↦ rw y refl ])
          ]

      unshared :
          (i j : List ℕ) (p : ℕ)
          → p ≢ null
          → (if o.eq key i then some entity else address_at s i) ≡ some p
          → (if o.eq key j then some entity else address_at s j) ≡ some p
          → o.eq i j ≡ true
      unshared i j p n e e' = elim (Bool-cases (o.eq key i)) [
        | inl si ↦ elim (Bool-cases (o.eq key j)) [
          | inl sj ↦ eq_common key i j si sj
          | inr oj ↦ absurd (
              not_fresh p (h.points_to_live j p (rw oj at e') n)
                (sym (some-injective entity p (rw si at e))))
        ]
        | inr oi ↦ elim (Bool-cases (o.eq key j)) [
          | inl sj ↦ absurd (
              not_fresh p (h.points_to_live i p (rw oi at e) n)
                (sym (some-injective entity p (rw sj at e'))))
          | inr oj ↦ h.apart i j p (rw oi at e) (rw oj at e') n
        ]
      ]

  -- A key that is left after the end of a connection, and what its entity is not
  pub left_over :
      (fd : ℕ) (key j : List ℕ) (p : ℕ) (s : Job)
      → IsLinked s
      → p ≢ null
      → address_at (close_client fd key s) j ≡ some p
      → (address_at s j ≡ some p) × (p ≢ (index null s.server.active_clients key).0)
  left_over fd key j p s h n e = elim (Bool-cases (o.eq key j)) [
    | inl same ↦
        absurd (some≢none p (rw same at (sym (lookup-close_client fd key j s h.valid) ∙ e)))
    | inr other ↦
        let there : address_at s j ≡ some p =
          rw other at (sym (lookup-close_client fd key j s h.valid) ∙ e) in
        (there, λ equal. other_entity other there (equal ∙ found))
  ]
    where
      found : (index null s.server.active_clients key).0 ≡ or_else null (address_at s key)
      found = (lookup-index null s.server.active_clients key key h.valid).0

      true≢false : true ≡ false → ⊥
      true≢false e = cc

      other_entity :
          o.eq key j ≡ false → address_at s j ≡ some p → p ≡ or_else null (address_at s key) → ⊥
      other_entity other there equal = elim (Option-cases (address_at s key)) [
        | inl missing ↦ n (rw missing at equal)
        | inr (q, present) ↦
            true≢false (
              sym (h.apart key j p (present ∙ ap some (sym (rw present at equal))) there n) ∙ other)
      ]

  pub close_client-IsLinked :
      (fd : ℕ) (key : List ℕ) (s : Job) → IsLinked s → IsLinked (close_client fd key s)
  unfolding close_client
  close_client-IsLinked fd key s h =
      let table = s.server.active_clients in
      let v1 = index-IsValid null table key h.valid in
      let v2 = assign-IsValid null (index null table key).1 key null v1 in
      record {
        valid = delete_key-IsValid null (assign null (index null table key).1 key null) key v2;
        points_to_live = λ j p e n.
            let (there, other) = left_over fd key j p s h n e in
            among-without p (index null table key).0 s.live other ∙ h.points_to_live j p there n;
        apart = λ i j p e e' n.
            h.apart i j p (left_over fd key i p s h n e).0 (left_over fd key j p s h n e').0 n;
      }

  -- What the table points to after the handlers of registration and deregistration
  pub written_from :
      (key name ip port : List ℕ) (s : Job) (server : Server)
      → IsWritten key name ip port s.server server
      → (j : List ℕ) (p : ℕ) → lookup null server.active_clients j ≡ some p
      → p ≢ null
      → (i : List ℕ) × (address_at s i ≡ some p) × (o.eq i j ≡ true)
  written_from key name ip port s server w j p e n = elim (Bool-cases (o.eq key j)) [
    | inl same ↦
        let equal : client_at s.server key ≡ p =
          some-injective (client_at s.server key) p (rw same at (sym (w.table j) ∙ e)) in
        elim (Option-cases (address_at s key)) [
          | inl missing ↦ absurd (n (sym (rw missing at equal)))
          | inr (q, present) ↦ (key, present ∙ ap some (rw present at equal), same)
        ]
    | inr other ↦ (j, rw other at (sym (w.table j) ∙ e), eq_refl j)
  ]
