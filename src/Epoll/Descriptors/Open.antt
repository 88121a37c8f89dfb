-- ===== src/Epoll/Descriptors/Open.antt =====
-- src/xty_msg_server_epoll_job.cpp: which descriptors of the table are open.
use xty.Base.{
  ℕ, ◌≡◌, ◌≢◌, refl, ap, sym, ◌∙◌, true, false, some, List, ◌∷◌, ◌==◌, ==_iff, ==_same, ==_apart,
  Bool-cases, inl, inr, ◌⊎◌, leb,
}
use mathlib.Core.Option.{some-injective}
use xty.Comparable.{Comparable}
use xty.RbTree.{empty, search, search_from}
use xty.Map.{node_comparable, assign}
use xty.Map.Laws.{lookup, lookup-assign}
use xty.Server.{ClientEntity, null, at_client, user_ip_port}
use xty.Text.{uint16_places, uint_to_string}
use xty.Epoll.{Job, max_events, new_client, accept_client}
use xty.Epoll.Linked.{among, address_at, IsLinked, accept_client-IsLinked}
use xty.Epoll.Steps.{Work-IsKept, started-IsLinked}
use xty.Epoll.Descriptors.{
  Stage, idle, fd_at, Turn, accepted, shut, removed, worked, Running, start, turn,
}
use xty.Epoll.Descriptors.Kept.{
  IsOpen, true≢false, none≢some, shut-IsOpen, removed-IsOpen, worked-IsOpen,
}

at_client_there :
    (q p : ℕ) (f : ClientEntity → ClientEntity) (m : ℕ → ClientEntity)
    → p ≡ q
    → at_client q f m p ≡ f (m p)
unfolding at_client
at_client_there q p f m e = rw ((==_iff p q).1 e) refl

at_client_elsewhere :
    (q p : ℕ) (f : ClientEntity → ClientEntity) (m : ℕ → ClientEntity)
    → p ≢ q
    → at_client q f m p ≡ m p
unfolding at_client
at_client_elsewhere q p f m n = rw (==_apart p q n) refl

module _ ⦃o : Comparable (List ℕ)⦄ where
  -- An address that the table has after a connection: the new entity, or another that it had before
  came_from :
      (fd entity : ℕ) (key j : List ℕ) (p : ℕ) (s : Job)
      → among entity s.live ≡ false
      → IsLinked s
      → p ≢ null
      → lookup null (assign null s.server.active_clients key entity) j ≡ some p
      → (p ≡ entity) ⊎ ((address_at s j ≡ some p) × (p ≢ entity))
  came_from fd entity key j p s fresh h n e =
      let e' = sym (lookup-assign null s.server.active_clients key j entity h.valid) ∙ e in
      elim (Bool-cases (o.eq key j)) [
        | inl same ↦ inl (sym (some-injective entity p (rw same at e')))
        | inr other ↦
            let there : address_at s j ≡ some p = rw other at e' in
            inr (
              there,
              λ equal.
                  true≢false
                    (sym (h.points_to_live j p there n) ∙ ap (λ z. among z s.live) equal ∙ fresh),
            )
      ]

  among-more : (p q : ℕ) (xs : List ℕ) → among p xs ≡ true → among p (q ∷ xs) ≡ true
  unfolding among
  among-more p q xs h = rw h (elim (Bool-cases (q == p)) [ inl e ↦ rw e refl | inr e ↦ rw e refl ])

  accepted-IsOpen :
      (fd entity : ℕ) (ip : List ℕ) (port : ℕ) (s : Job)
      → among entity s.live ≡ false
      → among fd s.open_fds ≡ false
      → IsOpen s idle
      → IsOpen (accept_client fd entity ip port s) idle
  unfolding accept_client
  accepted-IsOpen fd entity ip port s fresh unused h =
      let l = accept_client-IsLinked fd entity ip port s fresh h.linked in
      elim (Bool-cases (leb max_events s.server.active_clients.node_count)) [
        | inl full ↦ simp full h
        | inr room ↦
            let l' = rw (room, accept_client) at l in
            simp room (record {
              linked = record {
                valid = l'.valid;
                points_to_live = l'.points_to_live;
                apart = l'.apart;
              };
              is_open = λ j p e n. elim (from j p n e) [
                | inl new ↦ inl (ap (λ z. among z (fd ∷ s.open_fds)) (fd_new p new) ∙ first)
                | inr (there, old) ↦ elim (h.is_open j p there n) [
                  | inl there_open ↦ inl (
                      ap (λ z. among z (fd ∷ s.open_fds)) (fd_old p old)
                      ∙ among-more (fd_at s p) fd s.open_fds there_open)
                  | inr never ↦ absurd never
                ]
              ];
              fds_apart = λ i j p q e e' n n' same. elim (from i p n e) [
                | inl new ↦ elim (from j q n' e') [
                  | inl new' ↦ new ∙ sym new'
                  | inr (there', old') ↦
                      absurd
                        (not_new j q there' n' (sym (sym (fd_new p new) ∙ same ∙ fd_old q old')))
                ]
                | inr (there, old) ↦ elim (from j q n' e') [
                  | inl new' ↦
                      absurd (not_new i p there n (sym (fd_old p old) ∙ same ∙ fd_new q new'))
                  | inr (there', old') ↦
                      h.fds_apart i j p q there there' n n'
                        (sym (fd_old p old) ∙ same ∙ fd_old q old')
                ]
              ];
              keyed = λ j p e n. tt;
            })
      ]
    where
      key : List ℕ
      key = user_ip_port ip (uint_to_string uint16_places port)

      from :
          (j : List ℕ) (p : ℕ)
          → p ≢ null
          → lookup null (assign null s.server.active_clients key entity) j ≡ some p
          → (p ≡ entity) ⊎ ((address_at s j ≡ some p) × (p ≢ entity))
      from j p n e = came_from fd entity key j p s fresh h.linked n e

      new_fd : ℕ → ℕ
      new_fd p = (at_client entity (λ _. new_client fd) s.server.clients p).client_fd

      first : among fd (fd ∷ s.open_fds) ≡ true
      first = unfold among in rw (==_same fd) refl

      fd_new : (p : ℕ) → p ≡ entity → new_fd p ≡ fd
      fd_new p e =
          ap (λ z. z.client_fd) (at_client_there entity p (λ _. new_client fd) s.server.clients e)

      fd_old : (p : ℕ) → p ≢ entity → new_fd p ≡ fd_at s p
      fd_old p n =
          ap (λ z. z.client_fd)
            (at_client_elsewhere entity p (λ _. new_client fd) s.server.clients n)

      not_new : (j : List ℕ) (p : ℕ) → address_at s j ≡ some p → p ≢ null → fd_at s p ≡ fd → ⊥
      not_new j p e n same = elim (h.is_open j p e n) [
        | inl there_open ↦ true≢false (sym there_open ∙ ap (λ z. among z s.open_fds) same ∙ unused)
        | inr never ↦ never
      ]

  Turn-IsOpen :
      (s s' : Job) (stage stage' : Stage)
      → Turn s stage s' stage'
      → IsOpen s stage
      → IsOpen s' stage'
  Turn-IsOpen _ _ _ _ (accepted fd entity ip port s fresh unused) h =
      accepted-IsOpen fd entity ip port s fresh unused h
  Turn-IsOpen _ _ _ _ (shut fd key s found) h = shut-IsOpen fd key s found h
  Turn-IsOpen _ _ _ _ (removed fd key s) h = removed-IsOpen fd key s h
  Turn-IsOpen _ _ _ _ (worked s s' stage w) h =
      worked-IsOpen s s' stage (Work-IsKept s s' w h.linked) h

  -- In every state that the server's threads reach, however they take turns: the descriptor of each
  -- entity that the table points to is open, unless it is the one that the job on epoll has just
  -- closed; different entities of the table have different descriptors; and the key that the job
  -- takes out of the table next is the one whose entity has the closed descriptor. The system
  -- gives accept a descriptor that is not open, and a new entity is at an address that none in
  -- memory has.
  pub Running-IsOpen : (s : Job) (stage : Stage) → Running s stage → IsOpen s stage
  Running-IsOpen _ _ (start clients messages entities) = record {
    linked = started-IsLinked clients messages entities;
    is_open = λ j p e n. absurd (nothing j p e);
    fds_apart = λ i j p q e e' n n' same. absurd (nothing i p e);
    keyed = λ j p e n. tt;
  }
    where
      nothing : (j : List ℕ) (p : ℕ) → lookup null empty j ≡ some p → ⊥
      nothing j p e = none≢some p (unfold lookup search search_from in e)
  Running-IsOpen _ _ (turn s s' stage stage' r one) =
      Turn-IsOpen s s' stage stage' one (Running-IsOpen s stage r)
