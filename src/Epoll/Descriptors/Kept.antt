-- ===== src/Epoll/Descriptors/Kept.antt =====
-- src/xty_msg_server_epoll_job.cpp: what is kept at the end of a connection and by the other threads.
use xty.Base.{
  ap₂, ℕ, ◌≡◌, ◌≢◌, refl, ap, sym, subst, ◌∙◌, true, false, none, some, List, ◌==◌, ==_iff,
  Bool-cases, inl, inr, ◌⊎◌,
}
use xty.Comparable.{Comparable}
use xty.Map.{node_comparable}
use xty.Server.{null}
use xty.Epoll.{Job, entries, find_fd, close_client}
use xty.Epoll.Linked.{
  among, among-without, address_at, IsLinked, IsLinked-same, close_client-IsLinked,
  lookup-close_client, left_over,
}
use xty.Epoll.Arrival.{find_fd-lookup}
use xty.Epoll.Steps.{IsKept}
use xty.Epoll.Descriptors.{Stage, idle, closing, close_fd, remove_client, fd_at, IsClosing, IsKeyOf}

module _ ⦃o : Comparable (List ℕ)⦄ where
  -- Both steps are the end of a connection, as one step.
  close_client-eq :
      (fd : ℕ) (key : List ℕ) (s : Job) → close_client fd key s ≡ remove_client key (close_fd fd s)
  unfolding close_client remove_client close_fd
  close_client-eq fd key s = refl

  pub record IsOpen (s : Job) (stage : Stage) : Type 0 where
    pub linked : IsLinked s
    pub is_open :
        (j : List ℕ) (p : ℕ)
        → address_at s j ≡ some p
        → p ≢ null
        → (among (fd_at s p) s.open_fds ≡ true) ⊎ IsClosing stage (fd_at s p)
    pub fds_apart :
        (i j : List ℕ) (p q : ℕ)
        → address_at s i ≡ some p
        → address_at s j ≡ some q
        → p ≢ null
        → q ≢ null
        → fd_at s p ≡ fd_at s q
        → p ≡ q
    pub keyed :
        (j : List ℕ) (p : ℕ) → address_at s j ≡ some p → p ≢ null → IsKeyOf stage j (fd_at s p)

  pub true≢false : true ≡ false → ⊥
  true≢false e = cc

  pub none≢some : (p : ℕ) → none ≡ some p → ⊥
  none≢some p e = cc

  pub shut-IsOpen :
      (fd : ℕ) (key : List ℕ) (s : Job)
      → find_fd s.server.clients fd (entries s.server.active_clients) ≡ some key
      → IsOpen s idle
      → IsOpen (close_fd fd s) (closing fd key)
  unfolding close_fd
  shut-IsOpen fd key s found h =
      let l = h.linked in
      record {
        linked = record { valid = l.valid; points_to_live = l.points_to_live; apart = l.apart };
        is_open = λ j p e n. elim (Bool-cases (fd_at s p == fd)) [
          | inl same ↦ inr ((==_iff (fd_at s p) fd).0 same)
          | inr other ↦ elim (h.is_open j p e n) [
            | inl there_open ↦ inl (
                among-without (fd_at s p) fd s.open_fds
                  (λ z. true≢false (sym ((==_iff (fd_at s p) fd).1 z) ∙ other))
                ∙ there_open)
            | inr never ↦ absurd never
          ]
        ];
        fds_apart = h.fds_apart;
        keyed = λ j p e n same.
            let (q, there, not_null, fd_of) = find_fd-lookup fd key s l.valid found in
            let equal : q ≡ p = h.fds_apart key j q p there e not_null n (fd_of ∙ sym same) in
            l.apart key j p (there ∙ ap some equal) e n;
      }

  left_apart :
      (key j : List ℕ) (p : ℕ) (s : Job)
      → IsLinked s
      → address_at (close_client 0 key s) j ≡ some p
      → o.eq key j ≡ false
  left_apart key j p s h e = elim (Bool-cases (o.eq key j)) [
    | inr other ↦ other
    | inl same ↦ absurd (none≢some p (rw same at (sym (lookup-close_client 0 key j s h.valid) ∙ e)))
  ]

  pub removed-IsOpen :
      (fd : ℕ) (key : List ℕ) (s : Job)
      → IsOpen s (closing fd key)
      → IsOpen (remove_client key s) idle
  unfolding remove_client close_client
  removed-IsOpen fd key s h =
      let l = close_client-IsLinked 0 key s h.linked in
      record {
        linked = record { valid = l.valid; points_to_live = l.points_to_live; apart = l.apart };
        is_open = λ j p e n.
            let (there, _) = left_over 0 key j p s h.linked n e in
            elim (h.is_open j p there n) [
              | inl there_open ↦ inl there_open
              | inr same ↦
                  absurd
                    (true≢false (sym (h.keyed j p there n same) ∙ left_apart key j p s h.linked e))
            ];
        fds_apart = λ i j p q e e' n n'.
            h.fds_apart i j p q (left_over 0 key i p s h.linked n e).0
              (left_over 0 key j q s h.linked n' e').0 n n';
        keyed = λ j p e n. tt;
      }

  pub worked-IsOpen : (s s' : Job) (stage : Stage) → IsKept s s' → IsOpen s stage → IsOpen s' stage
  worked-IsOpen s s' stage k h = record {
    linked = IsLinked-same s s' h.linked k.live k.valid k.pointed;
    is_open = λ j p e n.
        let (i, there, _) = k.pointed j p e n in
        elim (h.is_open i p there n) [
          | inl there_open ↦ inl (ap₂ among (k.same_fd p) k.open_fds ∙ there_open)
          | inr same ↦ inr (subst (IsClosing stage) (sym (k.same_fd p)) same)
        ];
    fds_apart = λ i j p q e e' n n' same.
        let (i', there, _) = k.pointed i p e n in
        let (j', there', _) = k.pointed j q e' n' in
        h.fds_apart i' j' p q there there' n n' (sym (k.same_fd p) ∙ same ∙ k.same_fd q);
    keyed = λ j p e n.
        let (i, there, equal) = k.pointed j p e n in
        subst (IsKeyOf stage j) (sym (k.same_fd p))
          (key_of_equal stage i j (fd_at s p) equal (h.keyed i p there n));
  }
    where
      key_of_equal :
          (stage : Stage) (i j : List ℕ) (q : ℕ)
          → o.eq i j ≡ true
          → IsKeyOf stage i q
          → IsKeyOf stage j q
      key_of_equal idle i j q equal h = tt
      key_of_equal (closing fd key) i j q equal h = λ same. sym (o.eq_lt i j key equal).2 ∙ h same
