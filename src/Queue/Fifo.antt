-- ===== src/Queue/Fifo.antt =====
-- src/xty_queue.h: each method as a change to a list, first in, first out.
use xty.Base.{
  ℕ, ◌+◌, ◌-◌, ◌%◌, ◌^◌, ◌<◌, ◌≡◌, ◌≢◌, refl, sym, ap, subst, ◌∙◌, Bool-cases, inl, inr, none, some,
  List, [], ◌∷◌, ◌++◌, length, length-append, All-append, arith, if◌then◌else◌, ◌==◌, ==_iff,
  ==_same, ==_apart,
}
use xty.Queue.{Node, Queue, null, sentinel, store, set_prev, set_next, clear, enqueue, dequeue}
use xty.Queue.Linked.{
  Linked, Holds, IsFresh, IsDistinct, last-IsFresh, Linked-frame, Linked-snoc, Holds-frame,
  IsDistinct-snoc,
}

module _ {ℓ} {A : Type ℓ} where
  -- The queue is the list of these nodes, by their addresses and data.
  pub record IsQueue (q : Queue A) (cs : List (ℕ × A)) : Type ℓ where
    pub linked : Linked q.memory sentinel cs
    pub holds : Holds q.memory cs
    pub distinct : IsDistinct cs
    pub apart : IsFresh sentinel cs
    pub counted : q.node_count ≡ length cs % 2 ^ 32

  -- Clear, and the constructor, make the empty queue.
  pub clear-IsQueue : (q : Queue A) → IsQueue (clear q) []
  unfolding clear set_prev set_next store
  clear-IsQueue q = record {
    linked = (refl, refl);
    holds = tt;
    distinct = tt;
    apart = tt;
    counted = refl;
  }

  set_prev_datum : (m : ℕ → Node A) (p v c : ℕ) → (set_prev p v m c).datum ≡ (m c).datum
  unfolding set_prev store
  set_prev_datum m p v c = elim (Bool-cases (c == p)) [
    | inl e ↦ rw e (ap (λ q. (m q).datum) (sym ((==_iff c p).0 e)))
    | inr e ↦ rw e refl
  ]

  set_next_datum : (m : ℕ → Node A) (p v c : ℕ) → (set_next p v m c).datum ≡ (m c).datum
  unfolding set_next store
  set_next_datum m p v c = elim (Bool-cases (c == p)) [
    | inl e ↦ rw e (ap (λ q. (m q).datum) (sym ((==_iff c p).0 e)))
    | inr e ↦ rw e refl
  ]

  store_datum :
      (m : ℕ → Node A) (p c : ℕ) (v : Node A)
      → (store p v m c).datum ≡ (if c == p then v.datum else (m c).datum)
  unfolding store
  store_datum m p c v = elim (Bool-cases (c == p)) [ inl e ↦ rw e refl | inr e ↦ rw e refl ]

  -- The memory of EnQueue once the new node is made, and once the last node points to it.
  abbrev made : Queue A → ℕ → A → ℕ → Node A
  made q p x =
      store p (record { datum = x; prev = (q.memory sentinel).prev; next = sentinel }) q.memory

  abbrev pointed : Queue A → ℕ → A → ℕ → Node A
  pointed q p x = set_next (made q p x sentinel).prev p (made q p x)

  enqueue_datum :
      (q : Queue A) (p c : ℕ) (x : A)
      → ((enqueue p x q).memory c).datum ≡ (if c == p then x else (q.memory c).datum)
  unfolding enqueue
  enqueue_datum q p c x =
      set_prev_datum (pointed q p x) sentinel p c
      ∙ set_next_datum (made q p x) (made q p x sentinel).prev p c
      ∙ store_datum q.memory p c
          (record { datum = x; prev = (q.memory sentinel).prev; next = sentinel })

  -- On a queue that is a list of nodes, EnQueue puts the new node after all others, and moves none of them, if the allocator's
  -- address is that of no node in the queue and not the sentinel's.
  pub enqueue-IsQueue :
      (q : Queue A) (p : ℕ) (x : A) (cs : List (ℕ × A))
      → IsQueue q cs
      → IsFresh p cs
      → p ≢ sentinel
      → IsQueue (enqueue p x q) (cs ++ ((p, x) ∷ []))
  unfolding enqueue set_prev set_next store
  enqueue-IsQueue q p x cs h fresh ps = record {
    linked =
        Linked-snoc q.memory (enqueue p x q).memory sentinel p x cs h.linked h.distinct h.apart
          fresh h.apart (λ e. ps (sym e)) (λ c cp cl. (ground arith)) (λ c cp cs'. (ground arith))
          (ground arith) (ground arith)
          (ground (arith, last-IsFresh q.memory sentinel cs p h.linked (λ e. ps (sym e)) fresh))
          (ground arith);
    holds =
        All-append (λ c. ((enqueue p x q).memory c.0).datum ≡ c.1) cs ((p, x) ∷ [])
          (Holds-frame q.memory (enqueue p x q).memory p cs h.holds fresh
            (λ c cp. enqueue_datum q p c x ∙ rw (==_apart c p cp) refl))
          (enqueue_datum q p p x ∙ rw (==_same p) refl, tt);
    distinct = IsDistinct-snoc p x cs h.distinct fresh;
    apart = All-append (λ c. c.0 ≢ sentinel) cs ((p, x) ∷ []) h.apart (ps, tt);
    counted = omega (arith, h.counted, length-append cs ((p, x) ∷ []));
  }

  -- The memory after DeQueue of the node `p`, and before `p` is cut off.
  abbrev unlinked : Queue A → ℕ → ℕ → Node A
  unlinked q p = set_next sentinel (q.memory p).next q.memory

  abbrev bypassed : Queue A → ℕ → ℕ → Node A
  bypassed q p = set_prev (unlinked q p p).next sentinel (unlinked q p)

  abbrev taken : Queue A → ℕ → ℕ → Node A
  taken q p = set_next p null (set_prev p null (bypassed q p))

  taken_datum : (q : Queue A) (p c : ℕ) → (taken q p c).datum ≡ (q.memory c).datum
  taken_datum q p c =
      set_next_datum (set_prev p null (bypassed q p)) p null c
      ∙ set_prev_datum (bypassed q p) p null c
      ∙ set_prev_datum (unlinked q p) (unlinked q p p).next sentinel c
      ∙ set_next_datum q.memory sentinel (q.memory p).next c

  taken-Linked :
      (q : Queue A) (p : ℕ) (x : A) (cs : List (ℕ × A))
      → IsQueue q ((p, x) ∷ cs)
      → Linked (taken q p) sentinel cs
  unfolding set_prev set_next store
  taken-Linked q p x [] h = (ground arith, ground arith)
  taken-Linked q p x (c ∷ cs) h = (
    ground arith,
    ground arith,
    Linked-frame q.memory (taken q p) c.0 p c.0 cs h.linked.2.2 h.distinct.0.1 h.distinct.1.0
        h.apart.1.1 (λ e. h.apart.0 (sym e)) (λ e. h.apart.1.0 (sym e)) (ground arith)
        (λ d dp ds. (ground arith)) (λ d dp dc. (ground arith)),
  )

  taken-Holds : (q : Queue A) (p : ℕ) (cs : List (ℕ × A)) → Holds q.memory cs → Holds (taken q p) cs
  taken-Holds q p [] h = tt
  taken-Holds q p (c ∷ cs) (e, h) = (taken_datum q p c.0 ∙ e, taken-Holds q p cs h)

  abbrev after_dequeue : Queue A → ℕ → Queue A
  after_dequeue q p = record {
    memory = taken q p;
    node_count = (q.node_count + 2 ^ 32 - 1) % 2 ^ 32;
  }

  dequeue-some :
      (q : Queue A) (p : ℕ) (x : A)
      → q.node_count ≢ 0
      → (q.memory sentinel).next ≡ p
      → (q.memory p).datum ≡ x
      → dequeue q ≡ some (x, after_dequeue q p)
  unfolding dequeue
  dequeue-some q p x full first holds =
      subst (λ a. dequeue q ≡ some ((taken q a a).datum, after_dequeue q a)) first
        (rw (==_apart q.node_count 0 full) refl)
      ∙ ap (λ z. some (z, after_dequeue q p)) (taken_datum q p p ∙ holds)

  abbrev pub Dequeues : Queue A → List (ℕ × A) → Type ℓ
  Dequeues q [] = dequeue q ≡ none
  Dequeues q (c ∷ cs) = (q' : Queue A) × (dequeue q ≡ some (c.1, q')) × IsQueue q' cs

  -- On a queue that is a list of nodes, DeQueue answers with the first datum and leaves the nodes after it as they were; on an empty
  -- queue it throws. The queue has fewer than 2 ^ 32 nodes.
  pub dequeue-IsQueue :
      (q : Queue A) (cs : List (ℕ × A)) → IsQueue q cs → length cs < 2 ^ 32 → Dequeues q cs
  unfolding dequeue
  dequeue-IsQueue q [] h small = rw h.counted refl
  dequeue-IsQueue q ((p, x) ∷ cs) h small = (
    after_dequeue q p,
    dequeue-some q p x (λ e. absurd (omega (arith, h.counted))) h.linked.0 h.holds.0,
    record {
      linked = taken-Linked q p x cs h;
      holds = taken-Holds q p cs h.holds.1;
      distinct = h.distinct.1;
      apart = h.apart.1;
      counted = omega (arith, h.counted);
    },
  )
