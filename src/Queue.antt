-- ===== src/Queue.antt =====
-- src/xty_queue.h: xtyQueue, a doubly linked list of nodes in memory. A node's address is a
-- number; m_Sentinel is a node like the others, at an address of its own.
pub mod Linked
pub mod Fifo
pub mod Search
mod Tests
use xty.Base.{ℕ, zero, suc, ◌+◌, ◌-◌, ◌%◌, ◌^◌, Bool, Option, none, some, if◌then◌else◌, ◌==◌}
use xty.Comparable.{Comparable}

-- xtyQueueNode
pub record Node {ℓ} (A : Type ℓ) : Type ℓ where
  pub datum : A
  pub prev : ℕ
  pub next : ℕ

-- NULL, and &m_Sentinel
abbrev pub null : ℕ
null = 0

abbrev pub sentinel : ℕ
sentinel = 1

-- The memory where the nodes are, and m_NodeCount, an `unsigned int`.
pub record Queue {ℓ} (A : Type ℓ) : Type ℓ where
  pub memory : ℕ → Node A
  pub node_count : ℕ

module _ {ℓ} {A : Type ℓ} where
  -- A store to a node, to its m_pPrev and to its m_pNext
  unfoldable pub store : ℕ → Node A → (ℕ → Node A) → ℕ → Node A
  store p v m q = if q == p then v else m q

  unfoldable pub set_prev : ℕ → ℕ → (ℕ → Node A) → ℕ → Node A
  unfolding store
  set_prev p v m = store p (record (m p) { prev = v }) m

  unfoldable pub set_next : ℕ → ℕ → (ℕ → Node A) → ℕ → Node A
  unfolding store
  set_next p v m = store p (record (m p) { next = v }) m

  -- Clear, and the constructor, which does the same to the sentinel.
  unfoldable pub clear : Queue A → Queue A
  unfolding set_prev set_next
  clear q = record {
    memory = set_next sentinel sentinel (set_prev sentinel sentinel q.memory);
    node_count = 0;
  }

  -- EnQueue, where m_pAlloc->Allocate answered with the address `p`
  unfoldable pub enqueue : ℕ → A → Queue A → Queue A
  unfolding store set_prev set_next
  enqueue p x q =
      let last = (q.memory sentinel).prev in
      let m = store p (record { datum = x; prev = last; next = sentinel }) q.memory in
      let m' = set_next (m sentinel).prev p m in
      record { memory = set_prev sentinel p m'; node_count = (q.node_count + 1) % 2 ^ 32 }

  -- DeQueue; `none` is the exception XTY_EMPTY_QUEUE.
  unfoldable pub dequeue : Queue A → Option (A × Queue A)
  unfolding set_prev set_next
  dequeue q =
      let p = (q.memory sentinel).next in
      let m = set_next sentinel (q.memory p).next q.memory in
      let m' = set_prev (m p).next sentinel m in
      let m'' = set_next p null (set_prev p null m') in
      if q.node_count == 0
      then none
      else some (
        (m'' p).datum,
        record { memory = m''; node_count = (q.node_count + 2 ^ 32 - 1) % 2 ^ 32 },
      )

module _ {ℓ} {A : Type ℓ} ⦃o : Comparable A⦄ where
  -- The loop of Search, on fuel, from a node on; `none` is NULL.
  unfoldable pub search_from : ℕ → (ℕ → Node A) → ℕ → A → Option ℕ
  search_from zero m p x = none
  search_from (suc fuel) m p x =
      let rest = search_from fuel m (m p).next x in
      if p == sentinel then none else (if o.eq (m p).datum x then some p else rest)

  -- Search; no queue has more nodes than `fuel`.
  unfoldable pub search : ℕ → Queue A → A → Option ℕ
  unfolding search_from
  search fuel q x = search_from (suc fuel) q.memory (q.memory sentinel).next x
