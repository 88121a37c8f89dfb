-- ===== src/Queue/Search.antt =====
-- src/xty_queue.h, Search: the loop ends at the sentinel, and finds the first node.
use xty.Base.{
  ℕ, zero, suc, ◌≤◌, ◌≡◌, refl, Bool-cases, inl, inr, Option, none, some, List, [], ◌∷◌, length,
  arith, if◌then◌else◌, ==_apart,
}
use xty.Comparable.{Comparable}
use xty.Queue.{Node, Queue, sentinel, search_from, search}
use xty.Queue.Linked.{Linked, Holds, IsFresh}
use xty.Queue.Fifo.{IsQueue}

module _ {ℓ} {A : Type ℓ} ⦃o : Comparable A⦄ where
  -- The address of the first of these nodes with an equal datum
  abbrev pub first_address : A → List (ℕ × A) → Option ℕ
  first_address x [] = none
  first_address x (c ∷ cs) = if o.eq c.1 x then some c.0 else first_address x cs

  search_from_lem :
      (fuel : ℕ) (m : ℕ → Node A) (b : ℕ) (x : A) (cs : List (ℕ × A))
      → Linked m b cs
      → Holds m cs
      → IsFresh sentinel cs
      → length cs ≤ fuel
      → search_from (suc fuel) m (m b).next x ≡ first_address x cs
  unfolding search_from
  search_from_lem fuel m b x [] (n, e) h f le = rw n refl
  search_from_lem zero m b x (c ∷ cs) linked h f le = absurd (omega arith)
  search_from_lem (suc fuel) m b x (c ∷ cs) (n, e, linked) (d, h) (apart, f) le =
      elim (Bool-cases (o.eq c.1 x)) [
        | inl e ↦ rw (n, ==_apart c.0 sentinel apart, d, e) refl
        | inr e ↦
            rw (n, ==_apart c.0 sentinel apart, d, e)
              (search_from_lem fuel m c.0 x cs linked h f (omega arith))
      ]

  -- On a queue that is a list of nodes, Search ends, and answers with the first node whose datum is equal, or with NULL if there is
  -- none; fuel for as many rounds as there are nodes, and one, is enough.
  pub search_lem :
      (fuel : ℕ) (q : Queue A) (x : A) (cs : List (ℕ × A))
      → IsQueue q cs
      → length cs ≤ fuel
      → search fuel q x ≡ first_address x cs
  unfolding search
  search_lem fuel q x cs h le =
      search_from_lem fuel q.memory sentinel x cs h.linked h.holds h.apart le
