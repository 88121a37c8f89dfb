-- ===== src/Queue/Linked.antt =====
-- src/xty_queue.h: what the pointers of a queue say of its nodes, and what a store does to that.
use xty.Base.{ℕ, ◌≡◌, ◌≢◌, sym, ◌∙◌, List, [], ◌∷◌, ◌++◌, All, All-append}
use xty.Queue.{Node, sentinel}

module _ {ℓ} {A : Type ℓ} where
  -- After the node at `b` come the nodes at these addresses, and then the sentinel; the pointers
  -- back agree.
  abbrev pub Linked : (ℕ → Node A) → ℕ → List (ℕ × A) → Type 0
  Linked m b [] = ((m b).next ≡ sentinel) × ((m sentinel).prev ≡ b)
  Linked m b (c ∷ cs) = ((m b).next ≡ c.0) × ((m c.0).prev ≡ b) × Linked m c.0 cs

  -- The nodes hold these data.
  abbrev pub Holds : (ℕ → Node A) → List (ℕ × A) → Type ℓ
  Holds m cs = All (λ c. (m c.0).datum ≡ c.1) cs

  -- No node is at this address.
  abbrev pub IsFresh : ℕ → List (ℕ × A) → Type 0
  IsFresh p cs = All (λ c. c.0 ≢ p) cs

  abbrev pub IsDistinct : List (ℕ × A) → Type 0
  IsDistinct [] = Unit
  IsDistinct (c ∷ cs) = IsFresh c.0 cs × IsDistinct cs

  -- The last node, or the start where there is none, is not where neither is.
  pub last-IsFresh :
      (m : ℕ → Node A) (b : ℕ) (cs : List (ℕ × A)) (p : ℕ)
      → Linked m b cs
      → b ≢ p
      → IsFresh p cs
      → (m sentinel).prev ≢ p
  last-IsFresh m b [] p (_, e) bp fresh = λ same. bp (sym e ∙ same)
  last-IsFresh m b (c ∷ cs) p (_, _, linked) bp (apart, fresh) =
      last-IsFresh m c.0 cs p linked apart fresh

  -- A change that leaves alone what leads to the nodes, through them and back.
  pub Linked-frame :
      (m m' : ℕ → Node A) (b p c : ℕ) (cs : List (ℕ × A))
      → Linked m b cs
      → IsFresh p cs
      → IsFresh c cs
      → IsFresh sentinel cs
      → (sentinel ≢ p)
      → (sentinel ≢ c)
      → (m' b).next ≡ (m b).next
      → ((q : ℕ) → q ≢ p → q ≢ sentinel → (m' q).next ≡ (m q).next)
      → ((q : ℕ) → q ≢ p → q ≢ c → (m' q).prev ≡ (m q).prev)
      → Linked m' b cs
  Linked-frame m m' b p c [] (n, e) fp fc fs sp sc start nexts prevs =
      (start ∙ n, prevs sentinel sp sc ∙ e)
  Linked-frame m m' b p c (d ∷ cs) (n, e, linked) fp fc fs sp sc start nexts prevs = (
    start ∙ n,
    prevs d.0 fp.0 fc.0 ∙ e,
    Linked-frame m m' d.0 p c cs linked fp.1 fc.1 fs.1 sp sc (nexts d.0 fp.0 fs.0) nexts prevs,
  )

  -- A new last node.
  pub Linked-snoc :
      (m m' : ℕ → Node A) (b p : ℕ) (x : A) (cs : List (ℕ × A))
      → Linked m b cs
      → IsDistinct cs
      → IsFresh b cs
      → IsFresh p cs
      → IsFresh sentinel cs
      → b ≢ p
      → ((q : ℕ) → q ≢ p → q ≢ (m sentinel).prev → (m' q).next ≡ (m q).next)
      → ((q : ℕ) → q ≢ p → q ≢ sentinel → (m' q).prev ≡ (m q).prev)
      → ((m' (m sentinel).prev).next ≡ p)
      → ((m' p).prev ≡ (m sentinel).prev)
      → ((m' p).next ≡ sentinel)
      → ((m' sentinel).prev ≡ p)
      → Linked m' b (cs ++ ((p, x) ∷ []))
  Linked-snoc m m' b p x [] (n, e) d fb fp fs bp nexts prevs to back on first =
      (rw (sym e) to, back ∙ e, (on, first))
  Linked-snoc m m' b p x (c ∷ cs) (n, e, linked) d fb fp fs bp nexts prevs to back on first = (
    nexts b bp (λ same. last-IsFresh m c.0 cs b linked fb.0 fb.1 (sym same)) ∙ n,
    prevs c.0 fp.0 fs.0 ∙ e,
    Linked-snoc m m' c.0 p x cs linked d.1 d.0 fp.1 fs.1 fp.0 nexts prevs to back on first,
  )

  pub Holds-frame :
      (m m' : ℕ → Node A) (p : ℕ) (cs : List (ℕ × A))
      → Holds m cs
      → IsFresh p cs
      → ((q : ℕ) → q ≢ p → (m' q).datum ≡ (m q).datum)
      → Holds m' cs
  Holds-frame m m' p [] h fresh same = tt
  Holds-frame m m' p (c ∷ cs) (e, h) (apart, fresh) same =
      (same c.0 apart ∙ e, Holds-frame m m' p cs h fresh same)

  pub IsDistinct-snoc :
      (p : ℕ) (x : A) (cs : List (ℕ × A))
      → IsDistinct cs
      → IsFresh p cs
      → IsDistinct (cs ++ ((p, x) ∷ []))
  IsDistinct-snoc p x [] d f = (tt, tt)
  IsDistinct-snoc p x (c ∷ cs) (fc, d) (apart, f) = (
    All-append (λ e. e.0 ≢ c.0) cs ((p, x) ∷ []) fc (λ e. apart (sym e), tt),
    IsDistinct-snoc p x cs d f,
  )
