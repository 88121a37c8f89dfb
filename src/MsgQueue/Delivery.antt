-- ===== src/MsgQueue/Delivery.antt =====
-- src/xty_msg_queue.cpp, for threads: every message arrives once and in order, and no DeQueue is
-- called on an empty queue.
use xty.Base.{
  total, total-append, total-move, List-cases, ℕ, zero, suc, ◌+◌, ◌^◌, ◌<◌, ◌≡◌, refl, sym, ap, ◌∙◌,
  inl, inr, ◌⊎◌, none, some, List, [], ◌∷◌, ◌++◌, append_assoc, length, length-append, arith, subst,
}
use mathlib.Core.Option.{some-injective}
use xty.MsgQueue.{
  Shared, put, produce, consume, take_out, Stage, outside, pushed, notifying, waiting, awake,
  consumed, State, Step, push, count_up, wake_none, wake_after, wake_before, wake_spuriously, sleep,
  count_down, pop, repeat_outside, Reachable, start, step,
}

-- Messages that are in the queue and not in m_Events: one for each thread at these two stages.
abbrev pub owed : Stage → ℕ
owed t = elim t [ pushed ↦ 1 | consumed ↦ 1 | _ ↦ 0 ]

pub record IsConsistent (s : State) : Type 0 where
  pub counts : length s.shared.queue ≡ s.shared.events + total owed s.threads
  pub small : length s.shared.queue < 2 ^ 32
  pub order : s.shared.sent ≡ s.shared.received ++ s.shared.queue

-- A step in which threads change their stages only.
stay :
    (s : Shared) (ts us : List Stage)
    → total owed us ≡ total owed ts
    → IsConsistent (record { shared = s; threads = ts })
    → IsConsistent (record { shared = s; threads = us })
stay s ts us e h = record { counts = omega (arith, h.counts); small = h.small; order = h.order }

not_owed : (from : Stage) → (from ≡ outside) ⊎ (from ≡ awake) → owed from ≡ 0
not_owed from (inl e) = rw e refl
not_owed from (inr e) = rw e refl

pub take_out_cases :
    (s s' : Shared)
    → take_out s ≡ some s'
    → (m : ℕ) × (rest : List ℕ) × (s.queue ≡ m ∷ rest)
      × (s' ≡ record s { queue = rest; received = s.received ++ (m ∷ []) })
unfolding take_out
take_out_cases s s' e = elim (List-cases s.queue) [
  | inl z ↦ let thrown : take_out s ≡ none = rw (z, take_out) refl in cc
  | inr (m, rest, z) ↦
      let taken : take_out s ≡ some (record s { queue = rest; received = s.received ++ (m ∷ []) }) =
        rw (z, take_out) refl in
      (m, rest, z, some-injective _ _ (sym e ∙ taken))
]

pub Step-IsConsistent : {s s' : State} → Step s s' → IsConsistent s → IsConsistent s'
unfolding put produce consume
Step-IsConsistent (push s xs ys m fits) h = record {
  counts =
      omega (arith, h.counts, total-move owed xs ys outside pushed, length-append s.queue (m ∷ []));
  small = omega (arith, length-append s.queue (m ∷ []));
  order = rw h.order (append_assoc s.received s.queue (m ∷ []));
}
Step-IsConsistent (count_up s xs ys) h = record {
  counts = omega (
    arith,
    h.counts,
    h.small,
    total-append owed xs (pushed ∷ ys),
    total-move owed xs ys pushed notifying,
  );
  small = h.small;
  order = h.order;
}
Step-IsConsistent (wake_none s xs ys none_waits) h =
    stay s (xs ++ (notifying ∷ ys)) (xs ++ (outside ∷ ys))
      (omega (arith, total-move owed xs ys notifying outside)) h
Step-IsConsistent (wake_after s xs ys zs) h =
    stay s (xs ++ (notifying ∷ (ys ++ (waiting ∷ zs)))) (xs ++ (outside ∷ (ys ++ (awake ∷ zs))))
      (omega (
        arith,
        total-append owed xs (notifying ∷ (ys ++ (waiting ∷ zs))),
        total-append owed xs (outside ∷ (ys ++ (awake ∷ zs))),
        total-move owed ys zs waiting awake,
      ))
      h
Step-IsConsistent (wake_before s xs ys zs) h =
    stay s (xs ++ (waiting ∷ (ys ++ (notifying ∷ zs)))) (xs ++ (awake ∷ (ys ++ (outside ∷ zs))))
      (omega (
        arith,
        total-append owed xs (waiting ∷ (ys ++ (notifying ∷ zs))),
        total-append owed xs (awake ∷ (ys ++ (outside ∷ zs))),
        total-move owed ys zs notifying outside,
      ))
      h
Step-IsConsistent (wake_spuriously s xs ys) h =
    stay s (xs ++ (waiting ∷ ys)) (xs ++ (awake ∷ ys))
      (omega (arith, total-move owed xs ys waiting awake)) h
Step-IsConsistent (sleep s xs ys from at z) h =
    stay s (xs ++ (from ∷ ys)) (xs ++ (waiting ∷ ys))
      (omega (arith, not_owed from at, total-move owed xs ys from waiting)) h
Step-IsConsistent (count_down s xs ys from at some_event) h = record {
  counts = omega (
    arith,
    h.counts,
    h.small,
    not_owed from at,
    total-append owed xs (from ∷ ys),
    total-move owed xs ys from consumed,
  );
  small = h.small;
  order = h.order;
}
Step-IsConsistent (pop s s' xs ys e) h =
    let (m, rest, q, same) = take_out_cases s s' e in
    subst (λ z. IsConsistent (record { shared = z; threads = xs ++ (outside ∷ ys) })) (sym same)
      (record {
        counts = omega (
          arith,
          h.counts,
          ap length q,
          total-append owed xs (consumed ∷ ys),
          total-move owed xs ys consumed outside,
        );
        small = omega (arith, h.small, ap length q);
        order = h.order ∙ ap (λ z. s.received ++ z) q ∙ sym (append_assoc s.received (m ∷ []) rest);
      })

pub repeat_outside_lem : (w : Stage → ℕ) (n : ℕ) → w outside ≡ 0 → total w (repeat_outside n) ≡ 0
repeat_outside_lem w zero z = refl
repeat_outside_lem w (suc n) z = omega (arith, z, repeat_outside_lem w n z)

-- Whatever the order in which the threads take their steps, while the queue has fewer than 2 ^ 32
-- nodes: the messages that went in are those
-- that came out and those in the queue, in that order, and the queue holds as many as m_Events
-- counts and as there are threads between the two.
pub Reachable-IsConsistent : (n : ℕ) (s : State) → Reachable n s → IsConsistent s
Reachable-IsConsistent n s start = record {
  counts = omega (arith, repeat_outside_lem owed n refl);
  small = omega arith;
  order = refl;
}
Reachable-IsConsistent n s (step s0 s1 r st) = Step-IsConsistent st (Reachable-IsConsistent n s0 r)

-- A thread that Consume has let through finds a message: its DeQueue does not throw, however many
-- threads call PopMsg.
pub Reachable-take_out :
    (n : ℕ) (s : Shared) (xs ys : List Stage)
    → Reachable n (record { shared = s; threads = xs ++ (consumed ∷ ys) })
    → (s' : Shared) × (take_out s ≡ some s')
unfolding take_out
Reachable-take_out n s xs ys r =
    let h = Reachable-IsConsistent n (record { shared = s; threads = xs ++ (consumed ∷ ys) }) r in
    elim (List-cases s.queue) [
      | inl z ↦ absurd (omega (arith, h.counts, ap length z, total-append owed xs (consumed ∷ ys)))
      | inr (m, rest, z) ↦
          (record s { queue = rest; received = s.received ++ (m ∷ []) }, rw (z, take_out) refl)
    ]
