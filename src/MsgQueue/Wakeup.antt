-- ===== src/MsgQueue/Wakeup.antt =====
-- src/xty_event.cpp, for threads: no wake-up is lost, though Produce wakes after it has unlocked.
use xty.Base.{
  total, total-append, total-move, List-cases, ℕ, ◌≤◌, ◌≡◌, ◌≢◌, refl, sym, ap, inl, inr, ◌⊎◌, [],
  ◌∷◌, ◌++◌, length, arith, subst,
}
use xty.MsgQueue.{
  put, produce, consume, Stage, outside, pushed, notifying, waiting, awake, consumed, State, waits,
  Step, push, count_up, wake_none, wake_after, wake_before, wake_spuriously, sleep, count_down, pop,
  Reachable, start, step,
}
use xty.MsgQueue.Delivery.{owed, IsConsistent, Reachable-IsConsistent, take_out_cases}

-- Threads that are about to take an event, or to wake one that will.
abbrev pub alert : Stage → ℕ
alert t = elim t [ notifying ↦ 1 | awake ↦ 1 | _ ↦ 0 ]

-- While a thread waits, each event is on its way to a thread.
abbrev pub IsAlert : State → Type 0
IsAlert s = (total waits s.threads ≡ 0) ⊎ (s.shared.events ≤ total alert s.threads)

not_waiting : (from : Stage) → (from ≡ outside) ⊎ (from ≡ awake) → waits from ≡ 0
not_waiting from (inl e) = rw e refl
not_waiting from (inr e) = rw e refl

alert_lem : (t : Stage) → alert t ≤ 1
alert_lem outside = omega arith
alert_lem pushed = omega arith
alert_lem notifying = omega arith
alert_lem waiting = omega arith
alert_lem awake = omega arith
alert_lem consumed = omega arith

Step-IsAlert : {s s' : State} → Step s s' → IsConsistent s → IsAlert s → IsAlert s'
unfolding put produce consume
Step-IsAlert (push s xs ys m fits) h a =
    ground (arith, total-move waits xs ys outside pushed, total-move alert xs ys outside pushed)
Step-IsAlert (count_up s xs ys) h a = ground (
  arith,
  h.counts,
  h.small,
  total-append owed xs (pushed ∷ ys),
  total-move waits xs ys pushed notifying,
  total-move alert xs ys pushed notifying,
)
Step-IsAlert (wake_none s xs ys z) h a =
    inl (omega (arith, total-move waits xs ys notifying outside))
Step-IsAlert (wake_after s xs ys zs) h a = ground (
  arith,
  total-append waits xs (notifying ∷ (ys ++ (waiting ∷ zs))),
  total-append waits xs (outside ∷ (ys ++ (awake ∷ zs))),
  total-move waits ys zs waiting awake,
  total-append alert xs (notifying ∷ (ys ++ (waiting ∷ zs))),
  total-append alert xs (outside ∷ (ys ++ (awake ∷ zs))),
  total-move alert ys zs waiting awake,
)
Step-IsAlert (wake_before s xs ys zs) h a = ground (
  arith,
  total-append waits xs (waiting ∷ (ys ++ (notifying ∷ zs))),
  total-append waits xs (awake ∷ (ys ++ (outside ∷ zs))),
  total-move waits ys zs notifying outside,
  total-append alert xs (waiting ∷ (ys ++ (notifying ∷ zs))),
  total-append alert xs (awake ∷ (ys ++ (outside ∷ zs))),
  total-move alert ys zs notifying outside,
)
Step-IsAlert (wake_spuriously s xs ys) h a =
    ground (arith, total-move waits xs ys waiting awake, total-move alert xs ys waiting awake)
Step-IsAlert (sleep s xs ys from at z) h a = inr (omega (arith, z))
Step-IsAlert (count_down s xs ys from at some_event) h a = ground (
  arith,
  h.counts,
  h.small,
  not_waiting from at,
  alert_lem from,
  total-move waits xs ys from consumed,
  total-move alert xs ys from consumed,
)
Step-IsAlert (pop s s' xs ys e) h a =
    let (m, rest, q, same) = take_out_cases s s' e in
    subst (λ t. IsAlert (record { shared = t; threads = xs ++ (outside ∷ ys) })) (sym same)
      (ground
        (arith, total-move waits xs ys consumed outside, total-move alert xs ys consumed outside))

-- No wake-up is lost: in every state that is reached, if a thread waits in Consume, then for each
-- event there is a thread that has been woken for it or one that is about to wake a thread.
pub Reachable-IsAlert : (n : ℕ) (s : State) → Reachable n s → IsAlert s
Reachable-IsAlert n s start = inr (omega arith)
Reachable-IsAlert n s (step s0 s1 r st) =
    Step-IsAlert st (Reachable-IsConsistent n s0 r) (Reachable-IsAlert n s0 r)

-- When nobody is at work and a thread still waits, there is no message for it: no thread is about
-- to enter or leave an event, none has been woken, and the queue is empty.
pub Reachable-empty :
    (n : ℕ) (s : State)
    → Reachable n s
    → total waits s.threads ≢ 0
    → total alert s.threads ≡ 0
    → total owed s.threads ≡ 0
    → s.shared.queue ≡ []
Reachable-empty n s r some_wait quiet settled = elim (List-cases s.shared.queue) [
  | inl z ↦ z
  | inr (m, rest, e) ↦ elim (Reachable-IsAlert n s r) [
    | inl z ↦ absurd (some_wait z)
    | inr le ↦
        absurd
          (omega (arith, (Reachable-IsConsistent n s r).counts, ap length e, le, quiet, settled))
  ]
]
