-- ===== src/MsgQueue/Solo.antt =====
-- src/xty_event.cpp and src/xty_msg_queue.cpp, for processes of which one at a time is in PopMsg:
-- then what Consume has tested is still so when it takes m_Lock.
use xty.Base.{
  ℕ, zero, suc, ◌+◌, ◌^◌, ◌<◌, ◌≤◌, ◌≡◌, refl, sym, ap, ◌∙◌, total, total-append, total-move,
  List-cases, inl, inr, some, List, [], ◌∷◌, ◌++◌, append_assoc, length, length-append, arith,
  subst,
}
use xty.MsgQueue.{Shared, put, produce, consume, take_out}
use xty.MsgQueue.Delivery.{take_out_cases}
use xty.MsgQueue.Process.{
  Stage, outside, pushed, notifying, testing, waiting, passed, consumed, thrown, State, at_one,
  Step, push, count_up, post, enter, test_fails, wait, test_passes, count_down, pop, pop_throws,
}

-- A process in PopMsg
abbrev pub pops : Stage → ℕ
pops t = elim t [ testing ↦ 1 | waiting ↦ 1 | passed ↦ 1 | consumed ↦ 1 | thrown ↦ 1 | _ ↦ 0 ]

abbrev owed : Stage → ℕ
owed t = elim t [ pushed ↦ 1 | consumed ↦ 1 | _ ↦ 0 ]

abbrev past : Stage → ℕ
past t = elim t [ passed ↦ 1 | _ ↦ 0 ]

abbrev lost : Stage → ℕ
lost t = elim t [ thrown ↦ 1 | _ ↦ 0 ]

past_le : (ts : List Stage) → total past ts ≤ total pops ts
past_le [] = omega arith
past_le (outside ∷ ts) = omega (arith, past_le ts)
past_le (pushed ∷ ts) = omega (arith, past_le ts)
past_le (notifying ∷ ts) = omega (arith, past_le ts)
past_le (testing ∷ ts) = omega (arith, past_le ts)
past_le (waiting ∷ ts) = omega (arith, past_le ts)
past_le (passed ∷ ts) = omega (arith, past_le ts)
past_le (consumed ∷ ts) = omega (arith, past_le ts)
past_le (thrown ∷ ts) = omega (arith, past_le ts)

abbrev pub all_outside : ℕ → List Stage
all_outside zero = []
all_outside (suc n) = outside ∷ all_outside n

-- What is reached while at most one process is in PopMsg
pub data ReachableSolo (k : ℕ) : State → Type 0 where
  start : ReachableSolo k (record {
    shared = record { queue = []; events = 0; sent = []; received = [] };
    posts = 0;
    processes = all_outside k;
  })
  step :
      (s t : State) → ReachableSolo k s → Step s t → total pops t.processes ≤ 1 → ReachableSolo k t

pub record IsSolo (s : State) : Type 0 where
  pub counts : length s.shared.queue ≡ s.shared.events + total owed s.processes
  pub small : length s.shared.queue < 2 ^ 32
  pub order : s.shared.sent ≡ s.shared.received ++ s.shared.queue
  pub tested : total past s.processes ≤ s.shared.events
  pub one : total pops s.processes ≤ 1
  pub none_lost : total lost s.processes ≡ 0

-- A step in which only the stage of one process changes.
stay :
    (s : Shared) (n n' : ℕ) (xs ys : List Stage) (from to : Stage)
    → IsSolo (at_one s n xs from ys)
    → owed from ≡ owed to
    → lost from ≡ lost to
    → total pops (xs ++ (to ∷ ys)) ≤ 1
    → total past (xs ++ (to ∷ ys)) ≤ s.events
    → IsSolo (at_one s n' xs to ys)
stay s n n' xs ys from to h o l one past = record {
  counts = omega (arith, h.counts, o, total-move owed xs ys from to);
  small = h.small;
  order = h.order;
  tested = past;
  one = one;
  none_lost = omega (arith, h.none_lost, l, total-move lost xs ys from to);
}

Step-IsSolo : {s t : State} → Step s t → total pops t.processes ≤ 1 → IsSolo s → IsSolo t
unfolding put produce consume take_out
Step-IsSolo (push s n xs ys m fits) one h = record {
  counts =
      omega (arith, h.counts, total-move owed xs ys outside pushed, length-append s.queue (m ∷ []));
  small = omega (arith, length-append s.queue (m ∷ []));
  order = rw h.order (append_assoc s.received s.queue (m ∷ []));
  tested = omega (arith, h.tested, total-move past xs ys outside pushed);
  one = one;
  none_lost = omega (arith, h.none_lost, total-move lost xs ys outside pushed);
}
Step-IsSolo (count_up s n xs ys) one h =
    let more = total-append owed xs (pushed ∷ ys) in
    record {
      counts = omega (arith, h.counts, h.small, more, total-move owed xs ys pushed notifying);
      small = h.small;
      order = h.order;
      tested =
          omega (arith, h.counts, h.small, h.tested, more, total-move past xs ys pushed notifying);
      one = one;
      none_lost = omega (arith, h.none_lost, total-move lost xs ys pushed notifying);
    }
Step-IsSolo (post s n xs ys) one h =
    stay s n (suc n) xs ys notifying outside h refl refl one
      (omega (arith, h.tested, total-move past xs ys notifying outside))
Step-IsSolo (enter s n xs ys) one h =
    stay s n n xs ys outside testing h refl refl one
      (omega (arith, h.tested, total-move past xs ys outside testing))
Step-IsSolo (test_fails s n xs ys z) one h =
    stay s n n xs ys testing waiting h refl refl one
      (omega (arith, h.tested, total-move past xs ys testing waiting))
Step-IsSolo (wait s n xs ys) one h =
    stay s (suc n) n xs ys waiting testing h refl refl one
      (omega (arith, h.tested, total-move past xs ys waiting testing))
Step-IsSolo (test_passes s n xs ys nonzero) one h =
    stay s n n xs ys testing passed h refl refl one
      (ground (arith, one, past_le (xs ++ (passed ∷ ys))))
Step-IsSolo (count_down s n xs ys) one h =
    let some_past = total-append past xs (passed ∷ ys) in
    record {
      counts =
          omega
            (arith, h.counts, h.small, h.tested, some_past, total-move owed xs ys passed consumed);
      small = h.small;
      order = h.order;
      tested = omega (
        arith,
        h.one,
        h.tested,
        h.counts,
        h.small,
        some_past,
        past_le (xs ++ (passed ∷ ys)),
        total-move past xs ys passed consumed,
      );
      one = one;
      none_lost = omega (arith, h.none_lost, total-move lost xs ys passed consumed);
    }
Step-IsSolo (pop s s' n xs ys e) one h =
    let (m, rest, q, same) = take_out_cases s s' e in
    subst (λ z. IsSolo (at_one z n xs outside ys)) (sym same)
      (record {
        counts = omega (
          arith,
          h.counts,
          ap length q,
          total-append owed xs (consumed ∷ ys),
          total-move owed xs ys consumed outside,
        );
        small = omega (arith, h.small, ap length q);
        order = h.order ∙ ap (λ z. s.received ++ z) q ∙ sym (append_assoc s.received (m ∷ []) rest);
        tested = omega (arith, h.tested, total-move past xs ys consumed outside);
        one = one;
        none_lost = omega (arith, h.none_lost, total-move lost xs ys consumed outside);
      })
Step-IsSolo (pop_throws s n xs ys e) one h = elim (List-cases s.queue) [
  | inl z ↦ absurd (omega (arith, h.counts, ap length z, total-append owed xs (consumed ∷ ys)))
  | inr (m, rest, z) ↦
      let taken : take_out s ≡ some (record s { queue = rest; received = s.received ++ (m ∷ []) }) =
        rw (z, take_out) refl in
      cc
]

outside_total : (w : Stage → ℕ) (k : ℕ) → w outside ≡ 0 → total w (all_outside k) ≡ 0
outside_total w zero z = refl
outside_total w (suc k) z = omega (arith, z, outside_total w k z)

-- While at most one process at a time is in PopMsg: the messages that went in are those that came
-- out and those in the queue, in order, m_Events counts those that no process holds a claim to,
-- and no DeQueue has thrown.
pub ReachableSolo-IsSolo : (k : ℕ) (s : State) → ReachableSolo k s → IsSolo s
ReachableSolo-IsSolo k s start = record {
  counts = omega (arith, outside_total owed k refl);
  small = omega arith;
  order = refl;
  tested = omega (arith, outside_total past k refl);
  one = omega (arith, outside_total pops k refl);
  none_lost = outside_total lost k refl;
}
ReachableSolo-IsSolo k s (step s0 s1 r st one) = Step-IsSolo st one (ReachableSolo-IsSolo k s0 r)
