-- ===== src/MsgQueue.antt =====
-- src/xty_event.cpp and src/xty_msg_queue.cpp, for threads: xtyThreadMsgQueue and xtyThreadEvent.
-- What a thread does under one mutex is one step. The queue is the list that Queue.Fifo shows it
-- to be; messages are told by their addresses.
pub mod Delivery
pub mod Wakeup
pub mod Process
pub mod Solo
mod Tests
use xty.Base.{
  ℕ, zero, suc, ◌+◌, ◌-◌, ◌%◌, ◌^◌, ◌<◌, ◌≡◌, ◌≢◌, refl, Bool, true, false, Option, none, some,
  List, [], ◌∷◌, ◌++◌, length, total, ◌⊎◌,
}

-- What the mutexes guard: m_MsgQueue and m_Events, an `unsigned int`; and, for what is to be
-- said of them, the messages put in and taken out so far.
pub record Shared : Type 0 where
  pub queue : List ℕ
  pub events : ℕ
  pub sent : List ℕ
  pub received : List ℕ

-- m_MsgQueue.EnQueue, in PushMsg
unfoldable pub put : ℕ → Shared → Shared
put m s = record s { queue = s.queue ++ (m ∷ []); sent = s.sent ++ (m ∷ []) }

-- m_Events++, in Produce
unfoldable pub produce : Shared → Shared
produce s = record s { events = (s.events + 1) % 2 ^ 32 }

-- m_Events--, in Consume
unfoldable pub consume : Shared → Shared
consume s = record s { events = (s.events + 2 ^ 32 - 1) % 2 ^ 32 }

-- m_MsgQueue.DeQueue, in PopMsg; `none` is the exception XTY_EMPTY_QUEUE.
unfoldable pub take_out : Shared → Option Shared
take_out s = elim s.queue [
  | [] ↦ none
  | m ∷ rest ↦ some (record s { queue = rest; received = s.received ++ (m ∷ []) })
]

-- Where a thread is. In PushMsg: after EnQueue, and after m_Events++; in PopMsg: waiting on the
-- condition, woken from it, and after m_Events--.
pub data Stage : Type 0 where
  outside pushed notifying waiting awake consumed : Stage

pub record State : Type 0 where
  pub shared : Shared
  pub threads : List Stage

abbrev pub waits : Stage → ℕ
waits t = elim t [ waiting ↦ 1 | _ ↦ 0 ]

-- One thread takes a step of PushMsg or of PopMsg, while the others stay where they are. The
-- queue has fewer than 2 ^ 32 nodes.
pub data Step : State → State → Type 0 where
  push :
      (s : Shared) (xs ys : List Stage) (m : ℕ)
      → suc (length s.queue) < 2 ^ 32
      → Step
          (record { shared = s; threads = xs ++ (outside ∷ ys) })
          (record { shared = put m s; threads = xs ++ (pushed ∷ ys) })
  count_up :
      (s : Shared) (xs ys : List Stage)
      → Step
          (record { shared = s; threads = xs ++ (pushed ∷ ys) })
          (record { shared = produce s; threads = xs ++ (notifying ∷ ys) })
  -- WakeUp, where no thread waits, or wakes one that does
  wake_none :
      (s : Shared) (xs ys : List Stage)
      → total waits (xs ++ (notifying ∷ ys)) ≡ 0
      → Step
          (record { shared = s; threads = xs ++ (notifying ∷ ys) })
          (record { shared = s; threads = xs ++ (outside ∷ ys) })
  wake_after :
      (s : Shared) (xs ys zs : List Stage)
      → Step
          (record { shared = s; threads = xs ++ (notifying ∷ (ys ++ (waiting ∷ zs))) })
          (record { shared = s; threads = xs ++ (outside ∷ (ys ++ (awake ∷ zs))) })
  wake_before :
      (s : Shared) (xs ys zs : List Stage)
      → Step
          (record { shared = s; threads = xs ++ (waiting ∷ (ys ++ (notifying ∷ zs))) })
          (record { shared = s; threads = xs ++ (awake ∷ (ys ++ (outside ∷ zs))) })
  -- a condition variable may wake a thread without a WakeUp
  wake_spuriously :
      (s : Shared) (xs ys : List Stage)
      → Step
          (record { shared = s; threads = xs ++ (waiting ∷ ys) })
          (record { shared = s; threads = xs ++ (awake ∷ ys) })
  -- the test of Consume, at its start and after each Wait
  sleep :
      (s : Shared) (xs ys : List Stage) (from : Stage)
      → (from ≡ outside) ⊎ (from ≡ awake)
      → s.events ≡ 0
      → Step
          (record { shared = s; threads = xs ++ (from ∷ ys) })
          (record { shared = s; threads = xs ++ (waiting ∷ ys) })
  count_down :
      (s : Shared) (xs ys : List Stage) (from : Stage)
      → (from ≡ outside) ⊎ (from ≡ awake)
      → s.events ≢ 0
      → Step
          (record { shared = s; threads = xs ++ (from ∷ ys) })
          (record { shared = consume s; threads = xs ++ (consumed ∷ ys) })
  pop :
      (s s' : Shared) (xs ys : List Stage)
      → take_out s ≡ some s'
      → Step
          (record { shared = s; threads = xs ++ (consumed ∷ ys) })
          (record { shared = s'; threads = xs ++ (outside ∷ ys) })

abbrev pub repeat_outside : ℕ → List Stage
repeat_outside zero = []
repeat_outside (suc n) = outside ∷ repeat_outside n

-- The states that are reached from a new queue and threads that have not called it yet.
pub data Reachable (n : ℕ) : State → Type 0 where
  start : Reachable n (record {
    shared = record { queue = []; events = 0; sent = []; received = [] };
    threads = repeat_outside n;
  })
  step : (s s' : State) → Reachable n s → Step s s' → Reachable n s'
