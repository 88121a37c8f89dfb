-- ===== src/MsgQueue/Tests.antt =====
-- Runs of the message queues of src/xty_msg_queue.cpp, and the theorems at them.
use xty.Base.{ℕ, refl, inl, List, [], ◌∷◌, arith}
use xty.MsgQueue.{
  Shared, put, produce, consume, outside, pushed, notifying, waiting, consumed, State, push,
  count_up, sleep, count_down, Reachable, start, step,
}
use xty.MsgQueue.Delivery.{IsConsistent, Reachable-IsConsistent}
use xty.MsgQueue.Wakeup.{IsAlert, Reachable-IsAlert}
use xty.MsgQueue.Process
use xty.MsgQueue.Solo

abbrev contents : List ℕ → ℕ → List ℕ → List ℕ → Shared
contents q e s r = record { queue = q; events = e; sent = s; received = r }

abbrev asleep : State
asleep = record { shared = contents [] 0 [] []; threads = outside ∷ waiting ∷ [] }

asleep-Reachable : Reachable 2 asleep
asleep-Reachable =
    step _ asleep start (sleep (contents [] 0 [] []) (outside ∷ []) [] outside (inl refl) refl)

abbrev one_message : State
one_message = record {
  shared = contents (77 ∷ []) 1 (77 ∷ []) [];
  threads = notifying ∷ outside ∷ [];
}

one_message-Reachable : Reachable 2 one_message
unfolding put produce
one_message-Reachable =
    step (record { shared = contents (77 ∷ []) 0 (77 ∷ []) []; threads = pushed ∷ outside ∷ [] })
      one_message (step _ _ start (push (contents [] 0 [] []) [] (outside ∷ []) 77 (omega arith)))
      (count_up (contents (77 ∷ []) 0 (77 ∷ []) []) [] (outside ∷ []))

abbrev claimed : State
claimed = record { shared = contents (77 ∷ []) 0 (77 ∷ []) []; threads = notifying ∷ consumed ∷ [] }

claimed-Reachable : Reachable 2 claimed
unfolding consume
claimed-Reachable = step one_message claimed one_message-Reachable (
    count_down one_message.shared (notifying ∷ []) [] outside (inl refl)
      (λ e. absurd (omega arith)))

Reachable-IsConsistent_example : IsConsistent claimed
Reachable-IsConsistent_example = Reachable-IsConsistent 2 claimed claimed-Reachable

Reachable-IsAlert_example : IsAlert claimed
Reachable-IsAlert_example = Reachable-IsAlert 2 claimed claimed-Reachable

abbrev entered : Process.State
entered = record {
  shared = contents [] 0 [] [];
  posts = 0;
  processes = Process.testing ∷ Process.outside ∷ [];
}

ReachableSolo-IsSolo_example : Solo.IsSolo entered
ReachableSolo-IsSolo_example = Solo.ReachableSolo-IsSolo 2 entered (
    Solo.step _ entered Solo.start (Process.enter (contents [] 0 [] []) 0 [] (Process.outside ∷ []))
      (omega arith))
