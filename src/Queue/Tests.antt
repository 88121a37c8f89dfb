-- ===== src/Queue/Tests.antt =====
-- Runs of the queue of src/xty_queue.h, and the theorems at them.
use xty.Base.{ℕ, ◌≡◌, refl, some, List, [], ◌∷◌, ◌++◌, arith}
use xty.Comparable.{nat_comparable}
use xty.Queue.{Queue, store, set_prev, set_next, clear, enqueue, search, search_from}
use xty.Queue.Fifo.{IsQueue, Dequeues, clear-IsQueue, enqueue-IsQueue, dequeue-IsQueue}

-- Memory that no constructor has run on, and the empty queue in it.
abbrev raw : Queue ℕ
raw = record { memory = λ _. record { datum = 0; prev = 7; next = 9 }; node_count = 3 }

abbrev nodes : List (ℕ × ℕ)
nodes = (10, 4) ∷ (20, 5) ∷ []

two_nodes-IsQueue : IsQueue (enqueue 20 5 (enqueue 10 4 (clear raw))) nodes
two_nodes-IsQueue =
    enqueue-IsQueue (enqueue 10 4 (clear raw)) 20 5 ((10, 4) ∷ [])
      (enqueue-IsQueue (clear raw) 10 4 [] (clear-IsQueue raw) tt (λ e. absurd (omega arith)))
      ((λ e. absurd (omega arith)), tt) (λ e. absurd (omega arith))

enqueue-IsQueue_example :
    IsQueue (enqueue 30 6 (enqueue 20 5 (enqueue 10 4 (clear raw)))) (nodes ++ ((30, 6) ∷ []))
enqueue-IsQueue_example =
    enqueue-IsQueue (enqueue 20 5 (enqueue 10 4 (clear raw))) 30 6 nodes two_nodes-IsQueue
      ((λ e. absurd (omega arith)), ((λ e. absurd (omega arith)), tt)) (λ e. absurd (omega arith))

dequeue-IsQueue_example : Dequeues (enqueue 20 5 (enqueue 10 4 (clear raw))) nodes
dequeue-IsQueue_example =
    dequeue-IsQueue (enqueue 20 5 (enqueue 10 4 (clear raw))) nodes two_nodes-IsQueue (omega arith)

run : search 2 (enqueue 20 5 (enqueue 10 4 (clear raw))) 5 ≡ some 20
unfolding search search_from enqueue clear set_prev set_next store
run = refl
