-- ===== src/MsgQueue/Process.antt =====
-- src/xty_event.cpp and src/xty_msg_queue.cpp, for processes: xtyProcessMsgQueue and
-- xtyProcessEvent, whose Consume tests m_Events before it takes m_Lock.
use xty.Base.{ℕ, suc, ◌-◌, ◌^◌, ◌<◌, ◌≡◌, ◌≢◌, refl, none, some, List, [], ◌∷◌, ◌++◌, length, arith}
use xty.MsgQueue.{Shared, put, produce, consume, take_out}

-- Where a process is. In PushMsg: after EnQueue, and after m_Events++; in PopMsg: at the test of
-- the loop, at the semaphore, past the test, and after m_Events--; or out by the exception of
-- DeQueue, with the queue's m_Lock still held.
pub data Stage : Type 0 where
  outside pushed notifying testing waiting passed consumed thrown : Stage

-- What is shared, and the value of the semaphore
pub record State : Type 0 where
  pub shared : Shared
  pub posts : ℕ
  pub processes : List Stage

abbrev pub at_one : Shared → ℕ → List Stage → Stage → List Stage → State
at_one s n xs t ys = record { shared = s; posts = n; processes = xs ++ (t ∷ ys) }

pub data Step : State → State → Type 0 where
  push :
      (s : Shared) (n : ℕ) (xs ys : List Stage) (m : ℕ)
      → suc (length s.queue) < 2 ^ 32
      → Step (at_one s n xs outside ys) (at_one (put m s) n xs pushed ys)
  count_up :
      (s : Shared) (n : ℕ) (xs ys : List Stage)
      → Step (at_one s n xs pushed ys) (at_one (produce s) n xs notifying ys)
  post :
      (s : Shared) (n : ℕ) (xs ys : List Stage)
      → Step (at_one s n xs notifying ys) (at_one s (suc n) xs outside ys)
  enter :
      (s : Shared) (n : ℕ) (xs ys : List Stage)
      → Step (at_one s n xs outside ys) (at_one s n xs testing ys)
  test_fails :
      (s : Shared) (n : ℕ) (xs ys : List Stage)
      → s.events ≡ 0
      → Step (at_one s n xs testing ys) (at_one s n xs waiting ys)
  wait :
      (s : Shared) (n : ℕ) (xs ys : List Stage)
      → Step (at_one s (suc n) xs waiting ys) (at_one s n xs testing ys)
  test_passes :
      (s : Shared) (n : ℕ) (xs ys : List Stage)
      → s.events ≢ 0
      → Step (at_one s n xs testing ys) (at_one s n xs passed ys)
  count_down :
      (s : Shared) (n : ℕ) (xs ys : List Stage)
      → Step (at_one s n xs passed ys) (at_one (consume s) n xs consumed ys)
  pop :
      (s s' : Shared) (n : ℕ) (xs ys : List Stage)
      → take_out s ≡ some s'
      → Step (at_one s n xs consumed ys) (at_one s' n xs outside ys)
  pop_throws :
      (s : Shared) (n : ℕ) (xs ys : List Stage)
      → take_out s ≡ none
      → Step (at_one s n xs consumed ys) (at_one s n xs thrown ys)

pub data Steps (s : State) : State → Type 0 where
  here : Steps s s
  next : {t u : State} → Steps s t → Step t u → Steps s u

-- One message for two processes: both pass the test before either counts down, m_Events goes
-- below 0 and wraps to 2 ^ 32 - 1, and the second DeQueue throws.
pub two_consumers :
    (m n : ℕ) (sent received : List ℕ) (others : List Stage)
    → Steps
        (record {
          shared = record { queue = m ∷ []; events = 1; sent = sent; received = received };
          posts = n;
          processes = testing ∷ testing ∷ others;
        })
        (record {
          shared = record {
            queue = [];
            events = 2 ^ 32 - 1;
            sent = sent;
            received = received ++ (m ∷ []);
          };
          posts = n;
          processes = outside ∷ thrown ∷ others;
        })
unfolding consume take_out
two_consumers m n sent received others =
    let a : ℕ → List ℕ → List ℕ → Shared =
      λ e q r. record { queue = q; events = e; sent = sent; received = r } in
    let first =
      test_passes (a 1 (m ∷ []) received) n [] (testing ∷ others) (λ e. absurd (omega arith)) in
    let second =
      test_passes (a 1 (m ∷ []) received) n (passed ∷ []) others (λ e. absurd (omega arith)) in
    let down = count_down (a 1 (m ∷ []) received) n [] (passed ∷ others) in
    let below = count_down (a 0 (m ∷ []) received) n (consumed ∷ []) others in
    let out =
      pop (a (2 ^ 32 - 1) (m ∷ []) received) (a (2 ^ 32 - 1) [] (received ++ (m ∷ []))) n []
        (consumed ∷ others) refl in
    let throws =
      pop_throws (a (2 ^ 32 - 1) [] (received ++ (m ∷ []))) n (outside ∷ []) others refl in
    next (next (next (next (next (next here first) second) down) below) out) throws
