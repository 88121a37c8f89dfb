-- ===== src/Epoll/Descriptors.antt =====
-- src/xty_msg_server_epoll_job.cpp, lines 178 to 197: the descriptors of the clients, while the end of
-- a connection is two steps: `close`, and then what is done under m_ClientTableLock.
pub mod Kept
pub mod Open
use xty.Base.{ℕ, ◌≡◌, ◌≢◌, true, false, some, List, if◌then◌else◌, ◌==◌}
use xty.Comparable.{Comparable}
use xty.Map.{node_comparable, index, assign, delete_key}
use xty.Msg.{Msg}
use xty.Msg.Entities.{Entity}
use xty.Server.{ClientEntity, null}
use xty.Epoll.{Job, without, entries, find_fd, accept_client}
use xty.Epoll.Linked.{among}
use xty.Epoll.Steps.{Work, started}

-- Where the job on epoll stands: between two events, or at the end of a connection, after `close` of
-- the descriptor and before its key is taken out of the table.
pub data Stage : Type 0 where
  idle : Stage
  closing : ℕ → List ℕ → Stage

unfoldable pub close_fd : ℕ → Job → Job
unfolding without
close_fd fd s = record s { open_fds = without fd s.open_fds }

module _ ⦃o : Comparable (List ℕ)⦄ where
  unfoldable pub remove_client : List ℕ → Job → Job
  unfolding without
  remove_client key s =
      let found = index null s.server.active_clients key in
      let cleared = assign null found.1 key null in
      record s {
        server = record s.server { active_clients = delete_key null cleared key };
        live = without found.0 s.live;
      }

  abbrev pub fd_at : Job → ℕ → ℕ
  fd_at s p = (s.server.clients p).client_fd

  -- What the threads do, with where the job on epoll stands. accept gives a descriptor that is not
  -- open, and only this job opens or closes one. The search for the key and `close` are one
  -- step, since nothing else changes a descriptor of the table.
  pub data Turn : Job → Stage → Job → Stage → Type 0 where
    accepted :
        (fd entity : ℕ) (ip : List ℕ) (port : ℕ) (s : Job)
        → among entity s.live ≡ false
        → among fd s.open_fds ≡ false
        → Turn s idle (accept_client fd entity ip port s) idle
    shut :
        (fd : ℕ) (key : List ℕ) (s : Job)
        → find_fd s.server.clients fd (entries s.server.active_clients) ≡ some key
        → Turn s idle (close_fd fd s) (closing fd key)
    removed : (fd : ℕ) (key : List ℕ) (s : Job) → Turn s (closing fd key) (remove_client key s) idle
    worked : (s s' : Job) (stage : Stage) → Work s s' → Turn s stage s' stage

  pub data Running : Job → Stage → Type 0 where
    start :
        (clients : ℕ → ClientEntity) (messages : ℕ → Msg) (entities : List Entity)
        → Running (started clients messages entities) idle
    turn :
        (s s' : Job) (stage stage' : Stage)
        → Running s stage
        → Turn s stage s' stage'
        → Running s' stage'

  abbrev pub IsClosing : Stage → ℕ → Type 0
  IsClosing idle fd = ⊥
  IsClosing (closing fd' key) fd = fd ≡ fd'

  abbrev pub IsKeyOf : Stage → List ℕ → ℕ → Type 0
  IsKeyOf idle j fd = Unit
  IsKeyOf (closing fd' key) j fd = fd ≡ fd' → o.eq key j ≡ true
