-- ===== src/Epoll/Steps.antt =====
-- src/xty_msg_server_epoll_job.cpp, src/xty_msg_server.cpp and src/xty_msg_server_send_job.cpp: the
-- server's threads take turns, by steps of what each does under m_ClientTableLock.
use xty.Base.{
  true, Bool-cases, not, ◌&&◌, ◌==◌, if◌then◌else◌, ℕ, ◌≡◌, ◌≢◌, false, refl, ap, sym, ◌∙◌, subst,
  none, some, List, [], Option-cases, inl, inr, length,
}
use mathlib.Core.Option.{some-injective}
use xty.Comparable.{Comparable}
use xty.RbTree.{empty, search, search_from}
use xty.RbTree.Insert.{IsValid, empty-IsValid}
use xty.RbTree.Remove.{eq_refl}
use xty.Map.{node_comparable}
use xty.Map.Laws.{lookup}
use xty.Msg.{Msg, reg, dereg, data_for}
use xty.Msg.Stream.{Outcome, ok, thrown, fault}
use xty.Msg.Wire.{buf_len, deserialize}
use xty.Msg.Entities.{Entity, acquire, release}
use xty.Conf.{read_buf}
use xty.Loop.Safe.{ok_injective}
use xty.Server.{
  ClientEntity, null, Server, handle_reg, handle_dereg, handle_data, user_ip_port, invalid,
}
use xty.Server.Handlers.{IsWritten, client_at, handle_reg_lem, handle_dereg_lem}
use xty.Epoll.{Job, accept_client, close_client, keep_msg, receive_msg}
use xty.Epoll.Linked.{
  among, address_at, IsLinked, IsLinked-same, accept_client-IsLinked, close_client-IsLinked,
  written_from,
}

abbrev IsSameTable : Job → Job → Type 0
IsSameTable s s' =
    (s'.server.active_clients ≡ s.server.active_clients)
    × (s'.server.clients ≡ s.server.clients)
    × (s'.live ≡ s.live)
    × (s'.open_fds ≡ s.open_fds)

-- A message that is received leaves the table and the entities alone.
keep_msg_lem :
    (address : ℕ) (s s' : Job) (made : Outcome Msg)
    → keep_msg address s made ≡ ok s'
    → IsSameTable s s'
unfolding keep_msg
keep_msg_lem address s s' (ok m) e = (
  ap (λ z. z.server.active_clients) (sym (ok_injective _ s' e)),
  ap (λ z. z.server.clients) (sym (ok_injective _ s' e)),
  ap (λ z. z.live) (sym (ok_injective _ s' e)),
  ap (λ z. z.open_fds) (sym (ok_injective _ s' e)),
)
keep_msg_lem address s s' thrown e = (
  ap (λ z. z.server.active_clients) (sym (ok_injective s s' e)),
  ap (λ z. z.server.clients) (sym (ok_injective s s' e)),
  ap (λ z. z.live) (sym (ok_injective s s' e)),
  ap (λ z. z.open_fds) (sym (ok_injective s s' e)),
)
keep_msg_lem address s s' fault e = cc

received_lem :
    (word buffer : ℕ) (prepare : ℕ → ℕ) (bytes : List ℕ) (s s' : Job)
    → receive_msg word buffer prepare bytes s ≡ some (ok s')
    → IsSameTable s s'
unfolding receive_msg
received_lem word buffer prepare bytes s s' e =
    elim (Option-cases (acquire prepare s.server.entities)) [
      | inl waits ↦ absurd (none≢some (rw (waits, receive_msg) at e))
      | inr (taken, got) ↦
          keep_msg_lem taken.0 (record s { server = record s.server { entities = taken.1 } }) s'
            (deserialize word buffer (read_buf buf_len bytes) (length bytes))
            (some-injective _ _ (rw (got, receive_msg) at e))
    ]
  where
    none≢some : none ≡ some (ok s') → ⊥
    none≢some h = cc

module _ ⦃o : Comparable (List ℕ)⦄ where
  -- What leaves the connections as they are: a message that is received; one that the loop handles; and
  -- the release of an entity of m_pDeSerializer, by the job that sends.
  pub data Work : Job → Job → Type 0 where
    received :
        (word buffer : ℕ) (prepare : ℕ → ℕ) (bytes : List ℕ) (s s' : Job)
        → receive_msg word buffer prepare bytes s ≡ some (ok s')
        → Work s s'
    registered :
        (address : ℕ) (name ip port : List ℕ) (s : Job) (server : Server)
        → handle_reg address (reg name ip port) s.server ≡ ok server
        → Work s (record s { server = server })
    deregistered :
        (address : ℕ) (name ip port : List ℕ) (s : Job) (server : Server)
        → handle_dereg address (dereg name ip port) s.server ≡ ok server
        → Work s (record s { server = server })
    passed_on :
        (address : ℕ) (to_ip to_name content : List ℕ) (s : Job) (server : Server)
        → handle_data address (data_for to_ip to_name content) s.server ≡ ok server
        → Work s (record s { server = server })
    released :
        (address : ℕ) (s : Job)
        → Work s
            (record s { server = record s.server { entities = release address s.server.entities } })

  -- What the threads of the server do to its state: also a new connection, at a new entity; and the
  -- end of one, whose key the job has found before.
  pub data Step : Job → Job → Type 0 where
    accepted :
        (fd entity : ℕ) (ip : List ℕ) (port : ℕ) (s : Job)
        → entity ≢ null
        → among entity s.live ≡ false
        → Step s (accept_client fd entity ip port s)
    closed : (fd : ℕ) (key : List ℕ) (s : Job) → Step s (close_client fd key s)
    worked : (s s' : Job) → Work s s' → Step s s'

  abbrev pub started : (ℕ → ClientEntity) → (ℕ → Msg) → List Entity → Job
  started clients messages entities = record {
    server = record {
      active_clients = empty;
      clients = clients;
      entities = entities;
      send_queue = record { queue = []; events = 0; sent = []; received = [] };
    };
    recv_queue = record { queue = []; events = 0; sent = []; received = [] };
    messages = messages;
    live = [];
    open_fds = [];
  }

  -- The states that are reached from the server's start, by the steps in any order
  pub data Reachable : Job → Type 0 where
    start :
        (clients : ℕ → ClientEntity) (messages : ℕ → Msg) (entities : List Entity)
        → Reachable (started clients messages entities)
    step : (s s' : Job) → Reachable s → Step s s' → Reachable s'

  passed_on_lem :
      (address : ℕ) (to_ip to_name content : List ℕ) (s server : Server)
      → handle_data address (data_for to_ip to_name content) s ≡ ok server
      → (server.active_clients ≡ s.active_clients) × (server.clients ≡ s.clients)
  unfolding handle_data
  passed_on_lem address to_ip to_name content s server e = (
    ap (λ z. z.active_clients) (sym (ok_injective _ server e)),
    ap (λ z. z.clients) (sym (ok_injective _ server e)),
  )

  -- After some work: nothing that the table points to is new, and the descriptors are as they were.
  pub record IsKept (s s' : Job) : Type 0 where
    pub valid : IsValid s'.server.active_clients
    pub pointed :
        (j : List ℕ) (p : ℕ)
        → address_at s' j ≡ some p
        → p ≢ null
        → (i : List ℕ) × (address_at s i ≡ some p) × (o.eq i j ≡ true)
    pub same_fd : (p : ℕ) → (s'.server.clients p).client_fd ≡ (s.server.clients p).client_fd
    pub live : s'.live ≡ s.live
    pub open_fds : s'.open_fds ≡ s.open_fds

  IsKept-unchanged :
      (s s' : Job)
      → IsLinked s
      → s'.server.active_clients ≡ s.server.active_clients
      → s'.server.clients ≡ s.server.clients
      → s'.live ≡ s.live
      → s'.open_fds ≡ s.open_fds
      → IsKept s s'
  IsKept-unchanged s s' h table clients live open_fds = record {
    valid = subst IsValid (sym table) h.valid;
    pointed = λ j p e n. (j, ap (λ z. lookup null z j) (sym table) ∙ e, eq_refl j);
    same_fd = λ p. ap (λ z. (z p).client_fd) clients;
    live = live;
    open_fds = open_fds;
  }

  IsKept-written :
      (key name ip port : List ℕ) (s : Job) (server : Server)
      → IsWritten key name ip port s.server server
      → IsKept s (record s { server = server })
  IsKept-written key name ip port s server w = record {
    valid = w.valid;
    pointed = written_from key name ip port s server w;
    same_fd = λ p. ap (λ z. z.client_fd) (w.written p) ∙ both p;
    live = refl;
    open_fds = refl;
  }
    where
      both :
          (p : ℕ)
          → (if (p == client_at s.server key) && not (client_at s.server key == null)
              then record (s.server.clients p) {
                client_name = name;
                client_ip = ip;
                client_port = port;
              }
              else s.server.clients p).client_fd
            ≡ (s.server.clients p).client_fd
      both p =
          elim (Bool-cases
            ((p == client_at s.server key) && not (client_at s.server key == null))) [
              | inl e ↦ rw e refl
              | inr e ↦ rw e refl
            ]

  pub Work-IsKept : (s s' : Job) → Work s s' → IsLinked s → IsKept s s'
  Work-IsKept _ _ (received word buffer prepare bytes s s' e) h =
      let (table, clients, live, open_fds) = received_lem word buffer prepare bytes s s' e in
      IsKept-unchanged s s' h table clients live open_fds
  Work-IsKept _ _ (registered address name ip port s server e) h =
      let (server', handled, w, _) = handle_reg_lem address name ip port s.server h.valid in
      subst (λ z. IsKept s (record s { server = z }))
        (ok_injective server' server (sym handled ∙ e))
        (IsKept-written (user_ip_port ip port) name ip port s server' w)
  Work-IsKept _ _ (deregistered address name ip port s server e) h =
      let (server', handled, w, _) = handle_dereg_lem address name ip port s.server h.valid in
      subst (λ z. IsKept s (record s { server = z }))
        (ok_injective server' server (sym handled ∙ e))
        (IsKept-written (user_ip_port ip port) invalid invalid invalid s server' w)
  Work-IsKept _ _ (passed_on address to_ip to_name content s server e) h =
      let (table, clients) = passed_on_lem address to_ip to_name content s.server server e in
      IsKept-unchanged s (record s { server = server }) h table clients refl refl
  Work-IsKept _ _ (released address s) h = IsKept-unchanged s _ h refl refl refl refl

  -- The steps keep the tables as they are to be.
  Step-IsLinked : (s s' : Job) → Step s s' → IsLinked s → IsLinked s'
  Step-IsLinked _ _ (accepted fd entity ip port s _ fresh) h =
      accept_client-IsLinked fd entity ip port s fresh h
  Step-IsLinked _ _ (closed fd key s) h = close_client-IsLinked fd key s h
  Step-IsLinked _ _ (worked s s' w) h =
      let k = Work-IsKept s s' w h in IsLinked-same s s' h k.live k.valid k.pointed

  pub started-IsLinked :
      (clients : ℕ → ClientEntity) (messages : ℕ → Msg) (entities : List Entity)
      → IsLinked (started clients messages entities)
  started-IsLinked clients messages entities = record {
    valid = empty-IsValid;
    points_to_live = λ j p e n. absurd (nothing j p e);
    apart = λ i j p e e' n. absurd (nothing i p e);
  }
    where
      nothing : (j : List ℕ) (p : ℕ) → lookup null empty j ≡ some p → ⊥
      nothing j p e = none≢some p (unfold lookup search search_from in e)
        where
          none≢some : (p : ℕ) → none ≡ some p → ⊥
          none≢some p h = cc

  -- In every state that the server's threads reach, however their steps are interleaved: the table of
  -- the clients is a valid tree, each entity that it points to is in memory, and no two different keys
  -- point to the same entity, so that no entity is deleted twice and none is written after it has
  -- been deleted; where a new entity is at an address that none in memory has.
  pub Reachable-IsLinked : (s : Job) → Reachable s → IsLinked s
  Reachable-IsLinked _ (start clients messages entities) =
      started-IsLinked clients messages entities
  Reachable-IsLinked _ (step s s' r one) = Step-IsLinked s s' one (Reachable-IsLinked s r)
