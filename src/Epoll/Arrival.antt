-- ===== src/Epoll/Arrival.antt =====
-- src/xty_msg_server_epoll_job.cpp: the end of a client's connection, and a registration from the
-- client's bytes to the table.
use xty.Base.{
  ℕ, zero, suc, ◌≤◌, ◌≡◌, ◌≢◌, refl, ap, sym, subst, ◌∙◌, true, false, not, ◌&&◌, none, some, List,
  [], ◌∷◌, ◌++◌, All, length, ◌==◌, ==_same, if◌then◌else◌, Bool-cases, Option-cases, inl, inr, ◌⊎◌,
  arith,
}
use mathlib.Core.Option.{some-injective}
use xty.Comparable.{Comparable}
use xty.RbTree.Sorted.{IsBelow, IsSorted, find}
use xty.RbTree.Inorder.{to_list}
use xty.RbTree.Search.{search-eq-find}
use xty.RbTree.Iterator.Forward.{walk_all}
use xty.RbTree.Insert.{IsValid}
use xty.RbTree.Remove.{eq_refl}
use xty.Map.{Map, MapNode, node_comparable, key_node}
use xty.Map.Laws.{value_of, lookup, lookup-index}
use xty.Msg.{Msg, reg, quit, new_msg, calculate_len}
use xty.Msg.Stream.{ok}
use xty.Msg.Wire.{buf_len, serialize, deserialize}
use xty.Msg.RoundTrip.{FitsBuffer, round_trip}
use xty.Msg.Entities.{Entity, acquire, release}
use xty.MsgQueue.{put, produce}
use xty.Conf.{read_buf}
use xty.Server.{ClientEntity, null, Server, user_ip_port, handle_reg}
use xty.Server.Handlers.{IsWritten, handle_reg_lem}
use xty.Loop.{state_dull, enter_msg_loop}
use xty.Loop.Safe.{ok_injective}
use xty.Loop.Dispatch.{handle_all, enter_msg_loop_lem}
use xty.Epoll.{
  Job, entries, find_fd, end_of_file, bytes, close_client, keep_msg, receive_msg, client_event,
  without,
}
use xty.Epoll.Linked.{address_at, lookup-close_client}

pub read_buf-le :
    (n : ℕ) (received : List ℕ)
    → length received ≤ n
    → (zeros : List ℕ) × (read_buf n received ≡ received ++ zeros)
unfolding read_buf
read_buf-le zero [] h = ([], refl)
read_buf-le zero (c ∷ received) h = absurd (omega (arith, h))
read_buf-le (suc n) [] h = (0 ∷ read_buf n [], refl)
read_buf-le (suc n) (c ∷ received) h =
    let (zeros, same) = read_buf-le n received (omega (arith, h)) in (zeros, ap (λ z. c ∷ z) same)

pub entries_lem : (m : Map (List ℕ) ℕ) → entries m ≡ to_list m.root
entries_lem m = walk_all m (length (to_list m.root)) (omega arith)

module _ ⦃o : Comparable (List ℕ)⦄ where
  -- The node that the loop stops at
  record IsFound (clients : ℕ → ClientEntity) (fd : ℕ) (key : List ℕ)
      (ns : List (MapNode (List ℕ) ℕ)) : Type 0 where
    found : MapNode (List ℕ) ℕ
    by_key : find (key_node null key) ns ≡ some found
    same_key : o.eq found.key key ≡ true
    among_nodes : (z : MapNode (List ℕ) ℕ) → All (IsBelow z) ns → IsBelow z found
    not_null : found.value ≢ null
    same_fd : (clients found.value).client_fd ≡ fd

  find_fd_lem :
      (clients : ℕ → ClientEntity) (fd : ℕ) (key : List ℕ) (ns : List (MapNode (List ℕ) ℕ))
      → IsSorted ns
      → find_fd clients fd ns ≡ some key
      → IsFound clients fd key ns
  unfolding find_fd find
  find_fd_lem clients fd key [] s e = absurd (none≢some e)
    where
      none≢some : none ≡ some key → ⊥
      none≢some h = cc
  find_fd_lem clients fd key (n ∷ ns) s e =
      let test = not (n.value == null) && ((clients n.value).client_fd == fd) in
      elim (Bool-cases test) [
        | inl here ↦
            let same : n.key ≡ key = some-injective n.key key (rw here at e) in
            let equal : o.eq n.key key ≡ true = ap (o.eq n.key) (sym same) ∙ eq_refl n.key in
            record {
              found = n;
              by_key = rw equal refl;
              same_key = equal;
              among_nodes = λ z h. h.0;
              not_null = λ z. ground (arith, here, z);
              same_fd = ground (arith, here);
            }
        | inr later ↦
            let f = find_fd_lem clients fd key ns s.1 (rw later at e) in
            let below = f.among_nodes n s.0 in
            let differs : o.eq n.key key ≡ false =
              sym (o.eq_lt f.found.key key n.key f.same_key).2
              ∙ (o.lt_ne n.key f.found.key below).0 in
            record {
              found = f.found;
              by_key = rw differs f.by_key;
              same_key = f.same_key;
              among_nodes = λ z h. f.among_nodes z h.1;
              not_null = f.not_null;
              same_fd = f.same_fd;
            }
      ]

  pub find_fd-lookup :
      (fd : ℕ) (key : List ℕ) (s : Job)
      → IsValid s.server.active_clients
      → find_fd s.server.clients fd (entries s.server.active_clients) ≡ some key
      → (p : ℕ) × (address_at s key ≡ some p) × (p ≢ null) × ((s.server.clients p).client_fd ≡ fd)
  unfolding lookup
  find_fd-lookup fd key s v e =
      let table = s.server.active_clients in
      let f =
        find_fd_lem s.server.clients fd key (to_list table.root) v.sorted
          (ap (find_fd s.server.clients fd) (sym (entries_lem table)) ∙ e) in
      (
        f.found.value,
        ap (value_of null) (search-eq-find table (key_node null key) v.sorted ∙ f.by_key),
        f.not_null,
        f.same_fd,
      )

  -- At the end of a connection, on a valid table, either no client of the table has the descriptor,
  -- and nothing is done; or a client of the table has it, and then its key is taken out of the
  -- table, all other keys stay as they are, its entity is deleted, and the descriptor is closed.
  pub client_event-end_of_file :
      (word buffer : ℕ) (prepare : ℕ → ℕ) (fd : ℕ) (s : Job)
      → IsValid s.server.active_clients
      → (find_fd s.server.clients fd (entries s.server.active_clients) ≡ none)
          × (client_event word buffer prepare fd end_of_file s ≡ some (ok s))
        ⊎ (key : List ℕ) × (p : ℕ) × (s' : Job) × (client_event word buffer prepare fd end_of_file s
            ≡ some (ok s'))
          × (address_at s key ≡ some p)
          × (p ≢ null)
          × ((s.server.clients p).client_fd ≡ fd)
          × ((j : List ℕ) → address_at s' j ≡ (if o.eq key j then none else address_at s j))
          × (s'.live ≡ without p s.live)
          × (s'.open_fds ≡ without fd s.open_fds)
  unfolding client_event close_client
  client_event-end_of_file word buffer prepare fd s v =
      elim (Option-cases (find_fd s.server.clients fd (entries s.server.active_clients))) [
        | inl e ↦ inl (e, rw (client_event, e) refl)
        | inr (key, e) ↦
            let (p, there, not_null, same) = find_fd-lookup fd key s v e in
            inr (
              key,
              p,
              close_client fd key s,
              rw (client_event, e) refl,
              there,
              not_null,
              same,
              λ j. lookup-close_client fd key j s v,
              ap (λ z. without z s.live)
                  ((lookup-index null s.server.active_clients key key v).0 ∙ (rw there refl)),
              refl,
            )
      ]

  pub receive_msg-ok :
      (word buffer : ℕ) (prepare : ℕ → ℕ) (received : List ℕ) (m : Msg) (s : Job)
      (taken : ℕ × List Entity)
      → length received ≤ buf_len
      → ((rest : List ℕ) → deserialize word buffer (received ++ rest) (length received) ≡ ok m)
      → acquire prepare s.server.entities ≡ some taken
      → receive_msg word buffer prepare received s
        ≡ some (
            ok (record s {
              server = record s.server { entities = taken.1 };
              recv_queue = produce (put taken.0 s.recv_queue);
              messages = λ p. if p == taken.0 then m else s.messages p;
            }))
  unfolding receive_msg keep_msg
  receive_msg-ok word buffer prepare received m s taken short made got =
      let (zeros, same) = read_buf-le buf_len received short in
      rw (got, receive_msg, same, made zeros) refl

  loop_reg :
      (address : ℕ) (m : Msg) (s t : Server) (name ip port : List ℕ)
      → m.msg_type ≡ 2
      → m.body ≡ reg name ip port
      → handle_reg address (reg name ip port) s ≡ ok t
      → enter_msg_loop ((address, m) ∷ []) s ≡ ok (state_dull, [], t)
  unfolding handle_all
  loop_reg address m s t name ip port type body handled =
      (enter_msg_loop_lem ((address, m) ∷ []) [] (0, new_msg quit) s (rw type refl, tt) refl).0
      ∙ (rw (type, body, handled) refl)

  -- A registration arrives. A client whose message for it fits the buffers on both sides serializes
  -- it, and the server, in which the table is valid, the client's connection is found and an entity
  -- is free, gets those bytes: the job on epoll makes the message of them and puts its address
  -- into the queue; and the message loop, which then gets it, writes the name, the IP and the port that
  -- the client has sent to the table's entity at their key, and releases the message.
  pub registration_arrives :
      (word from buffer fd : ℕ) (prepare : ℕ → ℕ) (name ip port key : List ℕ) (s : Job)
      (taken : ℕ × List Entity)
      → FitsBuffer word from (new_msg (reg name ip port))
      → FitsBuffer word buffer (new_msg (reg name ip port))
      → IsValid s.server.active_clients
      → find_fd s.server.clients fd (entries s.server.active_clients) ≡ some key
      → acquire prepare s.server.entities ≡ some taken
      → (sent : List ℕ) × (m : Msg) × (s' : Job) × (t : Server) × (serialize word from
            (new_msg (reg name ip port))
          ≡ ok (m, sent))
        × (client_event word buffer prepare fd (bytes sent) s ≡ some (ok s'))
        × (s'.recv_queue ≡ produce (put taken.0 s.recv_queue))
        × (enter_msg_loop ((taken.0, s'.messages taken.0) ∷ []) s'.server ≡ ok (state_dull, [], t))
        × IsWritten (user_ip_port ip port) name ip port s.server t
        × (t.entities ≡ release taken.0 taken.1)
  unfolding client_event
  registration_arrives word from buffer fd prepare name ip port key s taken f g v found got =
      let m = calculate_len word (new_msg (reg name ip port)) in
      let (sent, serialized, len, _) =
        round_trip word from buffer (new_msg (reg name ip port)) [] refl f g in
      let made : (rest : List ℕ) → deserialize word buffer (sent ++ rest) (length sent) ≡ ok m =
        λ rest. back rest sent serialized in
      let server = record s.server { entities = taken.1 } in
      let s' = record s {
        server = server;
        recv_queue = produce (put taken.0 s.recv_queue);
        messages = λ p. if p == taken.0 then m else s.messages p;
      } in
      let (t, handled, w, kept) = handle_reg_lem taken.0 name ip port server v in
      let m_there : s'.messages taken.0 ≡ m = rw (==_same taken.0) refl in
      (
        sent,
        m,
        s',
        t,
        serialized,
        rw (client_event, found)
            (receive_msg-ok word buffer prepare sent m s taken (omega (arith, len, f.0)) made got),
        refl,
        loop_reg taken.0 (s'.messages taken.0) server t name ip port (ap (λ z. z.msg_type) m_there)
            (ap (λ z. z.body) m_there) handled,
        record { valid = w.valid; table = w.table; written = w.written; queued = w.queued },
        kept,
      )
    where
      back :
          (rest sent : List ℕ)
          → serialize word from (new_msg (reg name ip port))
            ≡ ok (calculate_len word (new_msg (reg name ip port)), sent)
          → deserialize word buffer (sent ++ rest) (length sent)
            ≡ ok (calculate_len word (new_msg (reg name ip port)))
      back rest sent e =
          let (sent', e', _, made) =
            round_trip word from buffer (new_msg (reg name ip port)) rest refl f g in
          let same : sent' ≡ sent = ap (λ z. z.1) (ok_injective _ _ (sym e' ∙ e)) in
          subst
            (λ z.
              deserialize word buffer (z ++ rest) (length z)
              ≡ ok (calculate_len word (new_msg (reg name ip port))))
            same made
