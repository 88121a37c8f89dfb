-- ===== src/Session/Passage.antt =====
-- src/xty_msg_server_epoll_job.cpp, src/xty_msg_loop.cpp and src/xty_msg_server_send_job.cpp, one
-- after the other: the way of a data message through the server.
use xty.Base.{
  Option, ℕ, ◌≡◌, ◌≢◌, refl, ap, ◌∙◌, some, List, [], ◌∷◌, ◌++◌, ◌==◌, ==_same, if◌then◌else◌,
  length, arith,
}
use xty.Comparable.{Comparable}
use xty.RbTree.Inorder.{to_list}
use xty.Msg.{data_for, quit, Msg, new_msg, calculate_len, serialized_len}
use xty.Msg.Stream.{ok}
use xty.Msg.Wire.{deserialize}
use xty.Msg.Format.{wire, length-wire}
use xty.Msg.RoundTrip.{deserialize-wire}
use xty.Msg.Entities.{Entity, acquire, free}
use xty.Msg.Reuse.{AreBuffers}
use xty.MsgQueue.{Shared, put, produce}
use xty.Server.{Server, handle_data}
use xty.Loop.{state_dull, enter_msg_loop}
use xty.Loop.Dispatch.{handle_all, enter_msg_loop_lem}
use xty.Epoll.{Job, entries, find_fd, bytes, client_event}
use xty.Epoll.Arrival.{receive_msg-ok}
use xty.Sender.{Sending, send_msg_on}
use xty.Sender.Recipients.{recipients}
use xty.Sender.Delivered.{deliveries, Stays, send_msg_on_lem}
use xty.Session.{pop_msg}
use xty.Session.Sent.{wire_of, IsIdle, pop_msg-put}
use xty.Session.Exchange.{FitsAt}

module _ ⦃o : Comparable (List ℕ)⦄ where
  loop_data :
      (address len : ℕ) (to_ip to_name content : List ℕ) (m : Msg) (s : Server)
      → m ≡ record { msg_type = 4; msg_len = len; body = data_for to_ip to_name content }
      → enter_msg_loop ((address, m) ∷ []) s
        ≡ ok (state_dull, [], record s { send_queue = produce (put address s.send_queue) })
  unfolding handle_all handle_data
  loop_data address len to_ip to_name content m s e =
      (enter_msg_loop_lem ((address, m) ∷ []) [] (0, new_msg quit) s (rw e refl, tt) refl).0
      ∙ (rw e refl)

  -- The server passes a data message on as it is. It gets the bytes of the message from a client whose
  -- connection it finds, while an entity is free on both sides and both queues are empty: the job on
  -- epoll makes the message of them and puts it into the queue of received messages, from which its
  -- address is taken; the message loop puts its address into the queue for sending, from which
  -- it is taken; and the job that sends then sends the same bytes, once to each client of the table that
  -- has registered with the message's IP and name, and to nobody else. The message fits a buffer;
  -- and it has at most one recipient, or no other thread changes it after its release.
  pub data_passes :
      (word buffer fd : ℕ) (prepare : ℕ → ℕ) (reused : Msg → Option Msg)
      (to_ip to_name content key : List ℕ) (s : Job) (taken : ℕ × List Entity)
      (serializers : List Entity)
      → let b = data_for to_ip to_name content in
        let cs = recipients s.server.clients to_ip to_name (to_list s.server.active_clients.root) in
        FitsAt word buffer b
        → find_fd s.server.clients fd (entries s.server.active_clients) ≡ some key
        → acquire prepare s.server.entities ≡ some taken
        → AreBuffers word serializers
        → free serializers ≢ 0
        → IsIdle s.recv_queue
        → IsIdle s.server.send_queue
        → Stays reused cs
        → (s' : Job) × (t : Server) × (out : Sending) × (q : Shared) × (q' : Shared) × (client_event
              word buffer prepare fd
              (bytes (wire_of word b))
              s
            ≡ some (ok s'))
          × (s'.recv_queue ≡ produce (put taken.0 s.recv_queue))
          × (pop_msg s'.recv_queue ≡ some (ok (taken.0, q)))
          × (enter_msg_loop ((taken.0, s'.messages taken.0) ∷ []) s'.server
              ≡ ok (state_dull, [], t))
          × (t.send_queue ≡ produce (put taken.0 s.server.send_queue))
          × (pop_msg t.send_queue ≡ some (ok (taken.0, q')))
          × (send_msg_on word taken.0 reused (s'.messages taken.0) serializers t ≡ some (ok out))
          × (out.sent ≡ deliveries (wire_of word b) cs)
  unfolding client_event
  data_passes word buffer fd prepare reused to_ip to_name content key s taken serializers
        (fits, space) found got buffers idle quiet quiet' stays =
      let b = data_for to_ip to_name content in
      let m = calculate_len word (new_msg b) in
      let made : (rest : List ℕ)
          → deserialize word buffer (wire word m ++ rest) (length (wire word m)) ≡ ok m =
        λ rest.
          deserialize-wire word buffer m rest refl (omega (arith, fits, space))
            (omega (arith, fits, space)) in
      let server = record s.server { entities = taken.1 } in
      let s' : Job = record s {
        server = server;
        recv_queue = produce (put taken.0 s.recv_queue);
        messages = λ p. if p == taken.0 then m else s.messages p;
      } in
      let there : s'.messages taken.0 ≡ m = rw (==_same taken.0) refl in
      let t = record server { send_queue = produce (put taken.0 server.send_queue) } in
      let (out, done, sent, _, _) =
        send_msg_on_lem word taken.0 4 (serialized_len word b) reused to_ip to_name content
          serializers t buffers idle fits stays in
      let (q, popped, _, _) = pop_msg-put taken.0 s.recv_queue quiet in
      let (q', popped', _, _) = pop_msg-put taken.0 s.server.send_queue quiet' in
      (
        s',
        t,
        out,
        q,
        q',
        rw (client_event, found)
            (receive_msg-ok word buffer prepare (wire word m) m s taken
              (omega (arith, length-wire word m, fits)) made got),
        refl,
        popped,
        loop_data taken.0 (serialized_len word b) to_ip to_name content (s'.messages taken.0) server
            there,
        refl,
        popped',
        ap (λ z. send_msg_on word taken.0 reused z serializers t) there ∙ done,
        sent,
      )
