-- ===== src/Loop/Safe.antt =====
-- src/xty_msg_loop.cpp and src/xty_msg_serialization.h: the loop on messages that DeSerialize made.
use xty.Base.{
  leb, length, ℕ, ◌+◌, ◌≡◌, refl, ap, sym, ◌∙◌, List, [], ◌∷◌, All, All-mono, subst, take, arith,
  Bool-cases, inl, inr,
}
use xty.Comparable.{Comparable}
use xty.RbTree.{empty}
use xty.RbTree.Insert.{IsValid}
use xty.Map.{node_comparable}
use xty.Msg.{Body, dull, quit, reg, dereg, data_for, type_of, Msg}
use xty.Msg.Bytes.{decode}
use xty.Msg.Stream.{Outcome, ok, thrown, fault, ◌>>=◌, Reader, is_past_end, read_word, read_string}
use xty.Msg.Wire.{read_three, read_body, deserialize_at, create_msg, deserialize}
use xty.MsgQueue.{put, produce}
use xty.Server.{Server, handle_reg, handle_dereg, handle_data}
use xty.Server.Handlers.{handle_reg_lem, handle_dereg_lem}
use xty.Loop.{
  LoopState, state_dull, state_quit, init_call_back_table, run_fun, loop_from, enter_msg_loop,
}
use xty.Loop.Dispatch.{dispatch, loop_round-init}

-- What gave a value
pub bind_ok {ℓ κ} :
    {A : Type ℓ} {B : Type κ} (r : Outcome A) (f : A → Outcome B) (b : B)
    → (r >>= f) ≡ ok b
    → (a : A) × (r ≡ ok a) × (f a ≡ ok b)
bind_ok (ok a) f b e = (a, refl, e)
bind_ok thrown f b e = cc
bind_ok fault f b e = cc

pub ok_injective {ℓ} : {A : Type ℓ} (a b : A) → ok a ≡ ok b → a ≡ b
ok_injective a b e = cc

create_msg-type : (t : ℕ) (m : Msg) → create_msg t ≡ ok m → type_of m.body ≡ t
unfolding create_msg
create_msg-type t m e = ground arith

module _ (word buf_end : ℕ) where
  read_word-value :
      (size : ℕ) (s : Reader) (r : ℕ × Reader)
      → read_word word buf_end size s ≡ ok r
      → r.0 ≡ decode (take size s.ahead)
  unfolding read_word
  read_word-value size s r e = elim (Bool-cases (is_past_end word buf_end s.iterator size)) [
    | inl h ↦ absurd (impossible (rw h at e))
    | inr h ↦ elim (Bool-cases (leb size (length s.ahead))) [
      | inl l ↦ ap (λ z. z.0) (sym (ok_injective _ _ (rw (h, l) at e)))
      | inr l ↦ absurd (impossible_fault (rw (h, l) at e))
    ]
  ]
    where
      impossible : thrown ≡ ok r → ⊥
      impossible h = cc

      impossible_fault : fault ≡ ok r → ⊥
      impossible_fault h = cc

  read_three-type :
      (make : List ℕ → List ℕ → List ℕ → Body) (t : ℕ) (s : Reader) (r : Body × Reader)
      → ((a b c : List ℕ) → type_of (make a b c) ≡ t)
      → read_three word buf_end make s ≡ ok r
      → type_of r.0 ≡ t
  unfolding read_three
  read_three-type make t s r h e =
      let (a, _, e1) = bind_ok (read_string word buf_end s) _ r e in
      let (b, _, e2) = bind_ok (read_string word buf_end a.1) _ r e1 in
      let (c, _, e3) = bind_ok (read_string word buf_end b.1) _ r e2 in
      ap (λ z. type_of z.0) (sym (ok_injective _ _ e3)) ∙ h a.0 b.0 c.0

  read_body-type :
      (b : Body) (s : Reader) (r : Body × Reader)
      → read_body word buf_end b s ≡ ok r
      → type_of r.0 ≡ type_of b
  unfolding read_body
  read_body-type dull s r e = ap (λ z. type_of z.0) (sym (ok_injective (dull, s) r e))
  read_body-type quit s r e = ap (λ z. type_of z.0) (sym (ok_injective (quit, s) r e))
  read_body-type (reg _ _ _) s r e = read_three-type reg 2 s r (λ a b c. refl) e
  read_body-type (dereg _ _ _) s r e = read_three-type dereg 3 s r (λ a b c. refl) e
  read_body-type (data_for _ _ _) s r e = read_three-type data_for 4 s r (λ a b c. refl) e

-- A message of the class that its type says
abbrev pub IsTyped : Msg → Type 0
IsTyped m = m.msg_type ≡ type_of m.body

pub deserialize-IsTyped :
    (word address : ℕ) (memory : List ℕ) (len : ℕ) (m : Msg)
    → deserialize word address memory len ≡ ok m
    → IsTyped m
unfolding deserialize deserialize_at
deserialize-IsTyped word address memory len m e =
    let start : Reader = record { iterator = address; ahead = memory } in
    let (m0, made, e1) = bind_ok (create_msg (decode (take 4 memory))) _ m e in
    let (done, read, e2) = bind_ok (deserialize_at word (address + len) m0 start) _ m e1 in
    let (t, first, r1) = bind_ok (read_word word (address + len) 4 start) _ done read in
    let (n, _, r2) = bind_ok (read_word word (address + len) word t.1) _ done r1 in
    let (b, body, r3) = bind_ok (read_body word (address + len) m0.body n.1) _ done r2 in
    let same : (record { msg_type = t.0; msg_len = n.0; body = b.0 }) ≡ m =
      ap (λ z. z.0) (ok_injective _ _ r3) ∙ ok_injective _ _ e2 in
    ap (λ z. z.msg_type) (sym same)
    ∙ read_word-value word (address + len) 4 start t first
    ∙ sym (create_msg-type (decode (take 4 memory)) m0 made)
    ∙ sym (read_body-type word (address + len) m0.body n.1 b body)
    ∙ ap (λ z. type_of z.body) same

module _ ⦃o : Comparable (List ℕ)⦄ where
  -- What the server's loop keeps
  abbrev Keeps : Outcome (LoopState × Server) → Type 0
  Keeps r = (p : LoopState × Server) × (r ≡ ok p) × IsValid p.1.active_clients

  after_handler :
      (r : Outcome Server) (s' : Server)
      → r ≡ ok s'
      → IsValid s'.active_clients
      → Keeps (r >>= λ s'. ok (state_dull, s'))
  after_handler r s' e v = ((state_dull, s'), rw e refl, v)

  dispatch-IsValid :
      (address t len : ℕ) (b : Body) (s : Server)
      → t ≡ type_of b
      → IsValid s.active_clients
      → Keeps (dispatch address (record { msg_type = t; msg_len = len; body = b }) s)
  unfolding run_fun handle_data
  dispatch-IsValid address t len dull s e v = ((state_dull, s), rw e refl, v)
  dispatch-IsValid address t len quit s e v = ((state_quit, s), rw e refl, v)
  dispatch-IsValid address t len (reg name ip port) s e v =
      let (s', handled, kept, _) = handle_reg_lem address name ip port s v in
      rw e (after_handler (handle_reg address (reg name ip port) s) s' handled kept.valid)
  dispatch-IsValid address t len (dereg name ip port) s e v =
      let (s', handled, kept, _) = handle_dereg_lem address name ip port s v in
      rw e (after_handler (handle_dereg address (dereg name ip port) s) s' handled kept.valid)
  dispatch-IsValid address t len (data_for to_ip to_name content) s e v =
      let s' = record s { send_queue = produce (put address s.send_queue) } in
      ((state_dull, s'), rw e refl, v)

  -- The loop's end
  abbrev Ends : Outcome (LoopState × List (ℕ × Msg) × Server) → Type 0
  Ends r = (p : LoopState × List (ℕ × Msg) × Server) × (r ≡ ok p) × IsValid p.2.active_clients

  loop_from-IsValid :
      (messages : List (ℕ × Msg)) (s : Server)
      → All (λ m. IsTyped m.1) messages
      → IsValid s.active_clients
      → Ends (loop_from (init_call_back_table empty) messages s)
  unfolding loop_from
  loop_from-IsValid [] s h v = ((state_dull, [], s), refl, v)
  loop_from-IsValid (m ∷ messages) s (hm, h) v =
      let (p, done, kept) = dispatch-IsValid m.0 m.1.msg_type m.1.msg_len m.1.body s hm v in
      subst (λ r. Ends (continue r)) (sym (loop_round-init m.0 m.1 s ∙ done))
        (go p.0 p.1 kept (loop_from-IsValid messages p.1 h kept))
    where
      continue : Outcome (LoopState × Server) → Outcome (LoopState × List (ℕ × Msg) × Server)
      continue r = r >>= λ p. elim p.0 [
        | state_quit ↦ ok (state_quit, messages, p.1)
        | state_dull ↦ loop_from (init_call_back_table empty) messages p.1
      ]

      go :
          (state : LoopState) (s' : Server)
          → IsValid s'.active_clients
          → Ends (loop_from (init_call_back_table empty) messages s')
          → Ends (continue (ok (state, s')))
      go state_quit s' kept rest = ((state_quit, messages, s'), refl, kept)
      go state_dull s' kept rest = rest

  -- A message that DeSerialize made of some bytes
  abbrev pub IsDeSerialized : ℕ → Msg → Type 0
  IsDeSerialized word m =
      (address : ℕ) × (memory : List ℕ) × (len : ℕ) × (deserialize word address memory len ≡ ok m)

  -- Whatever bytes the clients send: on messages that DeSerialize has made of them, the server's
  -- loop never reads through a failed dynamic_cast, and each time that it ends or waits, the table
  -- of the clients is a valid tree, if it was one before.
  pub enter_msg_loop-IsValid :
      (word : ℕ) (messages : List (ℕ × Msg)) (s : Server)
      → All (λ m. IsDeSerialized word m.1) messages
      → IsValid s.active_clients
      → (state : LoopState) × (left : List (ℕ × Msg)) × (s' : Server) × (enter_msg_loop messages s
          ≡ ok (state, left, s'))
        × IsValid s'.active_clients
  unfolding enter_msg_loop
  enter_msg_loop-IsValid word messages s h v =
      let typed =
        All-mono (λ m. IsDeSerialized word m.1) messages
          (λ m made. deserialize-IsTyped word made.0 made.1 made.2 m.1 made.3) h in
      let (p, done, kept) = loop_from-IsValid messages s typed v in (p.0, p.1, p.2, done, kept)
