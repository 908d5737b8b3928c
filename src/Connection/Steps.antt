-- ===== src/Connection/Steps.antt =====
-- The connection over any sequence of steps: what holds of its writes, what a message without a body
-- leaves, and what completions bring.
use process_manager_module.Base.{
  ℕ, zero, suc, ◌≡◌, refl, ◌∙◌, Bool, true, false, List, [], ◌∷◌, ◌++◌, some, Outcome, returns,
  ◌>>=◌, ◌==◌, ==_self, length, arith, inl, inr, Option-cases, All,
}
use process_manager_module.MessageQueue
use process_manager_module.MessageQueue.{MessageQueue}
use process_manager_module.Connection.{
  TcpMessage, Write, header_write, body_write, TcpConnection, write_message_header,
  write_message_body, send_message,
}
use process_manager_module.Connection.Handlers.{post_write_message_header, post_write_message_body}
use process_manager_module.Connection.Writing.{
  IsWriting, IsStuck, SameWriting, SameWriting-IsWriting, send_message-IsWriting,
  post_write_message_header-IsWriting, post_write_message_body-IsWriting,
}

module _ {T : Type 0} where
  -- The writes of some messages, each written once.
  abbrev pub writes_of : List (TcpMessage T) → List (Write T)
  writes_of [] = []
  writes_of (m ∷ ms) = header_write m ∷ body_write m ∷ writes_of ms

module _ {T D : Type 0} (header_size : ℕ)
    (disconnect : TcpConnection T D → Outcome (TcpConnection T D)) where
  -- Calls and completions of writes; and whatever else leaves the writing half alone: reading, the
  -- timer, disconnecting, and connecting again.
  pub data TcpStep (c c' : TcpConnection T D) : Type 0 where
    sends_message : (m : TcpMessage T) → send_message m c ≡ returns c' → TcpStep c c'
    header_written :
        (error : Bool) (n : ℕ)
        → post_write_message_header header_size disconnect error n c ≡ returns c'
        → TcpStep c c'
    body_written :
        (error : Bool)
        → post_write_message_body header_size disconnect error c ≡ returns c'
        → TcpStep c c'
    elsewhere : SameWriting c c' → TcpStep c c'

  pub data TcpReach (c : TcpConnection T D) : TcpConnection T D → Type 0 where
    start : TcpReach c c
    then_step : {d e : TcpConnection T D} → TcpReach c d → TcpStep d e → TcpReach c e

  -- If disconnecting leaves the writing half alone, then in every state that is reached from a quiet
  -- one at most one write is pending: that of the header or of the body of the message at the head of
  -- the queue, with `sendingInProgress` set.
  pub TcpReach-IsWriting :
      ((c c' : TcpConnection T D) → disconnect c ≡ returns c' → SameWriting c c')
      → {c d : TcpConnection T D} → IsWriting c
      → TcpReach c d
      → IsWriting d
  TcpReach-IsWriting keeps w start = w
  TcpReach-IsWriting keeps w (then_step {d = d} {e = e} r (sends_message m h)) =
      send_message-IsWriting m d e h (TcpReach-IsWriting keeps w r)
  TcpReach-IsWriting keeps w (then_step {d = d} {e = e} r (header_written b n h)) =
      post_write_message_header-IsWriting header_size disconnect keeps b n d e h
        (TcpReach-IsWriting keeps w r)
  TcpReach-IsWriting keeps w (then_step {d = d} {e = e} r (body_written b h)) =
      post_write_message_body-IsWriting header_size disconnect keeps b d e h
        (TcpReach-IsWriting keeps w r)
  TcpReach-IsWriting keeps w (then_step {d = d} {e = e} r (elsewhere s)) =
      SameWriting-IsWriting d e s (TcpReach-IsWriting keeps w r)

  TcpStep-IsStuck : (c d : TcpConnection T D) → TcpStep c d → IsStuck c → IsStuck d
  unfolding send_message post_write_message_header post_write_message_body MessageQueue.push
  TcpStep-IsStuck c d (sends_message m h) s = elim (Option-cases c.socket) [
    | inl e ↦ stuck (ground (arith, s.in_progress)) (ground (arith, s.nothing_pending))
    | inr (false, e) ↦ stuck (ground (arith, s.in_progress)) (ground (arith, s.nothing_pending))
    | inr (true, e) ↦
        stuck (ground (arith, s.in_progress)) (ground (arith, s.in_progress, s.nothing_pending))
  ]
    where
      stuck : d.sending_in_progress ≡ true → d.pending_writes ≡ [] → IsStuck d
      stuck f p = record { in_progress = f; nothing_pending = p }
  TcpStep-IsStuck c d (header_written b n h) s = record {
    in_progress = ground (arith, s.in_progress, s.nothing_pending);
    nothing_pending = ground (arith, s.nothing_pending);
  }
  TcpStep-IsStuck c d (body_written b h) s = record {
    in_progress = ground (arith, s.in_progress, s.nothing_pending);
    nothing_pending = ground (arith, s.nothing_pending);
  }
  TcpStep-IsStuck c d (elsewhere e) s = record {
    in_progress = e.same_flag ∙ s.in_progress;
    nothing_pending = e.same_writes ∙ s.nothing_pending;
  }

  TcpReach-IsStuck : {c d : TcpConnection T D} → IsStuck c → TcpReach c d → IsStuck d
  TcpReach-IsStuck s start = s
  TcpReach-IsStuck s (then_step {d = d} {e = e} r st) =
      TcpStep-IsStuck d e st (TcpReach-IsStuck s r)

  -- When the header of a message without a body has been written and no other message waits, the flag
  -- stays set: from there on no write is ever pending again, also after reconnecting.
  pub empty_body_sticks :
      (c x y : TcpConnection T D) (m : TcpMessage T) (w : Write T)
      → c.messages_queue.messages_queue ≡ m ∷ []
      → m.body ≡ []
      → c.pending_writes ≡ w ∷ []
      → c.sending_in_progress ≡ true
      → post_write_message_header header_size disconnect false header_size c ≡ returns x
      → TcpReach x y
      → IsStuck y
  unfolding post_write_message_header MessageQueue.front MessageQueue.pop MessageQueue.empty
  empty_body_sticks c x y m w q b p f h r =
      let whole : (header_size == header_size) ≡ true = ==_self header_size in
      let bare : (length m.body == 0) ≡ true = rw b in
      TcpReach-IsStuck (record { in_progress = ground arith; nothing_pending = ground arith }) r

  -- The completions of the writes of the first `n` messages, with the writes that completed.
  pub completed_writes : ℕ → TcpConnection T D → Outcome (TcpConnection T D × List (Write T))
  completed_writes zero c = returns (c, [])
  completed_writes (suc n) c = do
    c₁ ← post_write_message_header header_size disconnect false header_size c
    c₂ ← post_write_message_body header_size disconnect false c₁
    (c₃, ws) ← completed_writes n c₂
    returns (c₃, c.pending_writes ++ c₁.pending_writes ++ ws)

  -- The writes of one message complete: the header, then the body, last or before another message.
  header_completes :
      (c : TcpConnection T D) (m : TcpMessage T) (ms : List (TcpMessage T)) (b : Bool)
      → c.socket ≡ some b
      → c.messages_queue.messages_queue ≡ m ∷ ms
      → c.pending_writes ≡ header_write m ∷ []
      → (length m.body == 0) ≡ false
      → post_write_message_header header_size disconnect false header_size c
        ≡ returns (record c { pending_writes = body_write m ∷ [] })
  unfolding post_write_message_header write_message_body MessageQueue.front
  header_completes c m ms b s q p full =
      let whole : (header_size == header_size) ≡ true = ==_self header_size in ground arith

  last_body_completes :
      (c : TcpConnection T D) (m : TcpMessage T)
      → c.messages_queue.messages_queue ≡ m ∷ []
      → post_write_message_body header_size disconnect false
          (record c { pending_writes = body_write m ∷ [] })
        ≡ returns (record c {
          pending_writes = [];
          messages_queue = record { messages_queue = [] };
          sending_in_progress = false;
        })
  unfolding post_write_message_body MessageQueue.pop MessageQueue.empty
  last_body_completes c m q = ground arith

  body_completes :
      (c : TcpConnection T D) (m x : TcpMessage T) (xs : List (TcpMessage T)) (b : Bool)
      → c.socket ≡ some b
      → c.messages_queue.messages_queue ≡ m ∷ x ∷ xs
      → post_write_message_body header_size disconnect false
          (record c { pending_writes = body_write m ∷ [] })
        ≡ returns (record c {
          pending_writes = header_write x ∷ [];
          messages_queue = record { messages_queue = x ∷ xs };
        })
  unfolding post_write_message_body write_message_header MessageQueue.pop MessageQueue.empty
      MessageQueue.front
  body_completes c m x xs b s q = ground arith

  -- With the header of the first message pending, and no message without a body in the queue, the
  -- completions empty the queue: each message has been written once, its header and then its body, in
  -- the order of the queue; no write is pending, and the flag is clear for the next message.
  pub completed_writes_drain :
      (ms : List (TcpMessage T)) (m : TcpMessage T) (b : Bool) (c : TcpConnection T D)
      → c.socket ≡ some b
      → c.messages_queue.messages_queue ≡ m ∷ ms
      → c.pending_writes ≡ header_write m ∷ []
      → c.sending_in_progress ≡ true
      → All (λ x. (length x.body == 0) ≡ false) (m ∷ ms)
      → (c' : TcpConnection T D) × (completed_writes (suc (length ms)) c
          ≡ returns (c', writes_of (m ∷ ms)))
        × (c'.messages_queue.messages_queue ≡ [])
        × (c'.pending_writes ≡ [])
        × (c'.sending_in_progress ≡ false)
  unfolding completed_writes
  completed_writes_drain [] m b c s q p f full = (
    record c {
      pending_writes = [];
      messages_queue = record { messages_queue = [] };
      sending_in_progress = false;
    },
    rw (header_completes c m [] b s q p full.0) (rw (last_body_completes c m q, p)),
    refl,
    refl,
    refl,
  )
  completed_writes_drain (x ∷ xs) m b c s q p f full =
      let c₂ : TcpConnection T D = record c {
        messages_queue = record { messages_queue = x ∷ xs };
        pending_writes = header_write x ∷ [];
      } in
      let (c', e, q', p', f') = completed_writes_drain xs x b c₂ s refl refl f full.1 in
      (
        c',
        rw (header_completes c m (x ∷ xs) b s q p full.0)
            (rw (body_completes c m x xs b s q) (rw (e, p))),
        q',
        p',
        f',
      )
