-- ===== src/Connection/Writing.antt =====
-- The writing half of the connection under any sequence of calls and completions.
use process_manager_module.Base.{
  ℕ, ◌≡◌, refl, ap, ◌∙◌, Bool, true, false, List, [], ◌∷◌, ◌++◌, Outcome, returns, ◌>>=◌, ◌==◌,
  length, arith, ◌⊎◌, inl, inr, List-cases, Bool-cases, Option-cases, Outcome-cases,
}
use process_manager_module.MessageQueue
use process_manager_module.MessageQueue.{MessageQueue}
use process_manager_module.Connection.{
  TcpMessage, Write, header_write, body_write, TcpConnection, write_message_header,
  write_message_body, send_message,
}
use process_manager_module.Connection.Handlers.{post_write_message_header, post_write_message_body}

module _ {T D : Type 0} where
  -- No write is pending, or one is: that of the header or of the body of the message at the head of
  -- the queue, and then `sendingInProgress` is set.
  pub data IsWriting (c : TcpConnection T D) : Type 0 where
    quiet : c.pending_writes ≡ [] → IsWriting c
    writing :
        (m : TcpMessage T) (rest : List (TcpMessage T)) (w : Write T)
        → c.messages_queue.messages_queue ≡ m ∷ rest
        → c.pending_writes ≡ w ∷ []
        → (w ≡ header_write m) ⊎ (w ≡ body_write m)
        → c.sending_in_progress ≡ true
        → IsWriting c

  -- The flag is set, and no write is pending that could end it.
  pub record IsStuck (c : TcpConnection T D) : Type 0 where
    pub in_progress : c.sending_in_progress ≡ true
    pub nothing_pending : c.pending_writes ≡ []

  -- The writing half is as it was.
  pub record SameWriting (c c' : TcpConnection T D) : Type 0 where
    pub same_queue : c'.messages_queue ≡ c.messages_queue
    pub same_writes : c'.pending_writes ≡ c.pending_writes
    pub same_flag : c'.sending_in_progress ≡ c.sending_in_progress

  pub SameWriting-IsWriting :
      (c c' : TcpConnection T D) → SameWriting c c' → IsWriting c → IsWriting c'
  SameWriting-IsWriting c c' s (quiet p) = quiet (s.same_writes ∙ p)
  SameWriting-IsWriting c c' s (writing m rest w q p k f) =
      writing m rest w (ap (λ x. x.messages_queue) s.same_queue ∙ q) (s.same_writes ∙ p) k
        (s.same_flag ∙ f)

  write_message_header-IsWriting :
      (c c' : TcpConnection T D)
      → c.pending_writes ≡ []
      → c.sending_in_progress ≡ true
      → write_message_header c ≡ returns c'
      → IsWriting c'
  unfolding write_message_header MessageQueue.front
  write_message_header-IsWriting c c' p f h = elim (Option-cases c.socket) [
    | inl e ↦ quiet (ground arith)
    | inr (b, e) ↦ elim (List-cases c.messages_queue.messages_queue) [
      | inl q ↦ absurd (ground arith)
      | inr (m, rest, q) ↦
          writing m rest (header_write m) (ground arith) (ground arith) (inl refl) (ground arith)
    ]
  ]

  write_message_body-IsWriting :
      (c c' : TcpConnection T D)
      → c.pending_writes ≡ []
      → c.sending_in_progress ≡ true
      → write_message_body c ≡ returns c'
      → IsWriting c'
  unfolding write_message_body MessageQueue.front
  write_message_body-IsWriting c c' p f h = elim (Option-cases c.socket) [
    | inl e ↦ absurd (ground arith)
    | inr (b, e) ↦ elim (List-cases c.messages_queue.messages_queue) [
      | inl q ↦ absurd (ground arith)
      | inr (m, rest, q) ↦
          writing m rest (body_write m) (ground arith) (ground arith) (inr refl) (ground arith)
    ]
  ]

  pub send_message-IsWriting :
      (m : TcpMessage T) (c c' : TcpConnection T D)
      → send_message m c ≡ returns c'
      → IsWriting c
      → IsWriting c'
  unfolding send_message MessageQueue.push
  send_message-IsWriting m c c' h i = elim (Option-cases c.socket) [
    | inl e ↦ kept (ground arith)
    | inr (false, e) ↦ kept (ground arith)
    | inr (true, e) ↦ elim (Bool-cases c.sending_in_progress) [
      | inl f ↦ kept (ground arith)
      | inr f ↦ elim i [
        | quiet p ↦
            write_message_header-IsWriting (record (queued m c) { sending_in_progress = true }) c' p
              refl (ground arith)
        | writing x rest w q p k g ↦ absurd (ground arith)
      ]
    ]
  ]
    where
      queued : TcpMessage T → TcpConnection T D → TcpConnection T D
      queued x d = record d {
        messages_queue = record { messages_queue = d.messages_queue.messages_queue ++ x ∷ [] };
      }

      kept : c' ≡ queued m c → IsWriting c'
      kept e = elim i [
        | quiet p ↦ quiet (rw e p)
        | writing x rest w q p k g ↦ writing x (rest ++ m ∷ []) w (ground arith) (rw e p) k (rw e g)
      ]

  module _ (header_size : ℕ) (disconnect : TcpConnection T D → Outcome (TcpConnection T D))
      (keeps : (c c' : TcpConnection T D) → disconnect c ≡ returns c' → SameWriting c c') where
    -- What an error leaves.
    failed-IsWriting :
        (c c' : TcpConnection T D)
        → (disconnect c >>= λ d. returns (record d { sending_in_progress = false })) ≡ returns c'
        → c.pending_writes ≡ []
        → IsWriting c'
    failed-IsWriting c c' h p = elim (Outcome-cases (disconnect c)) [
      | inl (d, e) ↦ quiet (ground (arith, (keeps c d e).same_writes))
      | inr (inl (f, e)) ↦ absurd (ground arith)
      | inr (inr e) ↦ absurd (ground arith)
    ]

    pub post_write_message_header-IsWriting :
        (error : Bool) (n : ℕ) (c c' : TcpConnection T D)
        → post_write_message_header header_size disconnect error n c ≡ returns c'
        → IsWriting c
        → IsWriting c'
    unfolding post_write_message_header MessageQueue.front MessageQueue.pop MessageQueue.empty
    post_write_message_header-IsWriting error n c c' h (quiet p) = quiet (ground arith)
    post_write_message_header-IsWriting true n c c' h (writing m rest w q p k f) =
        failed-IsWriting (record c { pending_writes = [] }) c' (ground arith) refl
    post_write_message_header-IsWriting false n c c' h (writing m rest w q p k f) =
        elim (Bool-cases (n == header_size)) [
          | inl whole ↦ elim (Bool-cases (length m.body == 0)) [
            | inl bare ↦ elim (List-cases rest) [
              | inl last ↦ quiet (ground (arith, ap length last))
              | inr (x, xs, more) ↦
                  write_message_header-IsWriting
                    (record c {
                      pending_writes = [];
                      messages_queue = record { messages_queue = rest };
                    })
                    c' refl f (ground (arith, ap length more))
            ]
            | inr full ↦
                write_message_body-IsWriting (record c { pending_writes = [] }) c' refl f
                  (ground arith)
          ]
          | inr short ↦
              write_message_header-IsWriting (record c { pending_writes = [] }) c' refl f
                (ground arith)
        ]

    pub post_write_message_body-IsWriting :
        (error : Bool) (c c' : TcpConnection T D)
        → post_write_message_body header_size disconnect error c ≡ returns c'
        → IsWriting c
        → IsWriting c'
    unfolding post_write_message_body MessageQueue.pop MessageQueue.empty
    post_write_message_body-IsWriting error c c' h (quiet p) = quiet (ground arith)
    post_write_message_body-IsWriting true c c' h (writing m rest w q p k f) =
        failed-IsWriting (record c { pending_writes = [] }) c' (ground arith) refl
    post_write_message_body-IsWriting false c c' h (writing m rest w q p k f) =
        elim (List-cases rest) [
          | inl last ↦ quiet (ground (arith, ap length last))
          | inr (x, xs, more) ↦
              write_message_header-IsWriting
                (record c {
                  pending_writes = [];
                  messages_queue = record { messages_queue = rest };
                })
                c' refl f (ground (arith, ap length more))
        ]
