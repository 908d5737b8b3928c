-- ===== src/Connection/Sending.antt =====
-- From `sendMessage` at one end of a TCP connection to the handler at the other.
use mathlib.Core.List.{append-nil, append_assoc}
use process_manager_module.Base.{
  ℕ, suc, ◌≡◌, refl, ◌∙◌, Bool, true, false, List, [], ◌∷◌, ◌++◌, Option, none, some, Outcome,
  returns, ◌>>=◌, length, arith, All,
}
use process_manager_module.MessageQueue
use process_manager_module.MessageQueue.{MessageQueue}
use process_manager_module.Connection.{
  TcpMessage, Write, header_write, TcpConnection, send_message, write_message_header,
  start_reading_sequence, read_message_header,
}
use process_manager_module.Connection.Steps.{completed_writes}
use process_manager_module.Connection.Wire.{
  IsFramed, Handles, awaiting, handle_all, completed_reads, wire,
}
use process_manager_module.Connection.Transfer.{transfer}

module _ {T D : Type 0} where
  -- Sending some messages, one call after the other.
  unfoldable pub send_all : List (TcpMessage T) → TcpConnection T D → Outcome (TcpConnection T D)
  send_all [] c = returns c
  send_all (m ∷ ms) c = do c' ← send_message m c; send_all ms c'

  -- A connection that is open, and writes nothing.
  pub record IsIdle (c : TcpConnection T D) : Type 0 where
    pub is_open : c.socket ≡ some true
    pub nothing_queued : c.messages_queue.messages_queue ≡ []
    pub nothing_written : c.pending_writes ≡ []
    pub not_in_progress : c.sending_in_progress ≡ false

  send_first :
      (m : TcpMessage T) (c : TcpConnection T D)
      → IsIdle c
      → send_message m c
        ≡ returns (record c {
          messages_queue = record { messages_queue = m ∷ [] };
          sending_in_progress = true;
          pending_writes = header_write m ∷ [];
        })
  unfolding send_message write_message_header MessageQueue.push MessageQueue.front
  send_first m c i =
      ground (arith, i.is_open, i.nothing_queued, i.nothing_written, i.not_in_progress)

  send_busy :
      (m : TcpMessage T) (qs : List (TcpMessage T)) (c : TcpConnection T D)
      → c.socket ≡ some true
      → c.sending_in_progress ≡ true
      → send_message m (record c { messages_queue = record { messages_queue = qs } })
        ≡ returns (record c { messages_queue = record { messages_queue = qs ++ m ∷ [] } })
  unfolding send_message MessageQueue.push
  send_busy m qs c o f = ground (arith, o, f)

  send_later :
      (ms qs : List (TcpMessage T)) (c : TcpConnection T D)
      → c.socket ≡ some true
      → c.sending_in_progress ≡ true
      → send_all ms (record c { messages_queue = record { messages_queue = qs } })
        ≡ returns (record c { messages_queue = record { messages_queue = qs ++ ms } })
  unfolding send_all
  send_later [] qs c o f = rw (append-nil qs)
  send_later (m ∷ ms) qs c o f =
      rw (send_busy m qs c o f)
        (send_later ms (qs ++ m ∷ []) c o f ∙ rw (append_assoc qs (m ∷ []) ms))

  abbrev pub sending : TcpMessage T → List (TcpMessage T) → TcpConnection T D → TcpConnection T D
  sending m ms c = record c {
    messages_queue = record { messages_queue = m ∷ ms };
    sending_in_progress = true;
    pending_writes = header_write m ∷ [];
  }

  send_all-idle :
      (m : TcpMessage T) (ms : List (TcpMessage T)) (c : TcpConnection T D)
      → IsIdle c
      → send_all (m ∷ ms) c ≡ returns (sending m ms c)
  unfolding send_all
  send_all-idle m ms c i =
      rw (send_first m c i) (send_later ms (m ∷ []) (sending m [] c) i.is_open refl)

module _ {T E D : Type 0} (header_size : ℕ) (resize : ℕ → List ℕ → List ℕ)
    (sender_disconnect : TcpConnection T E → Outcome (TcpConnection T E))
    (disconnect : TcpConnection T D → Outcome (TcpConnection T D))
    (handle_received_message : Option (TcpMessage T)
      → TcpConnection T D
      → Outcome (TcpConnection T D))
    (allocated : TcpMessage T) (handle : TcpMessage T → TcpConnection T D → TcpConnection T D) where
  -- Messages that are not empty and declare their sizes are sent, by one call after the other, on an
  -- idle connection; the other end has started reading, with no read pending before, and its handler
  -- returns without touching the reading half or the socket. Then all these calls return; the
  -- completions of the writes empty the queue and clear `sendingInProgress`; those of the reads take
  -- all that was written, and the receiver has handled exactly these messages, whole and in their
  -- order, and waits for the next header.
  pub send_all_arrives :
      Handles handle_received_message handle
      → ((n : ℕ) (l : List ℕ) → length (resize n l) ≡ n)
      → (m : TcpMessage T) (ms : List (TcpMessage T)) (sender : TcpConnection T E)
        (receiver : TcpConnection T D) (b : Bool)
      → IsIdle sender
      → receiver.socket ≡ some b
      → receiver.pending_reads ≡ []
      → receiver.incoming_message ≡ none
      → All IsFramed (m ∷ ms)
      → (sent sender' : TcpConnection T E) × (reading : TcpConnection T D) × (written : List
          (Write T))
        × (send_all (m ∷ ms) sender ≡ returns sent)
        × (start_reading_sequence (some allocated) receiver ≡ returns reading)
        × (completed_writes header_size sender_disconnect (suc (length ms)) sent
            ≡ returns (sender', written))
        × (sender'.messages_queue.messages_queue ≡ [])
        × (sender'.sending_in_progress ≡ false)
        × (completed_reads header_size resize disconnect handle_received_message allocated
              (length written)
              (wire written)
              reading
            ≡ returns (awaiting allocated (handle_all handle (m ∷ ms) receiver), []))
  unfolding start_reading_sequence read_message_header
  send_all_arrives handles resized m ms sender receiver b idle t r i framed =
      let (sender', written, e, empty, clear, arrived) =
        transfer header_size resize sender_disconnect disconnect handle_received_message allocated
          handle handles resized ms m (sending m ms sender) receiver true b idle.is_open refl refl
          refl t r i framed in
      (
        sending m ms sender,
        sender',
        awaiting allocated receiver,
        written,
        send_all-idle m ms sender idle,
        ground (arith, t, r),
        e,
        empty,
        clear,
        arrived,
      )
