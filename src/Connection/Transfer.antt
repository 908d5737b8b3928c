-- ===== src/Connection/Transfer.antt =====
-- Both ends of a TCP connection together: what one writes, the other handles.
use process_manager_module.Base.{
  ℕ, suc, ◌≡◌, Bool, true, false, List, [], ◌∷◌, Option, none, some, Outcome, returns, ◌==◌, length,
  All, All-map,
}
use process_manager_module.Connection.{TcpMessage, Write, header_write, TcpConnection}
use process_manager_module.Connection.Steps.{completed_writes, completed_writes_drain, writes_of}
use process_manager_module.Connection.Wire.{
  IsFramed, Handles, awaiting, handle_all, completed_reads, wire,
}
use process_manager_module.Connection.Framing.{completed_reads-wire}

module _ {T E D : Type 0} (header_size : ℕ) (resize : ℕ → List ℕ → List ℕ)
    (sender_disconnect : TcpConnection T E → Outcome (TcpConnection T E))
    (disconnect : TcpConnection T D → Outcome (TcpConnection T D))
    (handle_received_message : Option (TcpMessage T)
      → TcpConnection T D
      → Outcome (TcpConnection T D))
    (allocated : TcpMessage T) (handle : TcpMessage T → TcpConnection T D → TcpConnection T D) where
  -- The two ends of a connection, of which one writes the messages of its queue and the other waits
  -- for a header. If the messages declare their sizes, and none is empty, and the handler of the
  -- receiver returns without touching the reading half or the socket: the completions of the writes
  -- empty the queue, those of the reads take all that was written, and the receiver has handled
  -- exactly these messages, whole and in their order, and waits for the next header.
  pub transfer :
      Handles handle_received_message handle
      → ((n : ℕ) (l : List ℕ) → length (resize n l) ≡ n)
      → (ms : List (TcpMessage T)) (m : TcpMessage T) (sender : TcpConnection T E)
        (receiver : TcpConnection T D) (a b : Bool)
      → sender.socket ≡ some a
      → sender.messages_queue.messages_queue ≡ m ∷ ms
      → sender.pending_writes ≡ header_write m ∷ []
      → sender.sending_in_progress ≡ true
      → receiver.socket ≡ some b
      → receiver.pending_reads ≡ []
      → receiver.incoming_message ≡ none
      → All IsFramed (m ∷ ms)
      → (sender' : TcpConnection T E) × (written : List (Write T)) × (completed_writes header_size
            sender_disconnect
            (suc (length ms))
            sender
          ≡ returns (sender', written))
        × (sender'.messages_queue.messages_queue ≡ [])
        × (sender'.sending_in_progress ≡ false)
        × (completed_reads header_size resize disconnect handle_received_message allocated
              (length written)
              (wire written)
              (awaiting allocated receiver)
            ≡ returns (awaiting allocated (handle_all handle (m ∷ ms) receiver), []))
  transfer handles resized ms m sender receiver a b s q p f t r i framed =
      let full =
        All-map IsFramed (λ x. (length x.body == 0) ≡ false) (m ∷ ms) (λ x h. h.1) framed in
      let (sender', e, empty, none_pending, clear) =
        completed_writes_drain header_size sender_disconnect ms m a sender s q p f full in
      (
        sender',
        writes_of (m ∷ ms),
        e,
        empty,
        clear,
        completed_reads-wire header_size resize disconnect handle_received_message allocated handle
            handles resized (m ∷ ms) receiver b t r i framed,
      )
