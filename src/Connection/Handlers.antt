-- ===== src/Connection/Handlers.antt =====
-- The handlers of the reads and writes of Source/include/Connection.hpp that have completed.
use process_manager_module.Base.{
  ℕ, Bool, false, List, [], ◌∷◌, Option, none, some, Outcome, returns, throws, null_dereference,
  ◌>>=◌, if◌then◌else◌, ◌==◌, length,
}
use process_manager_module.MessageQueue
use process_manager_module.MessageQueue.{MessageQueue}
use process_manager_module.Connection.{
  TcpMessage, TcpConnection, read_message_body, write_message_header, write_message_body,
  start_reading_sequence,
}

-- The handlers. `header_size` is that of the header, and `resize` sets the length of a body.
module _ {T D : Type 0} (header_size : ℕ) (resize : ℕ → List ℕ → List ℕ)
    (disconnect : TcpConnection T D → Outcome (TcpConnection T D))
    (handle_received_message : Option (TcpMessage T)
      → TcpConnection T D
      → Outcome (TcpConnection T D)) where
  -- After a header was read, with the operation code and the size that it held.
  unfoldable pub post_read_message_header :
      Bool → ℕ → T → ℕ → TcpConnection T D → Outcome (TcpConnection T D)
  unfolding read_message_body
  post_read_message_header error bytes_transferred code size c = elim c.pending_reads [
    | [] ↦ returns c
    | r ∷ rest ↦
        let c' = record c { pending_reads = rest } in
        if error
        then disconnect c'
        else if bytes_transferred == header_size
        then (elim c.incoming_message [
          | none ↦ throws null_dereference
          | some m ↦
              let received : TcpMessage T = record m { operation_code = code; size = size } in
              if size == 0
              then returns (record c' { incoming_message = some received })
              else read_message_body (record c' {
                incoming_message = some (record received { body = resize size m.body });
              })
        ])
        else returns c'
  ]

  -- After a body was read, with what it held.
  unfoldable pub post_read_message_body :
      Bool → List ℕ → Option (TcpMessage T) → TcpConnection T D → Outcome (TcpConnection T D)
  unfolding start_reading_sequence
  post_read_message_body error received allocated c = elim c.pending_reads [
    | [] ↦ returns c
    | r ∷ rest ↦
        let c' = record c { pending_reads = rest } in
        if error then disconnect c' else (do
          let local_message : Option (TcpMessage T) = elim c.incoming_message [
            | none ↦ none
            | some m ↦ some (record m { body = received })
          ]
          c₁ ← handle_received_message local_message (record c' { incoming_message = none })
          start_reading_sequence allocated c₁)
  ]

module _ {T D : Type 0} (header_size : ℕ)
    (disconnect : TcpConnection T D → Outcome (TcpConnection T D)) where
  unfoldable pub post_write_message_header :
      Bool → ℕ → TcpConnection T D → Outcome (TcpConnection T D)
  unfolding write_message_header write_message_body
  post_write_message_header error bytes_transferred c = elim c.pending_writes [
    | [] ↦ returns c
    | w ∷ rest ↦
        let c' = record c { pending_writes = rest } in
        if error
        then (do c₁ ← disconnect c'; returns (record c₁ { sending_in_progress = false }))
        else if bytes_transferred == header_size
        then (do
          m ← MessageQueue.front c.messages_queue
          if length m.body == 0
              then (do
                q ← MessageQueue.pop c.messages_queue
                if MessageQueue.empty q
                    then returns (record c' { messages_queue = q })
                    else write_message_header (record c' { messages_queue = q }))
              else write_message_body c')
        else write_message_header c'
  ]

  unfoldable pub post_write_message_body : Bool → TcpConnection T D → Outcome (TcpConnection T D)
  unfolding write_message_header
  post_write_message_body error c = elim c.pending_writes [
    | [] ↦ returns c
    | w ∷ rest ↦
        let c' = record c { pending_writes = rest } in
        if error
        then (do c₁ ← disconnect c'; returns (record c₁ { sending_in_progress = false }))
        else (do
          q ← MessageQueue.pop c.messages_queue
          if MessageQueue.empty q
              then returns (record c' { messages_queue = q; sending_in_progress = false })
              else write_message_header (record c' { messages_queue = q }))
  ]
