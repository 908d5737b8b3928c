-- ===== src/Connection/Wire.antt =====
-- Two ends of a TCP connection: what the writes of one end put on the wire, and what the reads of
-- the other take from it.
use process_manager_module.Base.{
  ℕ, zero, suc, ◌≡◌, false, List, [], ◌∷◌, ◌++◌, map, Option, none, some, Outcome, returns, ◌>>=◌,
  ◌==◌, length,
}
use process_manager_module.Connection.{
  TcpMessage, Write, header_write, body_write, header_read, body_read, Read, TcpConnection,
}
use process_manager_module.Connection.Handlers.{post_read_message_header, post_read_message_body}

-- A header is taken as a whole; a body comes byte by byte.
pub data Cell (T : Type 0) : Type 0 where
  header_cell : T → ℕ → Cell T
  byte_cell : ℕ → Cell T

module _ {T : Type 0} where
  abbrev pub write_cells : Write T → List (Cell T)
  write_cells (header_write m) = header_cell m.operation_code m.size ∷ []
  write_cells (body_write m) = map byte_cell m.body

  unfoldable pub wire : List (Write T) → List (Cell T)
  wire [] = []
  wire (w ∷ ws) = write_cells w ++ wire ws

  -- Exactly so many bytes, and what follows them.
  unfoldable pub take_bytes : ℕ → List (Cell T) → Option (List ℕ × List (Cell T))
  take_bytes zero cells = some ([], cells)
  take_bytes (suc n) (byte_cell b ∷ cells) = elim (take_bytes n cells) [
    | none ↦ none
    | some (bs, rest) ↦ some (b ∷ bs, rest)
  ]
  take_bytes (suc n) _ = none

  -- The declared size of a message is that of its body, and the body is not empty.
  abbrev pub IsFramed : TcpMessage T → Type 0
  IsFramed m = (m.size ≡ length m.body) × ((length m.body == 0) ≡ false)

module _ {T D : Type 0}
    (handle_received_message : Option (TcpMessage T)
      → TcpConnection T D
      → Outcome (TcpConnection T D)) where
  -- The handler returns, and leaves the reading half and the socket alone.
  pub record Handles (handle : TcpMessage T → TcpConnection T D → TcpConnection T D) : Type 0 where
    pub result :
        (m : TcpMessage T) (c : TcpConnection T D)
        → handle_received_message (some m) c ≡ returns (handle m c)
    pub same_socket : (m : TcpMessage T) (c : TcpConnection T D) → (handle m c).socket ≡ c.socket
    pub same_reads :
        (m : TcpMessage T) (c : TcpConnection T D) → (handle m c).pending_reads ≡ c.pending_reads
    pub same_incoming :
        (m : TcpMessage T) (c : TcpConnection T D)
        → (handle m c).incoming_message ≡ c.incoming_message

module _ {T D : Type 0} where
  -- The connection waits for the header of the next message.
  abbrev pub awaiting : TcpMessage T → TcpConnection T D → TcpConnection T D
  awaiting allocated c = record c {
    pending_reads = header_read ∷ [];
    incoming_message = some allocated;
  }

  -- No read is pending, as while a message is handled.
  abbrev pub between_reads : TcpConnection T D → TcpConnection T D
  between_reads c = record c { pending_reads = []; incoming_message = none }

  unfoldable pub handle_all :
      (TcpMessage T → TcpConnection T D → TcpConnection T D)
      → List (TcpMessage T)
      → TcpConnection T D
      → TcpConnection T D
  handle_all handle [] c = c
  handle_all handle (m ∷ ms) c = handle_all handle ms (handle m c)

module _ {T D : Type 0} (header_size : ℕ) (resize : ℕ → List ℕ → List ℕ)
    (disconnect : TcpConnection T D → Outcome (TcpConnection T D))
    (handle_received_message : Option (TcpMessage T)
      → TcpConnection T D
      → Outcome (TcpConnection T D))
    (allocated : TcpMessage T) where
  -- A read completes with what is at the front of the wire, if that is enough for it.
  unfoldable pub read_header :
      List (Cell T) → TcpConnection T D → Outcome (TcpConnection T D × List (Cell T))
  read_header (header_cell code size ∷ cells) c = do
    c' ←
        post_read_message_header header_size resize disconnect handle_received_message false
          header_size code size c
    returns (c', cells)
  read_header cells c = returns (c, cells)

  unfoldable pub read_body :
      ℕ → List (Cell T) → TcpConnection T D → Outcome (TcpConnection T D × List (Cell T))
  read_body n cells c = elim (take_bytes n cells) [
    | none ↦ returns (c, cells)
    | some (received, rest) ↦ do
      c' ←
          post_read_message_body header_size resize disconnect handle_received_message false
            received (some allocated) c
      returns (c', rest)
  ]

  unfoldable pub read_once :
      Read → List (Cell T) → TcpConnection T D → Outcome (TcpConnection T D × List (Cell T))
  read_once header_read cells c = read_header cells c
  read_once (body_read n) cells c = read_body n cells c

  -- A number of completions of reads.
  unfoldable pub completed_reads :
      ℕ → List (Cell T) → TcpConnection T D → Outcome (TcpConnection T D × List (Cell T))
  completed_reads zero cells c = returns (c, cells)
  completed_reads (suc n) cells c = elim c.pending_reads [
    | [] ↦ returns (c, cells)
    | r ∷ rs ↦ do (c', rest) ← read_once r cells c; completed_reads n rest c'
  ]
