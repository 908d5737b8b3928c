-- ===== src/Connection/Framing.antt =====
-- The reads of a connection that waits for a header take whole messages from the wire.
use process_manager_module.Base.{
  ℕ, zero, suc, ◌≡◌, refl, ap, ◌∙◌, Bool, true, false, List, [], ◌∷◌, ◌++◌, map, Option, none, some,
  Outcome, returns, ◌==◌, ==_self, length, arith, All,
}
use process_manager_module.Connection.{
  TcpMessage, header_read, body_read, TcpConnection, read_message_header, read_message_body,
  start_reading_sequence,
}
use process_manager_module.Connection.Handlers.{post_read_message_header, post_read_message_body}
use process_manager_module.Connection.Steps.{writes_of}
use process_manager_module.Connection.Wire.{
  Cell, header_cell, byte_cell, wire, take_bytes, IsFramed, Handles, awaiting, between_reads,
  handle_all, read_header, read_body, read_once, completed_reads,
}

module _ {T : Type 0} where
  take_bytes-map :
      (bs : List ℕ) (cells : List (Cell T))
      → take_bytes (length bs) (map byte_cell bs ++ cells) ≡ some (bs, cells)
  unfolding take_bytes
  take_bytes-map [] cells = refl
  take_bytes-map (b ∷ bs) cells = rw (take_bytes-map bs cells)

module _ {T D : Type 0} (header_size : ℕ) (resize : ℕ → List ℕ → List ℕ)
    (disconnect : TcpConnection T D → Outcome (TcpConnection T D))
    (handle_received_message : Option (TcpMessage T)
      → TcpConnection T D
      → Outcome (TcpConnection T D))
    (allocated : TcpMessage T) where
  module _ (handle : TcpMessage T → TcpConnection T D → TcpConnection T D)
      (handles : Handles handle_received_message handle)
      (resized : (n : ℕ) (l : List ℕ) → length (resize n l) ≡ n) where
    header_arrives :
        (m : TcpMessage T) (cells : List (Cell T)) (c : TcpConnection T D) (b : Bool)
        → c.socket ≡ some b
        → (m.size == 0) ≡ false
        → read_once header_size resize disconnect handle_received_message allocated header_read
            (header_cell m.operation_code m.size ∷ cells)
            (awaiting allocated c)
          ≡ returns (
            record c {
              pending_reads = body_read m.size ∷ [];
              incoming_message = some (record {
                operation_code = m.operation_code;
                size = m.size;
                body = resize m.size allocated.body;
              });
            },
            cells,
          )
    unfolding read_once read_header post_read_message_header read_message_body
    header_arrives m cells c b s full =
        let whole : (header_size == header_size) ≡ true = ==_self header_size in
        rw (whole, full, s, resized m.size allocated.body)

    restarts :
        (m : TcpMessage T) (c : TcpConnection T D) (b : Bool)
        → c.socket ≡ some b
        → c.pending_reads ≡ []
        → start_reading_sequence (some allocated) (handle m c)
          ≡ returns (awaiting allocated (handle m c))
    unfolding start_reading_sequence read_message_header
    restarts m c b s q =
        let open_still : (handle m c).socket ≡ some b = handles.same_socket m c ∙ s in
        let none_pending : (handle m c).pending_reads ≡ [] = handles.same_reads m c ∙ q in
        ground (arith, open_still, none_pending)

    body_arrives :
        (m : TcpMessage T) (cells : List (Cell T)) (c : TcpConnection T D) (body : List ℕ)
        (b : Bool)
        → c.socket ≡ some b
        → c.pending_reads ≡ body_read m.size ∷ []
        → c.incoming_message ≡ some (record m { body = body })
        → m.size ≡ length m.body
        → read_once header_size resize disconnect handle_received_message allocated
            (body_read m.size)
            (map byte_cell m.body ++ cells)
            c
          ≡ returns (awaiting allocated (handle m (between_reads c)), cells)
    unfolding read_once read_body post_read_message_body
    body_arrives m cells c body b s p i e = ground (
      arith,
      ap (λ n. take_bytes n (map byte_cell m.body ++ cells)) e,
      take_bytes-map m.body cells,
      handles.result m (between_reads c),
      restarts m (between_reads c) b s refl,
    )

    message_arrives :
        (n : ℕ) (m : TcpMessage T) (cells : List (Cell T)) (c : TcpConnection T D) (b : Bool)
        → c.socket ≡ some b
        → IsFramed m
        → completed_reads header_size resize disconnect handle_received_message allocated
            (suc (suc n))
            (header_cell m.operation_code m.size ∷ map byte_cell m.body ++ cells)
            (awaiting allocated c)
          ≡ completed_reads header_size resize disconnect handle_received_message allocated n cells
              (awaiting allocated (handle m (between_reads c)))
    unfolding completed_reads
    message_arrives n m cells c b s f =
        let body = resize m.size allocated.body in
        let reading : TcpConnection T D = record c {
          pending_reads = body_read m.size ∷ [];
          incoming_message = some (record m { body = body });
        } in
        rw (
          header_arrives m (map byte_cell m.body ++ cells) c b s (rw f.0 f.1),
          body_arrives m cells reading body b s refl refl f.0,
        )

    -- The reads of a connection take whole messages from the wire, one after the other.
    pub completed_reads-wire :
        (ms : List (TcpMessage T)) (c : TcpConnection T D) (b : Bool)
        → c.socket ≡ some b
        → c.pending_reads ≡ []
        → c.incoming_message ≡ none
        → All IsFramed ms
        → completed_reads header_size resize disconnect handle_received_message allocated
            (length (writes_of ms))
            (wire (writes_of ms))
            (awaiting allocated c)
          ≡ returns (awaiting allocated (handle_all handle ms c), [])
    unfolding completed_reads wire handle_all
    completed_reads-wire [] c b s p i f = refl
    completed_reads-wire (m ∷ ms) c b s p i f =
        let paused : between_reads c ≡ c = rw (← p, ← i) in
        message_arrives (length (writes_of ms)) m (wire (writes_of ms)) c b s f.0
        ∙ rw paused (
            completed_reads-wire ms (handle m c) b (handles.same_socket m c ∙ s)
              (handles.same_reads m c ∙ p) (handles.same_incoming m c ∙ i) f.1)

  -- A header that declares no body ends the reading: the message is not handled, and whatever comes
  -- next is never read.
  pub bare_header_deafens :
      (code : T) (cells : List (Cell T)) (c : TcpConnection T D) (n : ℕ)
      → completed_reads header_size resize disconnect handle_received_message allocated
          (suc n)
          (header_cell code 0 ∷ cells)
          (awaiting allocated c)
        ≡ returns (
          record c {
            pending_reads = [];
            incoming_message = some (record allocated { operation_code = code; size = 0 });
          },
          cells,
        )
  unfolding completed_reads read_once read_header post_read_message_header
  bare_header_deafens code cells c n =
      let whole : (header_size == header_size) ≡ true = ==_self header_size in rw whole (stays n)
    where
      stays :
          (n : ℕ)
          → let d = record c {
            pending_reads = [];
            incoming_message = some (record allocated { operation_code = code; size = 0 });
          } in
            completed_reads header_size resize disconnect handle_received_message allocated n cells
              d
            ≡ returns (d, cells)
      stays zero = refl
      stays (suc n) = refl
