-- ===== src/Connection.antt =====
-- Source/include/Connection.hpp: a TCP connection that carries messages with a header and a body.
-- `T` is the type of operation codes, and `D` the data of the class that derives from
-- `TcpConnection`, whose virtual functions are parameters. The operations of Boost.Asio that have
-- not completed are lists, oldest first; their handlers are functions here, which take one off its
-- list. Writing and reading at a null socket is a null dereference.
pub mod Handlers
pub mod Writing
pub mod Steps
pub mod Wire
pub mod Framing
pub mod Transfer
pub mod Sending
use process_manager_module.Base.{
  ℕ, suc, ◌+◌, ◌≡◌, Bool, true, false, List, [], ◌∷◌, ◌++◌, Option, none, some, Outcome, returns,
  throws, null_dereference, ◌>>=◌, if◌then◌else◌, ◌==◌, length,
}
use process_manager_module.Base.Int.{ℤ}
use process_manager_module.MessageQueue
use process_manager_module.MessageQueue.{MessageQueue}

-- `Communication::Message` with its header; a character of the body is its number.
pub record TcpMessage (T : Type 0) : Type 0 where
  pub operation_code : T
  pub size : ℕ  -- uint32_t
  pub body : List ℕ

pub data Write (T : Type 0) : Type 0 where
  header_write : TcpMessage T → Write T
  body_write : TcpMessage T → Write T

pub data Read : Type 0 where
  header_read : Read
  body_read : ℕ → Read

pub record TcpConnection (T D : Type 0) : Type 0 where
  pub socket : Option Bool  -- `none` is a null pointer; is the socket open?
  pub messages_queue : MessageQueue (TcpMessage T)
  pub incoming_message : Option (TcpMessage T)
  pub last_ping : ℤ
  pub sending_in_progress : Bool
  pub pending_writes : List (Write T)
  pub pending_reads : List Read
  pub pending_waits : List ℕ  -- of the timer, in milliseconds
  pub derived : D

module _ {T D : Type 0} where
  -- The constructor, with the data of the derived class.
  unfoldable pub new_connection : ℤ → D → TcpConnection T D
  new_connection not_a_date_time derived = record {
    socket = some false;
    messages_queue = record { messages_queue = [] };
    incoming_message = none;
    last_ping = not_a_date_time;
    sending_in_progress = false;
    pending_writes = [];
    pending_reads = [];
    pending_waits = [];
    derived = derived;
  }

  unfoldable pub is_connected : TcpConnection T D → Outcome Bool
  is_connected c = elim c.socket [ none ↦ throws null_dereference | some is_open ↦ returns is_open ]

  -- `disconnect` of the base class, and `closeSocket`.
  unfoldable pub close_socket : TcpConnection T D → Outcome (TcpConnection T D)
  close_socket c = elim c.socket [
    | none ↦ throws null_dereference
    | some is_open ↦ returns (record c { socket = some false })
  ]

  unfoldable pub make_new_socket : TcpConnection T D → TcpConnection T D
  make_new_socket c = record c { socket = some false }

  -- `accepted` tells whether the connection is accepted: `connect` opens the socket, and throws
  -- otherwise, with the socket open.
  unfoldable pub connect : Bool → TcpConnection T D → TcpConnection T D × Bool
  connect accepted c = elim c.socket [
    | none ↦ (c, false)
    | some is_open ↦ (record c { socket = some true }, accepted)
  ]

  -- The waits that are pending when the timer is set again are cancelled, which runs their handlers
  -- too: `timerExpired` is bound without the error.
  unfoldable pub set_timer_expiration : ℕ → TcpConnection T D → TcpConnection T D
  set_timer_expiration duration c = record c { pending_waits = c.pending_waits ++ duration ∷ [] }

  unfoldable pub write_message_header : TcpConnection T D → Outcome (TcpConnection T D)
  write_message_header c = elim c.socket [
    | none ↦ returns c
    | some is_open ↦ do
      m ← MessageQueue.front c.messages_queue
      returns (record c { pending_writes = c.pending_writes ++ header_write m ∷ [] })
  ]

  unfoldable pub write_message_body : TcpConnection T D → Outcome (TcpConnection T D)
  write_message_body c = elim c.socket [
    | none ↦ throws null_dereference
    | some is_open ↦ do
      m ← MessageQueue.front c.messages_queue
      returns (record c { pending_writes = c.pending_writes ++ body_write m ∷ [] })
  ]

  unfoldable pub send_message : TcpMessage T → TcpConnection T D → Outcome (TcpConnection T D)
  unfolding write_message_header
  send_message m c =
      let (q, pushed) = MessageQueue.push m c.messages_queue in
      let c' = record c { messages_queue = q } in
      elim c.socket [
        | none ↦ returns c'
        | some is_open ↦
            if is_open
            then (if c.sending_in_progress
                then returns c'
                else write_message_header (record c' { sending_in_progress = true }))
            else returns c'
      ]

  unfoldable pub read_message_header : TcpConnection T D → Outcome (TcpConnection T D)
  read_message_header c = elim c.socket [
    | none ↦ throws null_dereference
    | some is_open ↦ elim c.incoming_message [
      | none ↦ throws null_dereference
      | some m ↦ returns (record c { pending_reads = c.pending_reads ++ header_read ∷ [] })
    ]
  ]

  unfoldable pub read_message_body : TcpConnection T D → Outcome (TcpConnection T D)
  read_message_body c = elim c.socket [
    | none ↦ throws null_dereference
    | some is_open ↦ elim c.incoming_message [
      | none ↦ throws null_dereference
      | some m ↦
          returns (record c { pending_reads = c.pending_reads ++ body_read (length m.body) ∷ [] })
    ]
  ]

  -- `allocated` is the new message, if the allocation succeeds.
  unfoldable pub start_reading_sequence :
      Option (TcpMessage T) → TcpConnection T D → Outcome (TcpConnection T D)
  unfolding read_message_header
  start_reading_sequence allocated c =
      read_message_header (record c { incoming_message = allocated })

  unfoldable pub start_reading :
      ℤ → Option (TcpMessage T) → TcpConnection T D → Outcome (TcpConnection T D)
  unfolding start_reading_sequence
  start_reading now allocated c = start_reading_sequence allocated (record c { last_ping = now })
