-- ===== src/Watchdog.antt =====
-- Source/src/ModuleConnection.cpp, Source/src/ModuleWatchdogConnectionState.cpp and
-- Source/src/ModuleResponse*Handler.cpp: the connection of the module to the watchdog process.
-- Generated code, and parameters here: the serializing and parsing of the messages' bodies. What
-- `ParseFromString` answers is never looked at, so parsing always gives some data.
pub mod Laws
pub mod Responses
pub mod Watcher
pub mod Steps
pub mod Reconnect
use process_manager_module.Base.{
  ℕ, ◌+◌, ◌%◌, ◌^◌, ◌≡◌, Bool, true, false, List, [], ◌∷◌, ◌++◌, Option, none, some, Outcome,
  returns, throws, null_dereference, ◌>>=◌, if◌then◌else◌, ◌==◌, length,
}
use process_manager_module.MessageQueue.{MessageQueue}
use process_manager_module.Connection.{
  TcpMessage, TcpConnection, send_message, set_timer_expiration,
}

pub data Operation : Type 0 where
  connect_request ping_request shutdown_request : Operation
  connect_response ping_response reconnect_response : Operation
  other_operation : ℕ → Operation

pub data ConnectionState : Type 0 where
  not_connected connected shutdown : ConnectionState

abbrev pub is_state_connected : ConnectionState → Bool
is_state_connected connected = true
is_state_connected _ = false

-- The threads that wait for the state.
pub data Thread : Type 0 where
  main_thread watcher_thread : Thread

-- The state, and the threads that sleep until it is notified. Each call holds the lock to its end;
-- a wait has no condition of its own.
pub record WatchdogConnectionState : Type 0 where
  pub connection_state : ConnectionState
  pub sleepers : List Thread

unfoldable pub set_connection_state :
    ConnectionState → WatchdogConnectionState → WatchdogConnectionState
set_connection_state state w = record w { connection_state = state }

unfoldable pub set_connection_state_and_notify_all :
    ConnectionState → WatchdogConnectionState → WatchdogConnectionState
unfolding set_connection_state
set_connection_state_and_notify_all state w = record (set_connection_state state w) {
  sleepers = [];
}

-- Which sleeper is woken is open: `wake_one` takes one away, if there is any.
unfoldable pub set_connection_state_and_notify_one :
    (List Thread → List Thread)
    → ConnectionState
    → WatchdogConnectionState
    → WatchdogConnectionState
unfolding set_connection_state
set_connection_state_and_notify_one wake_one state w = record (set_connection_state state w) {
  sleepers = wake_one w.sleepers;
}

-- The start of a wait, timed or not; when it ends it answers the state of that moment.
unfoldable pub fall_asleep : Thread → WatchdogConnectionState → WatchdogConnectionState
fall_asleep t w = record w { sleepers = w.sleepers ++ t ∷ [] }

pub record WatchdogData : Type 0 where
  pub watchdog_connection_state : WatchdogConnectionState
  pub sequence_code : ℕ

abbrev pub Connection : Type 0
Connection = TcpConnection Operation WatchdogData

abbrev pub state_of : Connection → ConnectionState
state_of c = c.derived.watchdog_connection_state.connection_state

unfoldable pub notify_state : ConnectionState → Connection → Connection
unfolding set_connection_state_and_notify_all
notify_state state c = record c {
  derived = record c.derived {
    watchdog_connection_state =
        set_connection_state_and_notify_all state c.derived.watchdog_connection_state;
  };
}

-- `ModuleWatchdogConnection::disconnect`
unfoldable pub disconnect : Connection → Outcome Connection
unfolding notify_state
disconnect c = elim c.socket [
  | none ↦ throws null_dereference
  | some is_open ↦
      let c' : Connection = record c { socket = some false } in
      returns (if is_state_connected (state_of c) then notify_state not_connected c' else c')
]

unfoldable pub message_of : Operation → List ℕ → TcpMessage Operation
message_of code body = record { operation_code = code; size = length body % 2 ^ 32; body = body }

module _ (serialize_identifier : ℕ → List ℕ) where
  unfoldable pub send_connect_request : ℕ → Connection → Outcome Connection
  unfolding message_of
  send_connect_request module_identifier c =
      send_message (message_of connect_request (serialize_identifier module_identifier)) c

  unfoldable pub send_shutdown_request : ℕ → Connection → Outcome Connection
  unfolding message_of
  send_shutdown_request module_identifier c =
      send_message (message_of shutdown_request (serialize_identifier module_identifier)) c

module _ (serialize_code : ℕ → List ℕ) where
  unfoldable pub send_ping : Connection → Outcome Connection
  unfolding message_of
  send_ping c = send_message (message_of ping_request (serialize_code c.derived.sequence_code)) c

  -- The handler of the oldest wait of the timer.
  unfoldable pub timer_expired : Connection → Outcome Connection
  unfolding send_ping
  timer_expired c = elim c.pending_waits [
    | [] ↦ returns c
    | duration ∷ rest ↦ send_ping (record c { pending_waits = rest })
  ]

pub data ConnectResponseCode : Type 0 where
  connect_success invalid_connection_state not_module_identifier module_not_exists :
      ConnectResponseCode
  other_connect_response : ℕ → ConnectResponseCode

pub record ConnectResponseData : Type 0 where
  pub response_code : ConnectResponseCode
  pub response_sequence_code : Option ℕ

-- `onResponseCodeSuccess`: the new state, and the connection with its sequence code.
unfoldable pub on_response_code_success :
    ConnectResponseData → Connection → ConnectionState × Connection
on_response_code_success data_received c = elim data_received.response_sequence_code [
  | none ↦ (not_connected, c)
  | some code ↦ (connected, record c { derived = record c.derived { sequence_code = code } })
]

unfoldable pub handle_connect_data : ConnectResponseData → Connection → Connection
unfolding on_response_code_success notify_state
handle_connect_data data_received c = elim data_received.response_code [
  | connect_success ↦
      let (state, c') = on_response_code_success data_received c in notify_state state c'
  | invalid_connection_state ↦ notify_state not_connected c
  | not_module_identifier ↦ notify_state not_connected c
  | module_not_exists ↦ notify_state not_connected c
  | other_connect_response n ↦ notify_state not_connected c
]

module _ (parse_connect_response : List ℕ → ConnectResponseData)
    (parse_ping_response : List ℕ → ℕ) where
  unfoldable pub handle_connect_response : TcpMessage Operation → Connection → Connection
  unfolding handle_connect_data
  handle_connect_response m c =
      if is_state_connected (state_of c)
      then c
      else handle_connect_data (parse_connect_response m.body) c

  unfoldable pub handle_ping_response : TcpMessage Operation → Connection → Connection
  handle_ping_response m c =
      if parse_ping_response m.body == c.derived.sequence_code
      then set_timer_expiration 3000 c
      else c

  -- `ResponseReconnectHandler`: the data is parsed, and nothing is done with it.
  unfoldable pub handle_reconnect_response : TcpMessage Operation → Connection → Connection
  handle_reconnect_response m c = c

  -- `handleReceivedMessage` with `getResponseHandler`.
  unfoldable pub handle_received_message :
      Option (TcpMessage Operation) → Connection → Outcome Connection
  unfolding handle_connect_response handle_ping_response handle_reconnect_response
  handle_received_message none c = returns c
  handle_received_message (some m) c = elim m.operation_code [
    | connect_response ↦ returns (handle_connect_response m c)
    | ping_response ↦ returns (handle_ping_response m c)
    | reconnect_response ↦ returns (handle_reconnect_response m c)
    | connect_request ↦ returns c
    | ping_request ↦ returns c
    | shutdown_request ↦ returns c
    | other_operation n ↦ returns c
  ]
