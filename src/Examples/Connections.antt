-- ===== src/Examples/Connections.antt =====
-- A connection to the watchdog, and the theorems on connections at it.
use process_manager_module.Base.{
  ℕ, ◌≡◌, refl, Bool, true, false, List, [], ◌∷◌, none, some, returns, length, if◌then◌else◌,
}
use process_manager_module.Base.Int.{pos}
use process_manager_module.MessageQueue
use process_manager_module.MessageQueue.{MessageQueue}
use process_manager_module.Connection.{
  TcpMessage, header_write, header_read, send_message, write_message_header, is_connected,
  make_new_socket, connect,
}
use process_manager_module.Connection.Handlers.{post_write_message_header}
use process_manager_module.Connection.Writing.{IsWriting, quiet, IsStuck}
use process_manager_module.Connection.Steps.{
  TcpStep, sends_message, start, then_step, TcpReach-IsWriting, empty_body_sticks, completed_writes,
  writes_of, completed_writes_drain,
}
use process_manager_module.Watchdog.{
  Operation, connect_request, ping_request, not_connected, connected, is_state_connected,
  main_thread, watcher_thread, Connection, state_of, disconnect, ConnectResponseData,
  connect_success, handle_connect_response, fall_asleep, send_connect_request, message_of,
  is_state_connected,
}
use process_manager_module.Watchdog.Watcher.{
  at_loop, at_reconnect, waiting_for_answer, waiting_for_change, watcher_step,
}
use process_manager_module.Watchdog.Laws.{
  granted, state_granted, handle_connect_response_lem, disconnect-SameWriting,
}
use process_manager_module.Watchdog.Reconnect.{IsDeaf}
use process_manager_module.Watchdog.Steps.{
  WatchStep, watches, stop, onward, WatchReach-IsDeaf, watcher_misses_disconnect,
}

abbrev pub request : List ℕ → TcpMessage Operation
request body = record { operation_code = ping_request; size = length body; body = body }

abbrev pub open_connection : Connection
open_connection = record {
  socket = some true;
  messages_queue = record { messages_queue = [] };
  incoming_message = some (request []);
  last_ping = pos 0;
  sending_in_progress = false;
  pending_writes = [];
  pending_reads = header_read ∷ [];
  pending_waits = [];
  derived = record {
    watchdog_connection_state = record {
      connection_state = connected;
      sleepers = main_thread ∷ [];
    };
    sequence_code = 77;
  };
}

-- Two messages are queued, and the header of the first is being written.
abbrev pub writing_connection : Connection
writing_connection = record open_connection {
  messages_queue = record { messages_queue = request (1 ∷ []) ∷ request (2 ∷ 3 ∷ []) ∷ [] };
  sending_in_progress = true;
  pending_writes = header_write (request (1 ∷ [])) ∷ [];
}

abbrev sent_connection : Connection
sent_connection = record open_connection {
  messages_queue = record { messages_queue = request (1 ∷ []) ∷ [] };
  sending_in_progress = true;
  pending_writes = header_write (request (1 ∷ [])) ∷ [];
}

sends_first : TcpStep 8 disconnect open_connection sent_connection
unfolding send_message write_message_header MessageQueue.push MessageQueue.front
sends_first = sends_message (request (1 ∷ [])) refl

TcpReach-IsWriting_example : IsWriting sent_connection
TcpReach-IsWriting_example =
    TcpReach-IsWriting 8 disconnect disconnect-SameWriting (quiet refl)
      (then_step start sends_first)

-- The header of a message without a body is being written.
abbrev bare_connection : Connection
bare_connection = record open_connection {
  messages_queue = record { messages_queue = request [] ∷ [] };
  sending_in_progress = true;
  pending_writes = header_write (request []) ∷ [];
}

abbrev stuck_connection : Connection
stuck_connection = record open_connection { sending_in_progress = true }

bare_written :
    post_write_message_header 8 disconnect false 8 bare_connection ≡ returns stuck_connection
unfolding post_write_message_header MessageQueue.front MessageQueue.pop MessageQueue.empty
bare_written = refl

abbrev queued_behind : Connection
queued_behind = record stuck_connection {
  messages_queue = record { messages_queue = request (1 ∷ []) ∷ [] };
}

sends_behind : TcpStep 8 disconnect stuck_connection queued_behind
unfolding send_message MessageQueue.push
sends_behind = sends_message (request (1 ∷ [])) refl

empty_body_sticks_example : IsStuck queued_behind
empty_body_sticks_example =
    empty_body_sticks 8 disconnect bare_connection stuck_connection queued_behind (request [])
      (header_write (request [])) refl refl refl refl bare_written (then_step start sends_behind)

completed_writes_drain_example :
    (c' : Connection) × (completed_writes 8 disconnect 2 writing_connection
      ≡ returns (c', writes_of (request (1 ∷ []) ∷ request (2 ∷ 3 ∷ []) ∷ [])))
    × (c'.messages_queue.messages_queue ≡ [])
    × (c'.pending_writes ≡ [])
    × (c'.sending_in_progress ≡ false)
completed_writes_drain_example =
    completed_writes_drain 8 disconnect (request (2 ∷ 3 ∷ []) ∷ []) (request (1 ∷ [])) true
      writing_connection refl refl refl refl (refl, (refl, tt))

abbrev grants : List ℕ → ConnectResponseData
grants body = record { response_code = connect_success; response_sequence_code = some 5 }

abbrev code_of : List ℕ → ℕ
code_of body = 5

abbrev lost_connection : Connection
lost_connection = record open_connection {
  socket = some false;
  pending_reads = [];
  derived = record {
    watchdog_connection_state = record { connection_state = not_connected; sleepers = [] };
    sequence_code = 77;
  };
}

handle_connect_response_lem_example :
    let c' = handle_connect_response grants code_of (request []) lost_connection in
    let w = lost_connection.derived.watchdog_connection_state in
    let w' = c'.derived.watchdog_connection_state in
    let code = granted (grants []) in
    let ignored = is_state_connected (state_of lost_connection) in
    (state_of c' ≡ (if ignored then connected else state_granted code))
    × (c'.derived.sequence_code ≡ (if ignored then 77 else elim code [ none ↦ 77 | some k ↦ k ]))
    × (w'.sleepers ≡ (if ignored then w.sleepers else []))
    × (c' ≡ record lost_connection { derived = c'.derived })
handle_connect_response_lem_example =
    handle_connect_response_lem grants code_of (request []) lost_connection

abbrev one_byte : ℕ → List ℕ
one_byte n = n ∷ []

abbrev resize : ℕ → List ℕ → List ℕ
resize n l = l

-- The watcher has connected again, and waits for the response.
abbrev reconnected : Connection
reconnected = record lost_connection {
  socket = some true;
  messages_queue = record {
    messages_queue = record { operation_code = connect_request; size = 1; body = 1 ∷ [] } ∷ [];
  };
  sending_in_progress = true;
  pending_writes =
      header_write (record { operation_code = connect_request; size = 1; body = 1 ∷ [] }) ∷ [];
  derived = record {
    watchdog_connection_state = record {
      connection_state = not_connected;
      sleepers = watcher_thread ∷ [];
    };
    sequence_code = 77;
  };
}

reconnects :
    WatchStep 8 1 resize one_byte one_byte grants code_of
      (at_reconnect, lost_connection)
      (waiting_for_answer, reconnected)
unfolding watcher_step is_connected make_new_socket connect fall_asleep send_connect_request
    message_of send_message write_message_header MessageQueue.push MessageQueue.front
reconnects = watches true true false refl

WatchReach-IsDeaf_example : IsDeaf reconnected
WatchReach-IsDeaf_example =
    WatchReach-IsDeaf 8 1 resize one_byte one_byte grants code_of
      {x = (at_reconnect, lost_connection)} {y = (waiting_for_answer, reconnected)}
      (record { not_reading = refl; unconnected = refl }) (onward stop reconnects)

watcher_misses_disconnect_example :
    (c₁ c₂ : Connection) × (disconnect open_connection ≡ returns c₁)
    × (watcher_step one_byte 1 true true false (at_loop, c₁) ≡ returns (waiting_for_change, c₂))
    × (state_of c₂ ≡ not_connected)
    × ((running accepted' : Bool)
        → watcher_step one_byte 1 running accepted' false (waiting_for_change, c₂)
          ≡ returns (waiting_for_change, c₂))
watcher_misses_disconnect_example =
    watcher_misses_disconnect 8 1 resize one_byte one_byte grants code_of open_connection true true
      false refl refl
