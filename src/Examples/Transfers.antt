-- ===== src/Examples/Transfers.antt =====
-- The module and its watchdog at the two ends of a connection, and the theorems on messages that pass
-- between them.
use process_manager_module.Base.{
  ℕ, zero, suc, ◌≡◌, refl, ap, true, false, List, [], ◌∷◌, none, some, returns, length,
}
use process_manager_module.Connection.{TcpMessage, Write, start_reading_sequence}
use process_manager_module.Connection.Wire.{
  header_cell, byte_cell, awaiting, handle_all, wire, completed_reads,
}
use process_manager_module.Connection.Steps.{completed_writes}
use process_manager_module.Connection.Framing.{bare_header_deafens}
use process_manager_module.Connection.Sending.{send_all, IsIdle, send_all_arrives}
use process_manager_module.Watchdog.{
  Operation, ping_request, ping_response, Connection, disconnect, handle_received_message,
  ConnectResponseData, connect_success, timer_expired, handle_ping_response, message_of,
}
use process_manager_module.Watchdog.Responses.{
  respond, handle_received_message-Handles, handle_ping_response-timer_expired, next_ping,
}
use process_manager_module.Examples.Connections.{request, open_connection}

-- `std::string::resize`, which fills with zeros.
pub resize : ℕ → List ℕ → List ℕ
resize zero l = []
resize (suc n) [] = 0 ∷ resize n []
resize (suc n) (b ∷ l) = b ∷ resize n l

pub length-resize : (n : ℕ) (l : List ℕ) → length (resize n l) ≡ n
unfolding resize
length-resize zero l = refl
length-resize (suc n) [] = ap suc (length-resize n [])
length-resize (suc n) (b ∷ l) = ap suc (length-resize n l)

abbrev pub parse_connect : List ℕ → ConnectResponseData
parse_connect body = record { response_code = connect_success; response_sequence_code = some 5 }

abbrev pub parse_ping : List ℕ → ℕ
parse_ping body = 77

abbrev receiver : Connection
receiver = record open_connection { pending_reads = []; incoming_message = none }

open-IsIdle : IsIdle open_connection
open-IsIdle = record {
  is_open = refl;
  nothing_queued = refl;
  nothing_written = refl;
  not_in_progress = refl;
}

send_all_arrives_example :
    (sent sender' : Connection) × (reading : Connection) × (written : List (Write Operation))
    × (send_all (request (1 ∷ []) ∷ request (2 ∷ 3 ∷ []) ∷ []) open_connection ≡ returns sent)
    × (start_reading_sequence (some (request [])) receiver ≡ returns reading)
    × (completed_writes 8 disconnect 2 sent ≡ returns (sender', written))
    × (sender'.messages_queue.messages_queue ≡ [])
    × (sender'.sending_in_progress ≡ false)
    × (completed_reads 8 resize disconnect
          (handle_received_message parse_connect parse_ping)
          (request [])
          (length written)
          (wire written)
          reading
        ≡ returns (
          awaiting (request []) (
              handle_all
                (respond parse_connect parse_ping)
                (request (1 ∷ []) ∷ request (2 ∷ 3 ∷ []) ∷ [])
                receiver),
          [],
        ))
send_all_arrives_example =
    send_all_arrives 8 resize disconnect disconnect
      (handle_received_message parse_connect parse_ping) (request [])
      (respond parse_connect parse_ping) (handle_received_message-Handles parse_connect parse_ping)
      length-resize (request (1 ∷ [])) (request (2 ∷ 3 ∷ []) ∷ []) open_connection receiver true
      open-IsIdle refl refl refl ((refl, refl), ((refl, refl), tt))

abbrev deaf : Connection
deaf = record receiver { incoming_message = some (request []) }

bare_header_deafens_example :
    completed_reads 8 resize disconnect
      (handle_received_message parse_connect parse_ping)
      (request [])
      3
      (header_cell ping_request 0 ∷ header_cell ping_response 1 ∷ byte_cell 77 ∷ [])
      (awaiting (request []) receiver)
    ≡ returns (deaf, header_cell ping_response 1 ∷ byte_cell 77 ∷ [])
bare_header_deafens_example =
    bare_header_deafens 8 resize disconnect (handle_received_message parse_connect parse_ping)
      (request []) ping_request (header_cell ping_response 1 ∷ byte_cell 77 ∷ []) receiver 2

abbrev serialize_code : ℕ → List ℕ
serialize_code code = code ∷ []

abbrev awaiting_ping : Connection
awaiting_ping = record open_connection { pending_waits = 3000 ∷ [] }

abbrev ping_answer : TcpMessage Operation
ping_answer = record (request (77 ∷ [])) { operation_code = ping_response }

handle_ping_response-timer_expired_example :
    (c' : Connection) × (timer_expired serialize_code awaiting_ping ≡ returns c')
    × (c'.messages_queue.messages_queue ≡ message_of ping_request (77 ∷ []) ∷ [])
    × (c'.pending_waits ≡ [])
    × (c'.derived ≡ awaiting_ping.derived)
    × (handle_ping_response parse_connect parse_ping ping_answer c' ≡ record c' {
      pending_waits = next_ping parse_connect parse_ping ping_answer awaiting_ping;
    })
handle_ping_response-timer_expired_example =
    handle_ping_response-timer_expired parse_connect parse_ping serialize_code ping_answer
      awaiting_ping 3000 [] refl
