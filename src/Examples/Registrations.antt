-- ===== src/Examples/Registrations.antt =====
-- A module that starts while the watchdog answers it with the code 5.
use process_manager_module.Base.{ℕ, ◌≡◌, refl, true, [], ◌∷◌, some, returns, throws, hangs, length}
use process_manager_module.Base.Int.{pos}
use process_manager_module.Connection.{TcpMessage, new_connection}
use process_manager_module.Connection.Steps.{writes_of}
use process_manager_module.Connection.Wire.{wire, completed_reads}
use process_manager_module.Watchdog.{
  Operation, connect_response, connected, Connection, state_of, disconnect, handle_received_message,
}
use process_manager_module.Configuration.{Configuration, read_configuration, read_from_json}
use process_manager_module.Startup.{ModuleBase, startup}
use process_manager_module.Startup.Registration.{Delivers, startup-registers}
use process_manager_module.Examples.Startups.{
  number_of, empty_configuration, fresh_message, new_module, identifier_bytes,
}
use process_manager_module.Examples.Transfers.{resize, length-resize, parse_connect, parse_ping}

abbrev answer : TcpMessage Operation
answer = record { operation_code = connect_response; size = 2; body = 5 ∷ 1 ∷ [] }

-- The two reads of the answer; a fault of theirs leaves the connection as it was.
abbrev answer_comes : Connection → Connection
answer_comes c =
    elim (completed_reads 8 resize disconnect (handle_received_message parse_connect parse_ping)
      fresh_message (length (writes_of (answer ∷ []))) (wire (writes_of (answer ∷ []))) c) [
        | returns r ↦ r.0
        | throws f ↦ c
        | hangs ↦ c
      ]

answer-Delivers :
    Delivers identifier_bytes 1
      (pos 0)
      fresh_message
      8
      resize
      parse_connect
      parse_ping
      answer
      answer_comes
unfolding completed_reads
answer-Delivers c c' e = rw e

-- What stands in the document.
abbrev read_values : Configuration
read_values = record empty_configuration {
  server_configuration = record {
    max_message_resends = 512;
    time_between_message_resends_in_seconds = 512;
    message_buffer_size = 512;
    listening_port = 4000;
  };
}

startup-registers_example :
    (b' : ModuleBase ℕ ℕ) × (startup number_of identifier_bytes 1
        (some (some 512))
        fresh_message
        true
        true
        answer_comes
        new_module
      ≡ returns (0, b'))
    × (state_of b'.connection ≡ connected)
    × (b'.connection.derived.sequence_code ≡ 5)
    × (b'.connection.pending_waits ≡ 1000 ∷ [])
    × (b'.server.0.reading ≡ true)
    × (b'.manager_initialized ≡ true)
unfolding new_connection read_configuration read_from_json
startup-registers_example =
    startup-registers identifier_bytes 1 (pos 0) fresh_message 8 resize parse_connect parse_ping
      length-resize answer (refl, refl) refl answer_comes answer-Delivers number_of
      (some (some 512)) new_module read_values true refl refl
