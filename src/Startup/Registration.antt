-- ===== src/Startup/Registration.antt =====
-- The start of a module up to its registration: the answer of the watchdog to the connect request
-- comes in over the connection while the main thread waits (ModuleBase::startWatchdogConnectionTask
-- and waitForRegisterToWatchdog of Source/src/ModuleBase.cpp, the reading half of
-- Source/include/Connection.hpp and Source/src/ModuleResponseConnectHandler.cpp).
use Prim.Native.String.{String}
use process_manager_module.Base.{
  ℕ, ◌≡◌, refl, ap, ◌∙◌, Bool, true, false, List, [], ◌∷◌, Option, none, some, returns,
  if◌then◌else◌, length, Outcome, Bool-cases, Option-cases, inl, inr,
}
use process_manager_module.Base.Int.{ℤ}
use process_manager_module.MessageQueue
use process_manager_module.Connection.{
  TcpMessage, header_write, new_connection, connect, send_message, write_message_header,
  start_reading_sequence, read_message_header, set_timer_expiration,
}
use process_manager_module.Connection.Steps.{writes_of}
use process_manager_module.Connection.Wire.{wire, IsFramed, awaiting, handle_all, completed_reads}
use process_manager_module.Connection.Framing.{completed_reads-wire}
use process_manager_module.Watchdog.{
  Operation, connect_request, connect_response, not_connected, is_state_connected, Connection,
  state_of, ConnectResponseData, main_thread, fall_asleep, disconnect, message_of,
  send_connect_request, handle_received_message, handle_connect_response,
}
use process_manager_module.Watchdog.Laws.{granted, state_granted, handle_connect_response_lem}
use process_manager_module.Watchdog.Responses.{respond, handle_received_message-Handles}
use process_manager_module.Watchdog.Watcher.{with_state}
use process_manager_module.Server.Receiving.{bind_to_listening_socket, start_reading}
use process_manager_module.Configuration.{Configuration, read_configuration}
use process_manager_module.Startup.{
  ModuleBase, wake_main, start_module_server_failed, wait_for_registration_timeout,
  configure_module, start_watchdog_connection_task, wait_for_register_to_watchdog,
  start_module_server, startup,
}

module _ (serialize_identifier : ℕ → List ℕ) (module_identifier : ℕ) (not_a_date_time : ℤ)
    (allocated : TcpMessage Operation) where
  -- The connection of a new module after the connect request was written, but for the pending read.
  abbrev pub requested : Connection
  requested =
      let m = message_of connect_request (serialize_identifier module_identifier) in
      record {
        socket = some true;
        messages_queue = record { messages_queue = m ∷ [] };
        incoming_message = none;
        last_ping = not_a_date_time;
        sending_in_progress = true;
        pending_writes = header_write m ∷ [];
        pending_reads = [];
        pending_waits = [];
        derived = record {
          watchdog_connection_state = record { connection_state = not_connected; sleepers = [] };
          sequence_code = 0;
        };
      }

  -- The connection of a new module.
  abbrev pub untouched : Connection
  untouched = new_connection not_a_date_time (record {
    watchdog_connection_state = record { connection_state = not_connected; sleepers = [] };
    sequence_code = 0;
  })

  task_requests :
      {Any Address : Type 0} (b : ModuleBase Any Address)
      → b.connection ≡ untouched
      → start_watchdog_connection_task serialize_identifier module_identifier allocated true b
        ≡ returns (record b { connection = awaiting allocated requested }, true)
  unfolding start_watchdog_connection_task new_connection connect send_connect_request send_message
      write_message_header start_reading_sequence read_message_header MessageQueue.push
      MessageQueue.front
  task_requests b e = rw e

module _ (serialize_identifier : ℕ → List ℕ) (module_identifier : ℕ) (not_a_date_time : ℤ)
    (allocated : TcpMessage Operation) (header_size : ℕ) (resize : ℕ → List ℕ → List ℕ)
    (parse_connect_response : List ℕ → ConnectResponseData) (parse_ping_response : List ℕ → ℕ) where
  -- While the main thread waits, the message comes in as a whole, and nothing else happens.
  abbrev pub Delivers : TcpMessage Operation → (Connection → Connection) → Type 0
  Delivers m arrivals =
      (c c' : Connection)
      → completed_reads header_size resize disconnect
          (handle_received_message parse_connect_response parse_ping_response) allocated
          (length (writes_of (m ∷ []))) (wire (writes_of (m ∷ []))) c
        ≡ returns (c', [])
      → arrivals c ≡ c'

  -- The connection while the main thread waits.
  abbrev waiting : Connection
  waiting =
      with_state (fall_asleep main_thread)
        (requested serialize_identifier module_identifier not_a_date_time allocated)

  module _ (resized : (n : ℕ) (l : List ℕ) → length (resize n l) ≡ n) (m : TcpMessage Operation)
      (framed : IsFramed m) (code : m.operation_code ≡ connect_response)
      (arrivals : Connection → Connection) (delivers : Delivers m arrivals) where
    answered :
        arrivals (awaiting allocated waiting)
        ≡ awaiting allocated
            (handle_connect_response parse_connect_response parse_ping_response m waiting)
    unfolding respond handle_all
    answered = delivers _ _ (
        completed_reads-wire header_size resize disconnect
          (handle_received_message parse_connect_response parse_ping_response) allocated
          (respond parse_connect_response parse_ping_response)
          (handle_received_message-Handles parse_connect_response parse_ping_response) resized
          (m ∷ []) waiting true refl refl refl (framed, tt)
        ∙ rw code)

    -- The connection when the wait ends.
    abbrev heard : Connection
    heard = with_state wake_main (
        awaiting allocated
          (handle_connect_response parse_connect_response parse_ping_response m waiting))

    waits :
        {Any Address : Type 0} (b : ModuleBase Any Address) (on : Bool)
        → is_state_connected (state_of heard) ≡ on
        → wait_for_register_to_watchdog arrivals (record b {
          connection =
              awaiting allocated
                (requested serialize_identifier module_identifier not_a_date_time allocated);
        })
          ≡ (record b { connection = if on then set_timer_expiration 1000 heard else heard }, on)
    unfolding wait_for_register_to_watchdog
    waits b true h = rw (answered, h)
    waits b false h = rw (answered, h)

    -- A module that was just built starts: the file gives the configuration, the watchdog accepts the
    -- connection, and while the main thread waits a framed connect response comes in. If the response
    -- is one of success with a code, the module is connected with that code, the timer of the pings is
    -- set to 1 second, and if the socket of the server can be bound the start returns 0, the server
    -- reads and the manager has it; if it cannot be bound the start returns the code for that, and the
    -- server and the manager are as they were. Without such a response the start returns the code for
    -- a registration that timed out, the module is not connected and no ping is planned.
    pub startup-registers :
        {Any Address Json : Type 0} (get_number : Json → String → String → ℕ → Outcome (Option ℕ))
        (file : Option (Option Json)) (b : ModuleBase Any Address) (configuration : Configuration)
        (bound : Bool)
        → b.connection ≡ untouched serialize_identifier module_identifier not_a_date_time allocated
        → read_configuration get_number file b.configuration ≡ returns (configuration, true)
        → let g = granted (parse_connect_response m.body) in
          (b' : ModuleBase Any Address) × (startup get_number serialize_identifier module_identifier
              file allocated true bound arrivals b
            ≡ returns (
              elim g [
                | none ↦ wait_for_registration_timeout
                | some k ↦ if bound then 0 else start_module_server_failed
              ],
              b',
            ))
          × (state_of b'.connection ≡ state_granted g)
          × (b'.connection.derived.sequence_code ≡ elim g [ none ↦ 0 | some k ↦ k ])
          × (b'.connection.pending_waits ≡ elim g [ none ↦ [] | some k ↦ 1000 ∷ [] ])
          × (b'.server.0.reading ≡ elim g [
            | none ↦ b.server.0.reading
            | some k ↦ if bound then true else b.server.0.reading
          ])
          × (b'.manager_initialized ≡ elim g [
            | none ↦ b.manager_initialized
            | some k ↦ if bound then true else b.manager_initialized
          ])
    unfolding startup configure_module start_module_server bind_to_listening_socket start_reading
        set_timer_expiration fall_asleep
    startup-registers {Any = Any} {Address = Address} get_number file b configuration bound new
          read =
        let g = granted (parse_connect_response m.body) in
        let (e, f, _s, k) =
          handle_connect_response_lem parse_connect_response parse_ping_response m waiting in
        let quiet : heard.pending_waits ≡ [] = ap (λ z. z.pending_waits) k in
        let asks =
          task_requests serialize_identifier module_identifier not_a_date_time allocated
            (record b { configuration = configuration }) new in
        elim (Option-cases g) [
          | inl h ↦
              let off = waits (record b { configuration = configuration }) false (rw (e, h)) in
              (
                record b { configuration = configuration; connection = heard },
                rw (read, asks, off, h),
                e,
                f,
                rw h quiet,
                rw h,
                rw h,
              )
          | inr (n, h) ↦
              let on = waits (record b { configuration = configuration }) true (rw (e, h)) in
              let b₄ : ModuleBase Any Address = record b {
                configuration = configuration;
                connection = set_timer_expiration 1000 heard;
              } in
              elim (Bool-cases bound) [
                | inr closed ↦ (
                  b₄,
                  rw (read, asks, on, h, closed),
                  e,
                  f,
                  rw (h, quiet),
                  rw (h, closed),
                  rw (h, closed),
                )
                | inl listens ↦
                    let s = record b.server.0 {
                      message_buffer_size = configuration.server_configuration.message_buffer_size;
                      reading = true;
                    } in
                    (
                      record b₄ { server = (s, b.server.1); manager_initialized = true },
                      rw (read, asks, on, h, listens),
                      e,
                      f,
                      rw (h, quiet),
                      rw (h, listens),
                      rw (h, listens),
                    )
              ]
        ]
