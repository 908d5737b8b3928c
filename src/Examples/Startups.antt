-- ===== src/Examples/Startups.antt =====
-- A module that starts, and the theorems on the start at it.
use Prim.Native.String.{String}
use process_manager_module.Base.{
  ℕ, ◌≡◌, refl, true, false, List, [], ◌∷◌, Option, none, some, Outcome, returns, ◌>>=◌, Bool,
  if◌then◌else◌, ◌==◌,
}
use process_manager_module.Base.Int.{pos}
use process_manager_module.Connection.{TcpMessage}
use process_manager_module.Watchdog.{Operation, connect_request, not_connected, Connection}
use process_manager_module.TimersCache.{new_cache}
use process_manager_module.Server.State.{new_server}
use process_manager_module.Configuration.{
  ServerConfiguration, Configuration, HasKey, Reads, HasValues, read_configuration,
  read_configuration_lem,
}
use process_manager_module.Startup.{ModuleBase}
use process_manager_module.Logging.{
  trace, critical, initialize_log, update_configuration, update_configuration-read_configuration,
}

-- A document is here the number that stands under every key; a port of 16 bits is 4000.
abbrev pub number_of : ℕ → String → String → ℕ → Outcome (Option ℕ)
number_of json part key bits = returns (if bits == 16 then some 4000 else some json)

abbrev pub empty_configuration : Configuration
empty_configuration = record {
  server_configuration = record {
    max_message_resends = 0;
    time_between_message_resends_in_seconds = 0;
    message_buffer_size = 0;
    listening_port = 0;
  };
  logging_level = "";
}

abbrev pub fresh_message : TcpMessage Operation
fresh_message = record { operation_code = connect_request; size = 0; body = [] }

abbrev pub closed_connection : Connection
closed_connection = record {
  socket = some false;
  messages_queue = record { messages_queue = [] };
  incoming_message = none;
  last_ping = pos 0;
  sending_in_progress = false;
  pending_writes = [];
  pending_reads = [];
  pending_waits = [];
  derived = record {
    watchdog_connection_state = record { connection_state = not_connected; sleepers = [] };
    sequence_code = 0;
  };
}

abbrev pub new_module : ModuleBase ℕ ℕ
new_module = record {
  is_module_running = true;
  configuration = empty_configuration;
  connection = closed_connection;
  server = (new_server [] [], new_cache);
  manager_initialized = false;
  io_context_stopped = false;
}

abbrev pub identifier_bytes : ℕ → List ℕ
identifier_bytes n = n ∷ []

read_configuration_lem_example :
    (((json : ℕ)
        → some (some 512) ≡ some (some json)
        → HasKey number_of json "MaxMessageResends" 32
          × HasKey number_of json "TimeBetweenMessageResendsInSeconds" 32
          × HasKey number_of json "MessageBufferSize" 32
          × HasKey number_of json "ListeningPort" 16)
      → (c' : Configuration) × (read : Bool) × Reads number_of
          (some (some 512))
          empty_configuration
          c'
          read)
    × ((c' : Configuration) (read : Bool)
        → Reads number_of (some (some 512)) empty_configuration c' read
        → (c'.logging_level ≡ "")
          × (read ≡ true
              → (json : ℕ) × (some (some 512) ≡ some (some json))
                × HasValues number_of json c'.server_configuration))
    × ((json : ℕ) (s : ServerConfiguration)
        → some (some 512) ≡ some (some json)
        → HasValues number_of json s
        → Reads number_of
            (some (some 512))
            empty_configuration
            (record empty_configuration { server_configuration = s })
            true)
read_configuration_lem_example =
    read_configuration_lem number_of (some (some 512)) empty_configuration

update_configuration-read_configuration_example :
    (do
      (c', read) ← read_configuration number_of (some (some 512)) empty_configuration
      returns (update_configuration c' (initialize_log critical none)))
    ≡ (do
      (c', read) ← read_configuration number_of (some (some 512)) empty_configuration
      returns (initialize_log trace none))
update_configuration-read_configuration_example =
    update_configuration-read_configuration number_of (some (some 512)) empty_configuration critical
      refl
