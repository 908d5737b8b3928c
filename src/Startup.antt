-- ===== src/Startup.antt =====
-- Source/src/ModuleMain.cpp and Source/src/ModuleBase.cpp: the steps that start a module, and what
-- its main thread does when the task of the user is over. Parameters are what happens outside: whether the watchdog accepts the connection, what
-- arrives on it while the main thread waits, and whether the socket of the server can be bound.
pub mod Main
pub mod Registration
use Prim.Native.String.{String}
use process_manager_module.Base.{
  ℕ, ◌≡◌, Bool, true, false, List, [], ◌∷◌, ◌++◌, Option, none, some, Outcome, returns, throws,
  hangs, ◌>>=◌, if◌then◌else◌, ◌==◌,
}
use process_manager_module.Connection.{
  TcpMessage, connect, set_timer_expiration, start_reading_sequence,
}
use process_manager_module.Watchdog.{
  Operation, ConnectionState, shutdown, is_state_connected, Thread, main_thread, watcher_thread,
  fall_asleep, WatchdogConnectionState, Connection, state_of, notify_state, send_connect_request,
  send_shutdown_request,
}
use process_manager_module.Watchdog.Watcher.{with_state}
use process_manager_module.Configuration.{Configuration, read_configuration}
use process_manager_module.Server.State.{Server, Cache, State}
use process_manager_module.Server.Receiving.{bind_to_listening_socket, start_reading}

-- `ModuleBase` with the globals that it changes; its threads are not in it.
pub record ModuleBase (Any Address : Type 0) : Type 0 where
  pub is_module_running : Bool
  pub configuration : Configuration
  pub connection : Connection
  pub server : State Any Address
  pub manager_initialized : Bool  -- the manager refers to the same server
  pub io_context_stopped : Bool

-- `ModuleStartupErrors`, with 0 for none.
abbrev pub failed_to_read_configuration : ℕ
failed_to_read_configuration = 1

abbrev pub failed_to_configure_module : ℕ
failed_to_configure_module = 2

abbrev pub start_connection_task_failed : ℕ
start_connection_task_failed = 3

abbrev pub wait_for_registration_timeout : ℕ
wait_for_registration_timeout = 4

abbrev pub start_module_server_failed : ℕ
start_module_server_failed = 5

abbrev pub without_main : List Thread → List Thread
without_main [] = []
without_main (main_thread ∷ ts) = without_main ts
without_main (watcher_thread ∷ ts) = watcher_thread ∷ without_main ts

abbrev pub wake_main : WatchdogConnectionState → WatchdogConnectionState
wake_main w = record w { sleepers = without_main w.sleepers }

module _ {Any Address : Type 0} where
  -- The level of the log is all that it sets.
  unfoldable pub configure_module : ModuleBase Any Address → ModuleBase Any Address × Bool
  configure_module b = (b, true)

  unfoldable pub start_watchdog_connection_task :
      (ℕ → List ℕ)
      → ℕ
      → TcpMessage Operation
      → Bool
      → ModuleBase Any Address
      → Outcome (ModuleBase Any Address × Bool)
  start_watchdog_connection_task serialize_identifier module_identifier allocated accepted b = do
    let (c, connected) = connect accepted b.connection
    if connected
        then (do
          c₁ ← send_connect_request serialize_identifier module_identifier c
          c₂ ← start_reading_sequence (some allocated) c₁
          returns (record b { connection = c₂ }, true))
        else returns (record b { connection = c }, false)

  -- `arrivals` is what happens to the connection until the wait ends.
  unfoldable pub wait_for_register_to_watchdog :
      (Connection → Connection) → ModuleBase Any Address → ModuleBase Any Address × Bool
  wait_for_register_to_watchdog arrivals b =
      let c = with_state wake_main (arrivals (with_state (fall_asleep main_thread) b.connection)) in
      if is_state_connected (state_of c)
      then (record b { connection = set_timer_expiration 1000 c }, true)
      else (record b { connection = c }, false)

  -- `system_error`, which binding throws, is caught here.
  unfoldable pub start_module_server : Bool → ModuleBase Any Address → ModuleBase Any Address × Bool
  unfolding bind_to_listening_socket
  start_module_server bound b =
      let size = b.configuration.server_configuration.message_buffer_size in
      elim (bind_to_listening_socket bound size b.server.0) [
        | returns r ↦
            let s : State Any Address = (start_reading r.0, b.server.1) in
            (record b { server = s; manager_initialized = true }, true)
        | throws f ↦ (b, false)
        | hangs ↦ (b, false)
      ]

  -- `poll` is `ioContext.poll()`: it runs the handlers that are ready, whatever they do.
  unfoldable pub module_shutdown_handler :
      (ℕ → List ℕ)
      → ℕ
      → (ModuleBase Any Address → Outcome (ModuleBase Any Address))
      → ModuleBase Any Address
      → Outcome (ModuleBase Any Address)
  module_shutdown_handler serialize_identifier module_identifier poll b = do
    let b₁ : ModuleBase Any Address = record b { is_module_running = false }
    c ← send_shutdown_request serialize_identifier module_identifier b₁.connection
    b₂ ← poll (record b₁ { connection = c })
    returns
        (record b₂ { io_context_stopped = true; connection = notify_state shutdown b₂.connection })

  module _ {Json : Type 0} (get_number : Json → String → String → ℕ → Outcome (Option ℕ))
      (serialize_identifier : ℕ → List ℕ) (module_identifier : ℕ) (file : Option (Option Json))
      (allocated : TcpMessage Operation) (accepted bound : Bool)
      (arrivals : Connection → Connection) where
    -- The chain of tests of `main`: its return code, 0 if all steps succeed.
    unfoldable pub startup : ModuleBase Any Address → Outcome (ℕ × ModuleBase Any Address)
    unfolding start_watchdog_connection_task wait_for_register_to_watchdog start_module_server
        configure_module
    startup b = do
      (configuration, read) ← read_configuration get_number file b.configuration
      let b₁ : ModuleBase Any Address = record b { configuration = configuration }
      if read
          then (let (b₂, configured) = configure_module b₁ in
              if configured
              then (do
                (b₃, started) ←
                    start_watchdog_connection_task serialize_identifier module_identifier allocated
                      accepted b₂
                if started
                    then (let (b₄, registered) = wait_for_register_to_watchdog arrivals b₃ in
                        if registered
                        then (let (b₅, serving) = start_module_server bound b₄ in
                            returns ((if serving then 0 else start_module_server_failed), b₅))
                        else returns (wait_for_registration_timeout, b₄))
                    else returns (start_connection_task_failed, b₃))
              else returns (failed_to_configure_module, b₂))
          else returns (failed_to_read_configuration, b₁)
