-- ===== src/Watchdog/Watcher.antt =====
-- `WatchdogConnectionWatcher` of Source/include/ModuleConnection.hpp: the thread that connects again
-- after the connection was lost, as a machine whose phases are the points where it waits or tests.
use process_manager_module.Base.{
  ℕ, Bool, true, false, not, ◌&&◌, List, [], ◌∷◌, Outcome, returns, ◌>>=◌, if◌then◌else◌,
}
use process_manager_module.Connection.{
  is_connected, close_socket, make_new_socket, connect, set_timer_expiration,
}
use process_manager_module.Watchdog.{
  not_connected, connected, shutdown, is_state_connected, Thread, main_thread, watcher_thread,
  fall_asleep, WatchdogConnectionState, Connection, state_of, send_connect_request,
}

pub data WatcherPhase : Type 0 where
  at_loop waiting_for_change at_reconnect waiting_for_answer finished : WatcherPhase

abbrev pub sleeps : List Thread → Bool
sleeps [] = false
sleeps (main_thread ∷ ts) = sleeps ts
sleeps (watcher_thread ∷ ts) = true

abbrev pub without_watcher : List Thread → List Thread
without_watcher [] = []
without_watcher (main_thread ∷ ts) = main_thread ∷ without_watcher ts
without_watcher (watcher_thread ∷ ts) = without_watcher ts

abbrev pub with_state :
    (WatchdogConnectionState → WatchdogConnectionState) → Connection → Connection
with_state f c = record c {
  derived = record c.derived { watchdog_connection_state = f c.derived.watchdog_connection_state };
}

abbrev pub wake_watcher : WatchdogConnectionState → WatchdogConnectionState
wake_watcher w = record w { sleepers = without_watcher w.sleepers }

module _ (serialize_identifier : ℕ → List ℕ) (module_identifier : ℕ) where
  -- One step: `running` is `Globals::isModuleRunning`, `accepted` tells whether the watchdog accepts
  -- the connection, and `woken` whether a wait ends without being notified: by its time, or for no
  -- reason.
  unfoldable pub watcher_step :
      Bool → Bool → Bool → WatcherPhase × Connection → Outcome (WatcherPhase × Connection)
  unfolding fall_asleep is_connected close_socket make_new_socket connect set_timer_expiration
      send_connect_request
  watcher_step running accepted woken (at_loop, c) =
      if running
      then returns (waiting_for_change, with_state (fall_asleep watcher_thread) c)
      else returns (finished, c)
  watcher_step running accepted woken (waiting_for_change, c) =
      if sleeps c.derived.watchdog_connection_state.sleepers && not woken
      then returns (waiting_for_change, c)
      else (elim (state_of c) [
        | not_connected ↦ returns (at_reconnect, with_state wake_watcher c)
        | connected ↦ returns (at_loop, with_state wake_watcher c)
        | shutdown ↦ returns (finished, with_state wake_watcher c)
      ])
  watcher_step running accepted woken (at_reconnect, c) = do
    is_open ← is_connected c
    if not is_open && running
        then (do
          let (c₁, ok) = connect accepted (make_new_socket c)
          if ok
              then (do
                c₂ ← send_connect_request serialize_identifier module_identifier c₁
                returns (waiting_for_answer, with_state (fall_asleep watcher_thread) c₂))
              else (do c₂ ← close_socket c₁; returns (at_reconnect, c₂)))
        else returns (at_loop, c)
  watcher_step running accepted woken (waiting_for_answer, c) =
      if sleeps c.derived.watchdog_connection_state.sleepers && not woken
      then returns (waiting_for_answer, c)
      else if is_state_connected (state_of c)
      then returns (at_reconnect, set_timer_expiration 1000 (with_state wake_watcher c))
      else (do c₁ ← close_socket (with_state wake_watcher c); returns (at_reconnect, c₁))
  watcher_step running accepted woken (finished, c) = returns (finished, c)
