-- ===== src/Watchdog/Steps.antt =====
-- The connection and its watcher thread under any sequence of steps.
use process_manager_module.Base.{
  ℕ, ◌≡◌, refl, Bool, true, false, List, Option, some, returns, arith,
}
use process_manager_module.Connection.{TcpMessage}
use process_manager_module.Connection.Handlers.{
  post_write_message_header, post_write_message_body, post_read_message_header,
  post_read_message_body,
}
use process_manager_module.Watchdog.{
  Operation, not_connected, connected, shutdown, watcher_thread, Connection, state_of, notify_state,
  set_connection_state_and_notify_all, set_connection_state, fall_asleep, disconnect,
  send_shutdown_request, timer_expired, ConnectResponseData, handle_received_message,
}
use process_manager_module.Watchdog.Watcher.{
  WatcherPhase, at_loop, waiting_for_change, with_state, watcher_step,
}
use process_manager_module.Watchdog.Reconnect.{
  IsDeaf, post_write_message_header-IsDeaf, post_write_message_body-IsDeaf, timer_expired-IsDeaf,
  watcher_step-IsDeaf, send_message-SameReading, SameReading-IsDeaf,
}

module _ (header_size module_identifier : ℕ) (resize : ℕ → List ℕ → List ℕ)
    (serialize_identifier serialize_code : ℕ → List ℕ)
    (parse_connect_response : List ℕ → ConnectResponseData) (parse_ping_response : List ℕ → ℕ) where
  -- A step of the watcher, the completion of a write or of a read, the expiration of the timer, or
  -- the end of the module: its request, and its state.
  pub data WatchStep (x y : WatcherPhase × Connection) : Type 0 where
    watches :
        (running accepted woken : Bool)
        → watcher_step serialize_identifier module_identifier running accepted woken x ≡ returns y
        → WatchStep x y
    header_written :
        (error : Bool) (n : ℕ)
        → post_write_message_header header_size disconnect error n x.1 ≡ returns y.1
        → WatchStep x y
    body_written :
        (error : Bool)
        → post_write_message_body header_size disconnect error x.1 ≡ returns y.1
        → WatchStep x y
    header_read :
        (error : Bool) (n : ℕ) (code : Operation) (size : ℕ)
        → post_read_message_header header_size resize disconnect
            (handle_received_message parse_connect_response parse_ping_response)
            error
            n
            code
            size
            x.1
          ≡ returns y.1
        → WatchStep x y
    body_read :
        (error : Bool) (received : List ℕ) (allocated : Option (TcpMessage Operation))
        → post_read_message_body header_size resize disconnect
            (handle_received_message parse_connect_response parse_ping_response)
            error
            received
            allocated
            x.1
          ≡ returns y.1
        → WatchStep x y
    timer_expires : timer_expired serialize_code x.1 ≡ returns y.1 → WatchStep x y
    requests_shutdown :
        send_shutdown_request serialize_identifier module_identifier x.1 ≡ returns y.1
        → WatchStep x y
    shuts_down : y.1 ≡ notify_state shutdown x.1 → WatchStep x y

  pub data WatchReach (x : WatcherPhase × Connection) : WatcherPhase × Connection → Type 0 where
    stop : WatchReach x x
    onward : {y z : WatcherPhase × Connection} → WatchReach x y → WatchStep y z → WatchReach x z

  WatchStep-IsDeaf : (x y : WatcherPhase × Connection) → WatchStep x y → IsDeaf x.1 → IsDeaf y.1
  unfolding post_read_message_header post_read_message_body notify_state
      set_connection_state_and_notify_all set_connection_state send_shutdown_request
  WatchStep-IsDeaf x y (watches r a k h) d =
      watcher_step-IsDeaf serialize_identifier module_identifier r a k x.0 y.0 x.1 y.1 h d
  WatchStep-IsDeaf x y (header_written b n h) d =
      post_write_message_header-IsDeaf header_size n b x.1 y.1 h d
  WatchStep-IsDeaf x y (body_written b h) d =
      post_write_message_body-IsDeaf header_size b x.1 y.1 h d
  WatchStep-IsDeaf x y (header_read b n code size h) d =
      let same : x.1 ≡ y.1 = ground (arith, d.not_reading) in rw (← same) d
  WatchStep-IsDeaf x y (body_read b received allocated h) d =
      let same : x.1 ≡ y.1 = ground (arith, d.not_reading) in rw (← same) d
  WatchStep-IsDeaf x y (timer_expires h) d = timer_expired-IsDeaf serialize_code x.1 y.1 h d
  WatchStep-IsDeaf x y (requests_shutdown h) d =
      SameReading-IsDeaf x.1 y.1 (send_message-SameReading _ x.1 y.1 h) d
  WatchStep-IsDeaf x y (shuts_down e) d =
      rw e (record { not_reading = d.not_reading; unconnected = refl })

  -- Once the module is not connected and no read is pending, this stays so, whatever the watcher and
  -- the watchdog do: a connection that the watcher makes again is written to but never read, so the
  -- response to the request on it never arrives.
  pub WatchReach-IsDeaf :
      {x y : WatcherPhase × Connection} → IsDeaf x.1 → WatchReach x y → IsDeaf y.1
  WatchReach-IsDeaf d stop = d
  WatchReach-IsDeaf d (onward {y = y} {z = z} r st) =
      WatchStep-IsDeaf y z st (WatchReach-IsDeaf d r)

  -- If the connection is lost while the watcher is about to wait for a change, the notification
  -- reaches nobody: with the module running the watcher falls asleep in the state NotConnected, and
  -- sleeps on at every look until something else wakes it.
  pub watcher_misses_disconnect :
      (c : Connection) (is_open accepted woken : Bool)
      → c.socket ≡ some is_open
      → state_of c ≡ connected
      → (c₁ c₂ : Connection) × (disconnect c ≡ returns c₁)
        × (watcher_step serialize_identifier module_identifier true accepted woken (at_loop, c₁)
            ≡ returns (waiting_for_change, c₂))
        × (state_of c₂ ≡ not_connected)
        × ((running accepted' : Bool)
            → watcher_step serialize_identifier module_identifier running accepted' false
                (waiting_for_change, c₂)
              ≡ returns (waiting_for_change, c₂))
  unfolding disconnect watcher_step notify_state set_connection_state_and_notify_all
      set_connection_state fall_asleep
  watcher_misses_disconnect c b a k e on =
      let c₁ = notify_state not_connected (record c { socket = some false }) in
      (c₁, with_state (fall_asleep watcher_thread) c₁, ground arith, refl, refl, λ r a'. refl)
