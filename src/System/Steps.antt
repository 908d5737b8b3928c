-- ===== src/System/Steps.antt =====
-- The server, the cache and the timers thread under any sequence of their calls.
use Prim.Native.String.{String}
use process_manager_module.Base.{
  ℕ, ◌≡◌, ◌≢◌, refl, true, false, sym, Bool, List, Option, some, Outcome, returns, ap, subst, arith,
}
use process_manager_module.Base.Int.{ℤ}
use process_manager_module.Containers.Map
use process_manager_module.Timer.{Timer, CallbackEnd}
use process_manager_module.TimersCache.{new_cache, register_timer, remove_timer, restart_timer}
use process_manager_module.TimersCache.Invariant.{new_cache-IsValid}
use process_manager_module.TimersThread.{timers_thread_round}
use process_manager_module.Messages.{Message}
use process_manager_module.EventsCache.{EventsCache}
use process_manager_module.Services.{Instance}
use process_manager_module.Server.State.{Endpoint, Callback, Settings, Server, State, new_server}
use process_manager_module.Server.Requests.{
  complete_send, send_request, send_message, send_subscribe_request,
}
use process_manager_module.Server.Receiving.{
  handle_receive, start_reading, bind_to_listening_socket,
}
use process_manager_module.Server.Deadlock.{run_locked}
use process_manager_module.System.{IsSound}
use process_manager_module.System.Sends.{HasRoom, IsSound-frame, complete_send-IsSound}
use process_manager_module.System.Calls.{
  send_request-IsSound, send_message-IsSound, send_subscribe_request-IsSound,
}
use process_manager_module.System.Answers.{
  handle_receive-IsSound, register_timer-IsSound, remove_timer-IsSound, restart_timer-IsSound,
}
use process_manager_module.System.Callbacks.{UserKeeps}
use process_manager_module.System.Round.{timers_thread_round-IsSound}

module _ {Any Address : Type 0} where
  pub start-IsSound :
      (endpoints : List (ℕ × Endpoint Address)) (random_values : List ℕ)
      → IsSound {Any = Any} {Address = Address} (new_server endpoints random_values, new_cache)
  unfolding new_server Map.find
  start-IsSound endpoints random_values = record {
    valid = new_cache-IsValid;
    linked = λ k j h. absurd (ground arith);
  }

module _ {Any Address Cb W : Type 0} (settings : Settings) (database : Instance)
    (from_string : String → Option Address) (serialize_to_string : Message Any → List ℕ)
    (parse_from_string : List ℕ → Option (Message Any)) (validate : Cb → Any → Bool)
    (run : Cb → Any → W → Outcome W)
    (user : ℕ → Server Any Address → CallbackEnd (Server Any Address)) where
  -- One call that returned: of the server, of the user's on the cache, or a round of the thread. The
  -- calls that may register a timer find fewer than 2 ^ 32 - 1 of them, and the user removes timers
  -- of their own only.
  pub data SystemStep (x y : State Any Address) : Type 0 where
    requests :
        (now : ℤ) (identifier : ℕ) (any : Any) (b : Bool)
        → HasRoom x
        → send_request settings database from_string serialize_to_string now identifier any x
          ≡ returns (y, b)
        → SystemStep x y
    subscribes :
        (now : ℤ) (identifier : ℕ) (type_name : String) (b : Bool)
        → HasRoom x
        → send_subscribe_request settings database from_string serialize_to_string now identifier
            type_name x
          ≡ returns (y, b)
        → SystemStep x y
    sends :
        (now : ℤ) (identifier : ℕ) (m : Message Any) (b : Bool)
        → HasRoom x
        → send_message settings database from_string serialize_to_string now identifier m x
          ≡ returns (y, b)
        → SystemStep x y
    completes :
        (error : Bool) (now : ℤ)
        → HasRoom x
        → complete_send settings serialize_to_string error now x ≡ returns y
        → SystemStep x y
    receives :
        (events : EventsCache Cb) (error : Bool) (bytes : List ℕ) (w w' : W)
        → handle_receive validate run parse_from_string events error bytes (x, w) ≡ returns (y, w')
        → SystemStep x y
    binds :
        (bound : Bool) (size : ℕ) (b : Bool)
        → bind_to_listening_socket bound size x.0 ≡ returns (y.0, b)
        → y.1 ≡ x.1
        → SystemStep x y
    begins_reading : y ≡ (start_reading x.0, x.1) → SystemStep x y
    serves :
        (now woken_at time_point : ℤ) (clock : ℕ → ℤ)
        → timers_thread_round
            (run_locked settings database from_string serialize_to_string user now time_point x.1)
            woken_at
            time_point
            clock
            x.1
            x.0
          ≡ returns (some (y.1, y.0))
        → SystemStep x y
    user_registers :
        (t : Timer (Callback Any Address)) (i : ℕ)
        → HasRoom x
        → register_timer (some t) x.1 ≡ returns (y.1, i)
        → y.0 ≡ x.0
        → SystemStep x y
    user_removes :
        (i : ℕ)
        → ((code : ℕ) → Map.find code x.0.transaction_and_timer_id ≢ some i)
        → remove_timer i x.1 ≡ returns y.1
        → y.0 ≡ x.0
        → SystemStep x y
    user_restarts :
        (now : ℤ) (i : ℕ) (b : Bool)
        → restart_timer now i x.1 ≡ returns (y.1, b)
        → y.0 ≡ x.0
        → SystemStep x y

  pub data SystemReach (x : State Any Address) : State Any Address → Type 0 where
    here : SystemReach x x
    next : {y z : State Any Address} → SystemReach x y → SystemStep y z → SystemReach x z

  bind-IsSound :
      (bound : Bool) (size : ℕ) (b : Bool) (x y : State Any Address)
      → bind_to_listening_socket bound size x.0 ≡ returns (y.0, b)
      → y.1 ≡ x.1
      → IsSound x
      → IsSound y
  unfolding bind_to_listening_socket
  bind-IsSound true size b x y e f h =
      let kept : y.0.transaction_and_timer_id ≡ x.0.transaction_and_timer_id = ground arith in
      subst (λ c. IsSound (y.0, c)) (sym f) (IsSound-frame x.0 y.0 x.1 kept h)
  bind-IsSound false size b x y e f h = absurd (ground arith)

  module _ (keeps : UserKeeps user) where
    SystemStep-IsSound : {x y : State Any Address} → SystemStep x y → IsSound x → IsSound y
    unfolding start_reading
    SystemStep-IsSound {x} {y} (requests now i any b room e) h =
        send_request-IsSound settings database from_string serialize_to_string now i any x.0 x.1 y b
          room e h
    SystemStep-IsSound {x} {y} (subscribes now i t b room e) h =
        send_subscribe_request-IsSound settings database from_string serialize_to_string now i t x.0
          x.1 y b room e h
    SystemStep-IsSound {x} {y} (sends now i m b room e) h =
        send_message-IsSound settings database from_string serialize_to_string now i m x.0 x.1 y b
          room e h
    SystemStep-IsSound {x} {y} (completes error now room e) h =
        complete_send-IsSound settings serialize_to_string now error x.0 x.1 y room e h
    SystemStep-IsSound {x} {y} (receives events error bytes w w' e) h =
        handle_receive-IsSound validate run parse_from_string events error bytes x.0 x.1 y w w' e h
    SystemStep-IsSound {x} {y} (binds bound size b e f) h = bind-IsSound bound size b x y e f h
    SystemStep-IsSound {x} {y} (begins_reading e) h =
        subst IsSound (sym e) (IsSound-frame x.0 (start_reading x.0) x.1 refl h)
    SystemStep-IsSound {x} {y} (serves now woken_at p clock e) h =
        timers_thread_round-IsSound settings database from_string serialize_to_string user keeps now
          x.1 woken_at p clock x.0 y.0 x.1 y.1 e h
    SystemStep-IsSound {x} {y} (user_registers t i room e f) h =
        IsSound-frame x.0 y.0 y.1 (ap (λ s. s.transaction_and_timer_id) f)
          (register_timer-IsSound x.0 x.1 y.1 h t i room e)
    SystemStep-IsSound {x} {y} (user_removes i own e f) h =
        IsSound-frame x.0 y.0 y.1 (ap (λ s. s.transaction_and_timer_id) f)
          (remove_timer-IsSound x.0 x.1 y.1 h i own e)
    SystemStep-IsSound {x} {y} (user_restarts now i b e f) h =
        IsSound-frame x.0 y.0 y.1 (ap (λ s. s.transaction_and_timer_id) f)
          (restart_timer-IsSound x.0 x.1 y.1 h now i b e)

    -- If the callbacks of the user leave the transactions alone, then in every state that the server,
    -- the cache and the timers thread reach from a sound one, over steps in which what may register a
    -- timer finds fewer than 2 ^ 32 - 1 of them and the user removes the timer of no transaction: the
    -- cache is valid, and every transaction has a timer of its own that is registered, waits, fires
    -- once, and is to send again a message that carries the code of that transaction.
    pub SystemReach-IsSound : {x y : State Any Address} → IsSound x → SystemReach x y → IsSound y
    SystemReach-IsSound h here = h
    SystemReach-IsSound h (next r st) = SystemStep-IsSound st (SystemReach-IsSound h r)
