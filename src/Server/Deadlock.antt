-- ===== src/Server/Deadlock.antt =====
-- The callback of a resend timer calls the server while the timers thread holds the cache.
use Prim.Native.String.{String}
use process_manager_module.Base.{
  ℕ, ◌≡◌, refl, true, false, List, [], ◌∷◌, Option, some, returns, hangs, arith, Bool-cases, inl,
  inr,
}
use process_manager_module.Base.Int.{ℤ}
use process_manager_module.Timer.{Timer, CallbackEnd, deadlocked, run_callback_function}
use process_manager_module.TimersCache.{
  Timers, register_timer, internal_register_timer, is_due, trigger_timer, trigger_timers,
  trigger_expired_timers,
}
use process_manager_module.TimersCache.Firing.{due_timers}
use process_manager_module.MessageQueue
use process_manager_module.Messages.{Message}
use process_manager_module.Services.{Instance}
use process_manager_module.Server.State.{
  Destination, ParkedMessage, Callback, resend, Settings, Server, Cache,
}
use process_manager_module.Server.Requests.{
  start_timer_to_resend, send, enqueue, find_destination, send_message, forget_transaction,
  resend_message, run_callback,
}

module _ {Any Address : Type 0} (settings : Settings) (database : Instance)
    (from_string : String → Option Address) (serialize_to_string : Message Any → List ℕ) where
  find_destination_forget :
      (p : ParkedMessage Any Address) (s : Server Any Address)
      → find_destination database from_string p.destination.service_identifier
          (forget_transaction p s)
        ≡ find_destination database from_string p.destination.service_identifier s
  unfolding find_destination forget_transaction
  find_destination_forget p s = refl

  -- A message that goes out at once needs a timer, so the call waits for the cache.
  resend_message_waits :
      (now : ℤ) (p : ParkedMessage Any Address) (s : Server Any Address) (c : Cache Any Address)
      (d : Destination Address)
      → c.timers_lock ≡ true
      → s.message_queue.messages_queue ≡ []
      → find_destination database from_string p.destination.service_identifier s ≡ returns (some d)
      → resend_message settings database from_string serialize_to_string now (some p) (s, c) ≡ hangs
  unfolding resend_message send_message enqueue send start_timer_to_resend register_timer
      internal_register_timer MessageQueue.push MessageQueue.size MessageQueue.front
  resend_message_waits now p s c d held idle known =
      let same = find_destination_forget p s in ground (arith, same)

  module _ (user : ℕ → Server Any Address → CallbackEnd (Server Any Address))
      (now time_point : ℤ) where
    abbrev pub run_locked :
        Cache Any Address
        → Callback Any Address
        → Server Any Address
        → CallbackEnd (Server Any Address)
    run_locked c =
        run_callback settings database from_string serialize_to_string user now
          (record c { timers_lock = true })

    trigger_timers_waits :
        (run : Callback Any Address → Server Any Address → CallbackEnd (Server Any Address))
        (s : Server Any Address) (m : Timers (Callback Any Address))
        (t : Timer (Callback Any Address)) (ts : List (Timer (Callback Any Address)))
        (f : Callback Any Address)
        → due_timers time_point m ≡ t ∷ ts
        → t.callback_function ≡ some f
        → run f s ≡ deadlocked
        → trigger_timers run time_point m s ≡ hangs
    unfolding trigger_timers trigger_timer due_timers run_callback_function
    trigger_timers_waits run s [] t ts f due set d = cc
    trigger_timers_waits run s ((k, u) ∷ m) t ts f due set d =
        elim (Bool-cases (is_due time_point u)) [
          | inl hit ↦ ground arith
          | inr miss ↦ ground (arith, trigger_timers_waits run s m t ts f)
        ]

    -- If the first timer that is due is to send a message again, the queue of the server is empty
    -- and the endpoint of the service is found, be it in the local map or in the database, the
    -- timers thread never comes back: the callback waits for the cache, whose lock the thread holds
    -- until the callback has returned.
    pub trigger_expired_timers_deadlock :
        (s : Server Any Address) (c : Cache Any Address) (p : ParkedMessage Any Address)
        (t : Timer (Callback Any Address)) (ts : List (Timer (Callback Any Address)))
        (d : Destination Address)
        → c.timers_lock ≡ false
        → due_timers time_point c.timers ≡ t ∷ ts
        → t.callback_function ≡ some (resend (some p))
        → s.message_queue.messages_queue ≡ []
        → find_destination database from_string p.destination.service_identifier s
          ≡ returns (some d)
        → trigger_expired_timers (run_locked c) time_point c s ≡ hangs
    unfolding trigger_expired_timers run_callback
    trigger_expired_timers_deadlock s c p t ts d free due set idle known =
        let stuck : run_locked c (resend (some p)) s ≡ deadlocked = ground (
          arith,
          resend_message_waits now p s (record c { timers_lock = true }) d refl idle known,
        ) in
        rw (
          free,
          trigger_timers_waits (run_locked c) s c.timers t ts (resend (some p)) due set stuck,
        )
