-- ===== src/Server/Sending.antt =====
-- What a call that sends does: the queue, the datagram and the timer.
use process_manager_module.Base.{
  ℕ, ◌+◌, ◌^◌, ◌≤◌, ◌≡◌, refl, Bool, true, false, List, [], ◌∷◌, ◌++◌, some, returns, ◌==◌, length,
  length-append, arith, ltb, ap, List-cases, inl, inr,
}
use process_manager_module.Base.Int.{ℤ, pos}
use process_manager_module.Containers.Map
use process_manager_module.Timer.{Timer, new_timer, set_duration, set_timer_id}
use process_manager_module.TimersCache.Identifiers.{FirstFree}
use process_manager_module.TimersCache.Invariant.{IsValid}
use process_manager_module.TimersCache.Refinement.{registry, put, register_timer_lem}
use process_manager_module.MessageQueue
use process_manager_module.MessageQueue.{MessageQueue}
use process_manager_module.Messages.{Message, transaction_code_of}
use process_manager_module.Server.State.{
  Destination, Datagram, Callback, resend, Settings, Server, Cache, State,
}
use process_manager_module.Server.Requests.{
  resend_duration, start_timer_to_resend, send_to_destination, send, enqueue,
}

module _ {Any Address : Type 0} (settings : Settings)
    (serialize_to_string : Message Any → List ℕ) where
  -- The timer that is registered when a message is sent, at the time `now`.
  abbrev pub resend_timer : ℤ → Destination Address → Message Any → Timer (Callback Any Address)
  resend_timer now d m = set_duration (resend_duration settings) (
      new_timer now (pos 0) (
        some (
          resend (
            some (record {
              transaction_code = transaction_code_of m;
              destination = d;
              message = m;
            })))))

  abbrev pub datagram_of : Destination Address → Message Any → Datagram Address
  datagram_of d m = record { receiver = d.endpoint; bytes = serialize_to_string m }

  -- The server after `send` of a message under whose transaction code the timer `i` was entered.
  abbrev pub sent : Destination Address → Message Any → ℕ → Server Any Address → Server Any Address
  sent d m i s = record s {
    transaction_and_timer_id = Map.emplace (transaction_code_of m) i s.transaction_and_timer_id;
    in_flight = s.in_flight ++ datagram_of d m ∷ [];
    handed_over = s.handed_over ++ datagram_of d m ∷ [];
  }

  -- The cache after the timer was registered under the ID `i`.
  pub record Registered (c c' : Cache Any Address) (i : ℕ) (t : Timer (Callback Any Address))
      : Type 0 where
    pub valid : IsValid c'
    pub fresh : FirstFree 1 c.timers i
    pub view : (j : ℕ) → registry c' j ≡ put i (set_timer_id i t) (registry c) j
    pub invoked : c'.timers_invoked_status ≡ true
    pub count : length c'.timers ≡ length c.timers + 1

  -- The server with one more message in the queue.
  abbrev pub queued : Destination Address → Message Any → Server Any Address → Server Any Address
  queued d m s = record s {
    message_queue = record { messages_queue = s.message_queue.messages_queue ++ (d, m) ∷ [] };
  }

  -- The message was sent, with a timer for its repetition; or only the queue has changed.
  abbrev pub SentIf :
      Bool → ℤ → Destination Address → Message Any → State Any Address → State Any Address → Type 0
  SentIf true now d m (s, c) (s', c') =
      (i : ℕ) × (s' ≡ sent d m i (queued d m s)) × Registered c c' i (resend_timer now d m)
  SentIf false now d m (s, c) (s', c') = (s' ≡ queued d m s) × (c' ≡ c)

  module _ (now : ℤ) (s : Server Any Address) (c : Cache Any Address) where
    pub send_returns :
        (d : Destination Address) (m : Message Any)
        (rest : List (Destination Address × Message Any))
        → s.message_queue.messages_queue ≡ (d, m) ∷ rest
        → IsValid c
        → length c.timers + 2 ≤ 2 ^ 32
        → (i : ℕ) × (c' : Cache Any Address) × (send settings serialize_to_string now (s, c)
            ≡ returns (sent d m i s, c'))
          × Registered c c' i (resend_timer now d m)
    unfolding send start_timer_to_resend send_to_destination MessageQueue.front
    send_returns d m rest q v room =
        let (c', i, e, v', f, w, inv, n) = register_timer_lem c v (resend_timer now d m) room in
        (i, c', rw q (rw e), record { valid = v'; fresh = f; view = w; invoked = inv; count = n })

  module _ (now : ℤ) (s : Server Any Address) (c : Cache Any Address) where
    -- Over a valid cache with fewer than 2 ^ 32 - 1 timers a message is queued behind those that
    -- are there. If there are none it is sent at once, and the call answers true; otherwise nothing
    -- else happens, and the call answers false.
    pub enqueue_lem :
        (d : Destination Address) (m : Message Any)
        → IsValid c
        → length c.timers + 2 ≤ 2 ^ 32
        → let idle = MessageQueue.empty s.message_queue in
          (s' : Server Any Address) × (c' : Cache Any Address) × (enqueue settings
              serialize_to_string now d m
              (s, c)
            ≡ returns ((s', c'), idle))
          × SentIf idle now d m (s, c) (s', c')
    unfolding enqueue MessageQueue.push MessageQueue.size MessageQueue.empty
    enqueue_lem d m v room =
        let ms = s.message_queue.messages_queue in
        let grown : length (ms ++ (d, m) ∷ []) ≡ length ms + 1 = length-append ms ((d, m) ∷ []) in
        let pushed : ltb 0 (length (ms ++ (d, m) ∷ [])) ≡ true = ground arith in
        elim (List-cases ms) [
          | inl q ↦
              let alone : ltb 1 (length (ms ++ (d, m) ∷ [])) ≡ false =
                ground (arith, ap length q) in
              let idle : (length ms == 0) ≡ true = ground (arith, ap length q) in
              let (i, c', e, r) =
                send_returns now (queued d m s) c d m [] (ap (λ l. l ++ (d, m) ∷ []) q) v room in
              (sent d m i (queued d m s), c', rw (pushed, alone, idle) (rw e), rw idle (i, refl, r))
          | inr (x, xs, q) ↦
              let busy : ltb 1 (length (ms ++ (d, m) ∷ [])) ≡ true = ground (arith, ap length q) in
              let not_idle : (length ms == 0) ≡ false = ground (arith, ap length q) in
              (queued d m s, c, rw (pushed, busy, not_idle), rw not_idle (refl, refl))
        ]
