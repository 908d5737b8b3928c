-- ===== src/System/Callbacks.antt =====
-- The callbacks that the timers thread runs while it holds the cache: they end transactions, and
-- begin none.
use Prim.Native.String.{String}
use process_manager_module.Base.{
  ℕ, ◌≡◌, ◌⊎◌, refl, true, Bool, List, Option, none, some, returns, arith, ap, length,
  length-append, [], ◌∷◌, >>=-eq-returns, List-cases, Option-cases, Outcome-cases, inl, inr,
}
use process_manager_module.Base.Int.{ℤ}
use process_manager_module.Containers.Map
use process_manager_module.Timer.{CallbackEnd, completed, threw}
use process_manager_module.TimersCache.{register_timer, internal_register_timer}
use process_manager_module.TimersCache.Effects.{Effect}
use process_manager_module.MessageQueue
use process_manager_module.MessageQueue.{MessageQueue}
use process_manager_module.Messages.{Message}
use process_manager_module.Services.{Instance}
use process_manager_module.Server.State.{
  Destination, ParkedMessage, Callback, resend, user_callback, Settings, Server, Cache, State,
}
use process_manager_module.Server.Requests.{
  start_timer_to_resend, send, enqueue, find_destination, forget_transaction, send_message,
  resend_message, run_callback,
}
use process_manager_module.Server.Deadlock.{run_locked}
use process_manager_module.System.Links.{Shrinks, erase-Shrinks, find-erase_self}

module _ {Any Address : Type 0} where
  -- No call of the world's server adds a transaction.
  abbrev pub FewerTransactions : Server Any Address → Server Any Address → Type 0
  FewerTransactions s s' = Shrinks s.transaction_and_timer_id s'.transaction_and_timer_id

  -- The transaction that the callback is about has ended.
  abbrev pub HasForgotten : Callback Any Address → Server Any Address → Type 0
  HasForgotten (user_callback i) s = Unit
  HasForgotten (resend none) s = Unit
  HasForgotten (resend (some m)) s = Map.find m.transaction_code s.transaction_and_timer_id ≡ none

  -- The user's callbacks leave the transactions alone, whether they return or throw.
  abbrev pub UserKeeps : (ℕ → Server Any Address → CallbackEnd (Server Any Address)) → Type 0
  UserKeeps user =
      (i : ℕ) (s s' : Server Any Address)
      → ((user i s ≡ completed s') ⊎ (user i s ≡ threw s'))
      → s'.transaction_and_timer_id ≡ s.transaction_and_timer_id

  lasts :
      (f : Callback Any Address) (s s' : Server Any Address)
      → FewerTransactions s s'
      → HasForgotten f s
      → HasForgotten f s'
  lasts (user_callback i) s s' sub h = tt
  lasts (resend none) s s' sub h = tt
  lasts (resend (some m)) s s' sub h =
      elim (Option-cases (Map.find m.transaction_code s'.transaction_and_timer_id)) [
        | inl e ↦ e
        | inr (j, e) ↦ absurd (ground (arith, sub m.transaction_code j e))
      ]

module _ {Any Address : Type 0} (settings : Settings) (database : Instance)
    (from_string : String → Option Address) (serialize_to_string : Message Any → List ℕ)
    (now : ℤ) where
  enqueue_locked :
      (d : Destination Address) (m : Message Any) (s : Server Any Address) (c : Cache Any Address)
      (y : State Any Address) (b : Bool)
      → c.timers_lock ≡ true
      → enqueue settings serialize_to_string now d m (s, c) ≡ returns (y, b)
      → y.0.transaction_and_timer_id ≡ s.transaction_and_timer_id
  unfolding enqueue send start_timer_to_resend register_timer internal_register_timer
      MessageQueue.push MessageQueue.size MessageQueue.front
  enqueue_locked d m s c y b held e = elim (List-cases s.message_queue.messages_queue) [
    | inl q ↦ absurd (ground arith)
    | inr (x, xs, q) ↦
        ground (arith, length-append s.message_queue.messages_queue ((d, m) ∷ []), ap length q)
  ]

  send_message_locked :
      (identifier : ℕ) (m : Message Any) (s : Server Any Address) (c : Cache Any Address)
      (y : State Any Address) (b : Bool)
      → c.timers_lock ≡ true
      → send_message settings database from_string serialize_to_string now identifier m (s, c)
        ≡ returns (y, b)
      → y.0.transaction_and_timer_id ≡ s.transaction_and_timer_id
  unfolding send_message
  send_message_locked identifier m s c y b held e =
      elim (Outcome-cases (find_destination database from_string identifier s)) [
        | inr (inl (f, k)) ↦ absurd (ground arith)
        | inr (inr k) ↦ absurd (ground arith)
        | inl (none, k) ↦ ground arith
        | inl (some d, k) ↦ enqueue_locked d m s c y b held (ground arith)
      ]

  resend_message_locked :
      (m : ParkedMessage Any Address) (s : Server Any Address) (c : Cache Any Address)
      (y : State Any Address)
      → c.timers_lock ≡ true
      → resend_message settings database from_string serialize_to_string now (some m) (s, c)
        ≡ returns y
      → y.0.transaction_and_timer_id ≡ Map.erase m.transaction_code s.transaction_and_timer_id
  unfolding resend_message forget_transaction
  resend_message_locked m s c y held e =
      let ((z, b), k, f) =
        >>=-eq-returns
          (send_message settings database from_string serialize_to_string now
            m.destination.service_identifier m.message (forget_transaction m s, c))
          _ e in
      let g =
        send_message_locked m.destination.service_identifier m.message (forget_transaction m s) c z
          b held k in
      ground arith

  module _ (user : ℕ → Server Any Address → CallbackEnd (Server Any Address)) (time_point : ℤ)
      (c : Cache Any Address) where
    abbrev Ends : Callback Any Address → Server Any Address → Server Any Address → Type 0
    Ends f s s' =
        (run_locked settings database from_string serialize_to_string user now time_point c f s
          ≡ completed s')
        ⊎ (run_locked settings database from_string serialize_to_string user now time_point c f s
            ≡ threw s')

    resend-Ends :
        (m : ParkedMessage Any Address) (s s' : Server Any Address)
        → Ends (resend (some m)) s s'
        → s'.transaction_and_timer_id ≡ Map.erase m.transaction_code s.transaction_and_timer_id
    unfolding run_callback forget_transaction
    resend-Ends m s s' h =
        let locked : Cache Any Address = record c { timers_lock = true } in
        elim (Outcome-cases (
          resend_message settings database from_string serialize_to_string now (some m)
            (s, locked))) [
              | inl (y, e) ↦
                  let g = resend_message_locked m s locked y refl e in
                  elim h [ inl k ↦ ground arith | inr k ↦ absurd (ground arith) ]
              | inr (inl (x, e)) ↦ elim h [ inl k ↦ absurd (ground arith) | inr k ↦ ground arith ]
              | inr (inr e) ↦ elim h [
                | inl k ↦ absurd (ground arith)
                | inr k ↦ absurd (ground arith)
              ]
            ]

    called :
        UserKeeps user
        → (f : Callback Any Address) (s s' : Server Any Address) → Ends f s s'
        → FewerTransactions s s' × HasForgotten f s'
    unfolding run_callback
    called keeps (user_callback i) s s' h = (λ k j. rw (keeps i s s' h) (λ e. e), tt)
    called keeps (resend none) s s' (inl h) =
        let e : s ≡ s' = ground arith in (rw e (λ k j g. g), tt)
    called keeps (resend none) s s' (inr h) = absurd (ground arith)
    called keeps (resend (some m)) s s' h =
        let e = resend-Ends m s s' h in
        (
          rw e (erase-Shrinks m.transaction_code s.transaction_and_timer_id),
          rw e (find-erase_self m.transaction_code s.transaction_and_timer_id),
        )

    -- Over a cache whose lock is held, a callback of the server that returns or throws has ended its
    -- transaction, and none has begun.
    pub run_callback-Effect :
        UserKeeps user
        → Effect
            (run_locked settings database from_string serialize_to_string user now time_point c)
            FewerTransactions
            HasForgotten
    run_callback-Effect keeps = record {
      reflexive = λ s k j h. h;
      transitive = λ u v w f g k j h. f k j (g k j h);
      lasts = lasts;
      completes = λ f s s' h. called keeps f s s' (inl h);
      fails = λ f s s' h. called keeps f s s' (inr h);
    }
