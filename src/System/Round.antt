-- ===== src/System/Round.antt =====
-- A round of the timers thread keeps the transactions and the timers linked.
use Prim.Native.String.{String}
use process_manager_module.Base.{
  ℕ, ◌≡◌, ◌∙◌, true, false, not, ◌||◌, List, Option, none, some, returns, arith, subst, ap,
  >>=-eq-returns, Bool-cases, Option-cases, Outcome-cases, inl, inr,
}
use process_manager_module.Base.Int.{ℤ, ltb_ℤ}
use process_manager_module.Containers.Map
use process_manager_module.Timer.{Timer, ActionStatus, CallbackEnd}
use process_manager_module.TimersCache.{
  TimersCache, is_due, to_remove, trigger_expired_timers, next_expiration_timestamp, first_key,
  wait_for_invoke, wait_for_next_expiration,
}
use process_manager_module.TimersCache.Invariant.{IsValid}
use process_manager_module.TimersCache.Views.{unless}
use process_manager_module.TimersCache.Firing.{FiredIf, Fires}
use process_manager_module.TimersCache.Restart.{Restarts, restart_repeatable_timers_lem}
use process_manager_module.TimersCache.Effects.{trigger_expired_timers-Below}
use process_manager_module.TimersCache.Refinement.{Registry, registry, remove_ended_timers_lem}
use process_manager_module.TimersThread.{wait, serve, timers_thread_round}
use process_manager_module.TimersThread.Round.{Served_idle}
use process_manager_module.Messages.{Message}
use process_manager_module.Services.{Instance}
use process_manager_module.Server.State.{Callback, resend, Settings, Server, Cache}
use process_manager_module.Server.Deadlock.{run_locked}
use process_manager_module.System.{Linked, IsSound}
use process_manager_module.System.Links.{Linked-view}
use process_manager_module.System.Callbacks.{
  UserKeeps, FewerTransactions, HasForgotten, run_callback-Effect,
}

module _ {C : Type 0} where
  Fires-idle :
      (Q : ActionStatus → Type 0) (now : ℤ) (t : Timer C) (o o₁ : Option (Timer C))
      → o ≡ some t
      → is_due now t ≡ false
      → Fires Q now o o₁
      → o₁ ≡ some t
  Fires-idle Q now t o o₁ e idle f =
      let (t', g, h) = subst (λ x. Fires Q now x o₁) e f in
      let same : t' ≡ t = subst (λ b. FiredIf Q b t t') idle h in g ∙ ap some same

  woken :
      (c c' : TimersCache C)
      → record c { timers_invoked_status = false } ≡ c'
      → IsValid c
      → IsValid c' × ((j : ℕ) → registry c' j ≡ registry c j)
  woken c c' e v =
      (rw (← e) (record { unlocked = v.unlocked; well_formed = v.well_formed }), λ j. rw (← e))

  pub wait-IsValid :
      {W : Type 0} (run : C → W → CallbackEnd W) (next : Option ℤ) (now : ℤ) (c c' : TimersCache C)
      → wait run next now c ≡ some c'
      → IsValid c
      → IsValid c' × ((j : ℕ) → registry c' j ≡ registry c j)
  unfolding wait wait_for_invoke wait_for_next_expiration
  wait-IsValid run none now c c' e v = elim (Bool-cases c.timers_invoked_status) [
    | inl told ↦ woken c c' (ground (arith, v.unlocked)) v
    | inr quiet ↦ absurd (ground (arith, v.unlocked))
  ]
  wait-IsValid run (some n) now c c' e v =
      elim (Bool-cases (c.timers_invoked_status || not (ltb_ℤ now n))) [
        | inl told ↦ woken c c' (ground (arith, v.unlocked)) v
        | inr quiet ↦ absurd (ground (arith, v.unlocked))
      ]

module _ {Any Address : Type 0} (time_point : ℤ) (clock : ℕ → ℤ) where
  -- A transaction that is left has a timer that was not due, and which is as it was.
  Linked-survives :
      (Q : ActionStatus → Type 0) (s s₁ : Server Any Address)
      (r r₁ r₂ r₃ : Registry (Callback Any Address))
      → FewerTransactions s s₁
      → ((i : ℕ) (t : Timer (Callback Any Address)) (f : Callback Any Address)
          → r i ≡ some t
          → is_due time_point t ≡ true
          → t.callback_function ≡ some f
          → HasForgotten f s₁)
      → ((i : ℕ) → Fires Q time_point (r i) (r₁ i))
      → ((i : ℕ) → Restarts clock (r₁ i) (r₂ i))
      → ((i : ℕ) → r₃ i ≡ unless to_remove (r₂ i))
      → Linked s.transaction_and_timer_id r
      → Linked s₁.transaction_and_timer_id r₃
  Linked-survives Q s s₁ r r₁ r₂ r₃ below marks fires restarts left l k j found =
      let (t, e, p) = l k j (below k j found) in
      elim (Bool-cases (is_due time_point t)) [
        | inl due ↦
            let gone = marks j t (resend (some p.message)) e due p.callback in
            let gone' : Map.find k s₁.transaction_and_timer_id ≡ none = rw (← p.same) gone in
            absurd (cc (gone', found))
        | inr idle ↦
            let e₁ = Fires-idle Q time_point t (r j) (r₁ j) e idle (fires j) in
            (
              t,
              Served_idle clock t (r₂ j) (r₃ j) p.waits
                  (subst (λ o. Restarts clock o (r₂ j)) e₁ (restarts j)) (left j),
              p,
            )
      ]

module _ {Any Address : Type 0} (settings : Settings) (database : Instance)
    (from_string : String → Option Address) (serialize_to_string : Message Any → List ℕ)
    (user : ℕ → Server Any Address → CallbackEnd (Server Any Address)) (keeps : UserKeeps user)
    (now : ℤ) where
  pub serve-IsSound :
      (held : Cache Any Address) (time_point : ℤ) (clock : ℕ → ℤ) (s s' : Server Any Address)
      (c c' : Cache Any Address)
      → serve
          (run_locked settings database from_string serialize_to_string user now time_point held)
          time_point
          clock
          c
          s
        ≡ returns (c', s')
      → IsSound (s, c)
      → IsSound (s', c')
  unfolding serve
  serve-IsSound held time_point clock s s' c c' e h =
      let run =
        run_locked settings database from_string serialize_to_string user now time_point held in
      let effect =
        run_callback-Effect settings database from_string serialize_to_string now user time_point
          held keeps in
      let ((c₁, s₁), e₁, f₁) = >>=-eq-returns (trigger_expired_timers run time_point c s) _ e in
      let (v₁, below, fires, marks) =
        trigger_expired_timers-Below run FewerTransactions HasForgotten effect time_point c c₁ s s₁
          h.valid e₁ in
      let (c₂, e₂, v₂, restarts) = restart_repeatable_timers_lem clock c₁ v₁ in
      let (c₃, e₃, v₃, left) = remove_ended_timers_lem c₂ v₂ in
      let h' : IsSound (s₁, c₃) = record {
        valid = v₃;
        linked =
            Linked-survives time_point clock (λ a. Unit) s s₁ (registry c) (registry c₁)
              (registry c₂) (registry c₃) below marks fires restarts left h.linked;
      } in
      let same_server : s₁ ≡ s' = cc (e, f₁, e₂, e₃) in
      let same_cache : c₃ ≡ c' = cc (e, f₁, e₂, e₃) in rw (← same_server, ← same_cache) h'

  pub timers_thread_round-IsSound :
      (held : Cache Any Address) (woken_at time_point : ℤ) (clock : ℕ → ℤ)
      (s s' : Server Any Address) (c c' : Cache Any Address)
      → timers_thread_round
          (run_locked settings database from_string serialize_to_string user now time_point held)
          woken_at
          time_point
          clock
          c
          s
        ≡ returns (some (c', s'))
      → IsSound (s, c)
      → IsSound (s', c')
  unfolding timers_thread_round next_expiration_timestamp
  timers_thread_round-IsSound held woken_at time_point clock s s' c c' e h =
      let run =
        run_locked settings database from_string serialize_to_string user now time_point held in
      elim (Option-cases (wait run (first_key c.timers) woken_at c)) [
        | inl asleep ↦ absurd (ground (arith, h.valid.unlocked))
        | inr (c₁, awake) ↦
            let (v, same) = wait-IsValid run (first_key c.timers) woken_at c c₁ awake h.valid in
            let h₁ : IsSound (s, c₁) = record {
              valid = v;
              linked =
                  Linked-view s.transaction_and_timer_id (registry c) (registry c₁) same h.linked;
            } in
            elim (Outcome-cases (serve run time_point clock c₁ s)) [
              | inl ((c₂, s₂), served) ↦
                  let same_server : s₂ ≡ s' = ground (arith, h.valid.unlocked) in
                  let same_cache : c₂ ≡ c' = ground (arith, h.valid.unlocked) in
                  rw (← same_server, ← same_cache)
                    (serve-IsSound held time_point clock s s₂ c₁ c₂ served h₁)
              | inr (inl (x, served)) ↦ absurd (ground (arith, h.valid.unlocked))
              | inr (inr served) ↦ absurd (ground (arith, h.valid.unlocked))
            ]
      ]
