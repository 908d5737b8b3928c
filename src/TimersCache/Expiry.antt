-- ===== src/TimersCache/Expiry.antt =====
-- `triggerExpiredTimers`: which callbacks run, in which order, and what becomes of the timers.
use process_manager_module.Base.{
  ℕ, ◌≡◌, ◌≢◌, refl, ap, Bool, true, false, List, [], ◌∷◌, none, some, arith, All, if◌then◌else◌,
  Bool-cases, Option-cases, inl, inr, returns,
}
use process_manager_module.Base.Int.{ℤ}
use process_manager_module.Containers.Order.{int_order}
use process_manager_module.Timer.{
  Timer, ActionStatus, waiting, running, ended, CallbackEnd, completed, threw, deadlocked,
  run_callback_function,
}
use process_manager_module.TimersCache.{
  Timers, TimersCache, find_timer, is_due, trigger_timer, trigger_timers, trigger_expired_timers,
}
use process_manager_module.TimersCache.Invariant.{IsValid}
use process_manager_module.TimersCache.Firing.{
  IsSome, due_timers, FiredIf, Fired, Fired-WellFormed, Fires, find_timer-Fired, CallbackEnd-cases,
}

module _ {C : Type 0} where
  module _ {W : Type 0} (run : C → W → CallbackEnd W) where
    -- The world after one callback, whether it returned or threw.
    abbrev world_after_call : CallbackEnd W → W → W
    world_after_call (completed w') w = w'
    world_after_call (threw w') w = w'
    world_after_call deadlocked w = w

    abbrev pub world_after : Timer C → W → W
    world_after t w = elim t.callback_function [ none ↦ w | some c ↦ world_after_call (run c w) w ]

    unfoldable pub run_callbacks : List (Timer C) → W → W
    run_callbacks [] w = w
    run_callbacks (t ∷ ts) w = run_callbacks ts (world_after t w)

    abbrev pub NoDeadlock : Type 0
    NoDeadlock = (c : C) (w : W) → run c w ≢ deadlocked

    abbrev pub Completes : Type 0
    Completes = (c : C) (w : W) → (w' : W) × (run c w ≡ completed w')

    run_callback_function_returns :
        NoDeadlock
        → (t : Timer C) (w : W)
        → (t' : Timer C) × (run_callback_function run t w ≡ returns (t', world_after t w))
          × FiredIf (λ s. s ≢ waiting) true t t'
    unfolding run_callback_function
    run_callback_function_returns safe t w = elim (Option-cases t.callback_function) [
      | inl e ↦ (record t { action_status = running }, ground arith, (running, refl, λ h. cc))
      | inr (c, e) ↦ elim (CallbackEnd-cases (run c w)) [
        | inl (w', r) ↦ (record t { action_status = ended }, ground arith, (ended, refl, λ h. cc))
        | inr (inl (w', r)) ↦
            (record t { action_status = running }, ground arith, (running, refl, λ h. cc))
        | inr (inr r) ↦ absurd (safe c w r)
      ]
    ]

    run_callback_function_completes :
        Completes
        → (t : Timer C) (w : W) → IsSome t.callback_function
        → (t' : Timer C) × (run_callback_function run t w ≡ returns (t', world_after t w))
          × FiredIf (λ s. s ≡ ended) true t t'
    unfolding run_callback_function
    run_callback_function_completes all t w set = elim (Option-cases t.callback_function) [
      | inl e ↦ absurd (rw e at set)
      | inr (c, e) ↦
          let (w', r) = all c w in
          (record t { action_status = ended }, ground arith, (ended, refl, refl))
    ]

    -- What one call does to a timer with `P`, for the loop over such timers.
    module _ (P : Timer C → Type 0) (Q : ActionStatus → Type 0)
        (call : (t : Timer C) (w : W)
          → P t
          → (t' : Timer C) × (run_callback_function run t w ≡ returns (t', world_after t w))
            × FiredIf Q true t t') where
      trigger_timer_returns :
          (time_point : ℤ) (t : Timer C) (w : W)
          → P t
          → (t' : Timer C) × (trigger_timer run time_point t w
              ≡ returns (t', (if is_due time_point t then world_after t w else w)))
            × FiredIf Q (is_due time_point t) t t'
      unfolding trigger_timer
      trigger_timer_returns p t w h = elim (Bool-cases (is_due p t)) [
        | inl due ↦ rw due (call t w h)
        | inr idle ↦ rw idle (t, refl, refl)
      ]

      trigger_timers_returns :
          (time_point : ℤ) (m : Timers C) (w : W)
          → All (λ e. P e.1) m
          → (m' : Timers C) × (trigger_timers run time_point m w
              ≡ returns (m', run_callbacks (due_timers time_point m) w))
            × Fired Q time_point m m'
      unfolding trigger_timers due_timers run_callbacks
      trigger_timers_returns p [] w h = ([], refl, tt)
      trigger_timers_returns p ((k, t) ∷ m) w h =
          let (t', e, f) = trigger_timer_returns p t w h.0 in
          let (m', e', f') =
            trigger_timers_returns p m (if is_due p t then world_after t w else w) h.1 in
          (
            (k, t') ∷ m',
            rw (e, e') (ap (λ v. returns ((k, t') ∷ m', v)) (next t w (is_due p t))),
            (refl, f, f'),
          )
        where
          next :
              (s : Timer C) (v : W) (b : Bool)
              → run_callbacks (due_timers p m) (if b then world_after s v else v)
                ≡ run_callbacks (if b then s ∷ due_timers p m else due_timers p m) v
          next s v true = refl
          next s v false = refl

      trigger_returns :
          (time_point : ℤ) (c : TimersCache C) (w : W)
          → IsValid c
          → All (λ e. P e.1) c.timers
          → (c' : TimersCache C) × (trigger_expired_timers run time_point c w
              ≡ returns (c', run_callbacks (due_timers time_point c.timers) w))
            × IsValid c'
            × ((i : ℕ) → Fires Q time_point (find_timer i c.timers) (find_timer i c'.timers))
      unfolding trigger_expired_timers
      trigger_returns p c w v h =
          let (m', e, f) = trigger_timers_returns p c.timers w h in
          (
            record c { timers = m' },
            simp (v.unlocked, e),
            record {
              unlocked = v.unlocked;
              well_formed = Fired-WellFormed Q p c.timers m' f v.well_formed;
            },
            λ i. find_timer-Fired Q p i c.timers m' f,
          )

    All-Unit : (m : Timers C) → All (λ e. Unit {0}) m
    All-Unit [] = tt
    All-Unit (e ∷ m) = (tt, All-Unit m)

    -- If no callback waits for the cache itself, the call returns, and keeps a valid cache valid. It
    -- has called the callbacks of the due timers one after the other in the order of the map, and
    -- no others; the due timers wait no longer, and every other timer is as it was.
    pub trigger_expired_timers_lem :
        NoDeadlock
        → (time_point : ℤ) (c : TimersCache C) (w : W) → IsValid c
        → (c' : TimersCache C) × (trigger_expired_timers run time_point c w
            ≡ returns (c', run_callbacks (due_timers time_point c.timers) w))
          × IsValid c'
          × ((i : ℕ)
              → Fires
                  (λ s. s ≢ waiting)
                  time_point
                  (find_timer i c.timers)
                  (find_timer i c'.timers))
    trigger_expired_timers_lem safe p c w v =
        trigger_returns (λ t. Unit {0}) (λ s. s ≢ waiting)
          (λ t w h. run_callback_function_returns safe t w) p c w v (All-Unit c.timers)

    -- On a valid cache whose timers all have a callback, if every callback returns, the call
    -- returns and keeps the cache valid. It has called the callbacks of the due timers one after
    -- the other in the order of the map, and no others; the due timers have ended, and every other
    -- timer is as it was.
    pub trigger_expired_timers_completes :
        Completes
        → (time_point : ℤ) (c : TimersCache C) (w : W) → IsValid c
        → All (λ e. IsSome e.1.callback_function) c.timers
        → (c' : TimersCache C) × (trigger_expired_timers run time_point c w
            ≡ returns (c', run_callbacks (due_timers time_point c.timers) w))
          × IsValid c'
          × ((i : ℕ)
              → Fires (λ s. s ≡ ended) time_point (find_timer i c.timers) (find_timer i c'.timers))
    trigger_expired_timers_completes all =
        trigger_returns (λ t. IsSome t.callback_function) (λ s. s ≡ ended)
          (run_callback_function_completes all)
