-- ===== src/ModuleManager/Laws.antt =====
-- What the two managers promise their users.
use process_manager_module.Base.{
  ℕ, ◌≡◌, refl, true, false, none, some, returns, throws, null_dereference, invalid_argument,
}
use process_manager_module.Timer.{Timer, is_callback_function_set}
use process_manager_module.TimersCache.{TimersCache}
use process_manager_module.TimersCache.Invariant.{IsValid}
use process_manager_module.ModuleManager.{
  TimersManager, initialize_timers, manager_register_timer, manager_remove_timer,
}

module _ {C : Type 0} where
  -- A registration and the removal that undoes it, through the managed cache.
  pub record RoundTrip (t : Timer C) (c : TimersCache C) : Type 0 where
    pub timer_id : ℕ
    pub registered : TimersCache C
    pub removed : TimersCache C
    pub registering : manager_register_timer (some t) (some c) ≡ returns (some registered, timer_id)
    pub removing : manager_remove_timer timer_id (some registered) ≡ returns (some removed)
    pub valid : IsValid removed

  -- What is refused: a timer without a callback, whether or not there is a cache; and every call
  -- before there is one.
  pub manager_refuses :
      ((t : Timer C) (m : TimersManager C)
        → is_callback_function_set t ≡ false
        → manager_register_timer (some t) m ≡ throws invalid_argument)
      × ((t : Timer C)
          → is_callback_function_set t ≡ true
          → manager_register_timer (some t) none ≡ throws null_dereference)
      × ((i : ℕ) → manager_remove_timer {C = C} i none ≡ throws null_dereference)
  unfolding manager_register_timer manager_remove_timer
  manager_refuses = (λ t m unset. rw unset, λ t set. rw set, λ i. refl)

  -- Only the first initialization takes effect: a second one changes nothing, and answers false.
  pub initialize_timers-initialize_timers :
      (c d : TimersCache C) (m : TimersManager C)
      → initialize_timers d (initialize_timers c m).0 ≡ ((initialize_timers c m).0, false)
  unfolding initialize_timers
  initialize_timers-initialize_timers c d none = refl
  initialize_timers-initialize_timers c d (some e) = refl
