-- ===== src/Timer.antt =====
-- Source/include/Timer.hpp and Source/src/Timer.cpp: one timer. A `Timer<T>` is known to the cache
-- through `TimerInterface` only, so its callback together with its parameters is one value of a
-- type `C`; an empty `std::function` is `none`. Time points and durations are nanoseconds in ℤ
-- (an `int64_t` in the program; sums outside its range are undefined there), and what
-- `high_resolution_clock::now()` gives is an argument.
use process_manager_module.Base.{
  ℕ, ◌≡◌, Bool, true, false, Option, none, some, Outcome, returns, hangs,
}
use process_manager_module.Base.Int.{ℤ, ◌+ℤ◌, ◌-ℤ◌, +ℤ-sub}

pub data ActionStatus : Type 0 where
  waiting running ended : ActionStatus

abbrev pub is_waiting : ActionStatus → Bool
is_waiting waiting = true
is_waiting _ = false

abbrev pub is_ended : ActionStatus → Bool
is_ended ended = true
is_ended _ = false

pub record Timer (C : Type 0) : Type 0 where
  pub active : Bool
  pub repeatable : Bool
  pub action_status : ActionStatus
  pub timer_id : ℕ
  pub start_timestamp : ℤ
  pub duration : ℤ
  pub callback_function : Option C

-- How a call of a callback ends: it returns, it leaves by an exception, or it never returns
-- because it waits for the lock that the caller holds.
pub data CallbackEnd (W : Type 0) : Type 0 where
  completed : W → CallbackEnd W
  threw : W → CallbackEnd W
  deadlocked : CallbackEnd W

module _ {C : Type 0} where
  -- The constructor leaves the duration unset: the second argument is what is found there.
  unfoldable pub new_timer : ℤ → ℤ → Option C → Timer C
  new_timer now unset_duration callback = record {
    active = true;
    repeatable = false;
    action_status = waiting;
    timer_id = 0;
    start_timestamp = now;
    duration = unset_duration;
    callback_function = callback;
  }

  unfoldable pub set_active : Bool → Timer C → Timer C
  set_active b t = record t { active = b }

  unfoldable pub set_repeatable : Bool → Timer C → Timer C
  set_repeatable b t = record t { repeatable = b }

  unfoldable pub set_timer_id : ℕ → Timer C → Timer C
  set_timer_id i t = record t { timer_id = i }

  unfoldable pub set_start_timestamp : ℤ → Timer C → Timer C
  set_start_timestamp s t = record t { start_timestamp = s }

  unfoldable pub set_duration : ℤ → Timer C → Timer C
  set_duration d t = record t { duration = d }

  unfoldable pub set_expiration_timestamp : ℤ → ℤ → Timer C → Timer C
  set_expiration_timestamp now expiration t = record t {
    start_timestamp = now;
    duration = expiration -ℤ now;
  }

  unfoldable pub get_expiration_timestamp : Timer C → ℤ
  get_expiration_timestamp t = t.start_timestamp +ℤ t.duration

  unfoldable pub set_action_status : ActionStatus → Timer C → Timer C
  set_action_status s t = record t { action_status = s }

  unfoldable pub restart : ℤ → Timer C → Timer C
  restart now t = record t { start_timestamp = now }

  unfoldable pub is_callback_function_set : Timer C → Bool
  is_callback_function_set t = elim t.callback_function [ none ↦ false | some c ↦ true ]

  -- `Timer<T>::runCallbackFunction` on a thread of its own, whose exceptions (that of an empty
  -- function among them) end in a future that nobody asks: `running` is set before the call, and
  -- `ended` only after a call that returned.
  unfoldable pub run_callback_function :
      {W : Type 0} → (C → W → CallbackEnd W) → Timer C → W → Outcome (Timer C × W)
  run_callback_function run t w =
      let t' = record t { action_status = running } in
      elim t.callback_function [
        | none ↦ returns (t', w)
        | some c ↦ elim (run c w) [
          | completed w' ↦ returns (record t' { action_status = ended }, w')
          | threw w' ↦ returns (t', w')
          | deadlocked ↦ hangs
        ]
      ]

  -- The expiration that was asked for is the one that is reported, at whatever time it is set.
  pub get_expiration_timestamp-set_expiration_timestamp :
      (now expiration : ℤ) (t : Timer C)
      → get_expiration_timestamp (set_expiration_timestamp now expiration t) ≡ expiration
  unfolding get_expiration_timestamp set_expiration_timestamp
  get_expiration_timestamp-set_expiration_timestamp now expiration t = +ℤ-sub expiration now
