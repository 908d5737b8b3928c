-- ===== src/TimersThread.antt =====
-- Source/src/TimersThreadMain.cpp: the thread that serves the timers.
pub mod Round
pub mod Ready
pub mod Counting
pub mod Rounds
use process_manager_module.Base.{ℕ, Option, none, some, Outcome, returns, throws, hangs, ◌>>=◌}
use process_manager_module.Base.Int.{ℤ}
use process_manager_module.Timer.{CallbackEnd}
use process_manager_module.TimersCache.{
  TimersCache, next_expiration_timestamp, wait_for_next_expiration, wait_for_invoke,
  trigger_expired_timers, restart_repeatable_timers, remove_ended_timers,
}

module _ {C W : Type 0} (run : C → W → CallbackEnd W) where
  -- The wait at the head of the loop, as a look at the time `now`: for the expiration that was
  -- reported, or for a call that tells of a change.
  unfoldable pub wait : Option ℤ → ℤ → TimersCache C → Option (TimersCache C)
  wait none now c = wait_for_invoke c
  wait (some next_expiration) now c = wait_for_next_expiration next_expiration now c

  -- The rest of the loop's body. `now` is the reading that the expired timers are compared with, and
  -- `clock` gives those of the restarts.
  unfoldable pub serve : ℤ → (ℕ → ℤ) → TimersCache C → W → Outcome (TimersCache C × W)
  serve now clock c w = do
    (c₁, w₁) ← trigger_expired_timers run now c w
    c₂ ← restart_repeatable_timers clock c₁
    c₃ ← remove_ended_timers c₂
    returns (c₃, w₁)

  -- One round of `TimersThreadMain`; `none` while the thread sleeps.
  unfoldable pub timers_thread_round :
      ℤ → ℤ → (ℕ → ℤ) → TimersCache C → W → Outcome (Option (TimersCache C × W))
  unfolding wait serve
  timers_thread_round woken now clock c w = do
    next_expiration ← next_expiration_timestamp c
    elim (wait next_expiration woken c) [
      | none ↦ returns none
      | some c' ↦ do r ← serve now clock c' w; returns (some r)
    ]
