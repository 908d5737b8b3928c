-- ===== src/TimersCache.antt =====
-- Source/include/TimersCache.hpp and Source/src/TimersCache.cpp: the timers, in a multimap by their
-- time of expiration, behind `timersLock`. A call that finds the lock held waits; it `hangs` if the
-- holder waits for the call in turn. `condition_variable`s need no state of their own: a waiting
-- call looks at `timers_invoked_status` before it sleeps, and returns `none` while it sleeps on.
pub mod Views
pub mod Identifiers
pub mod Invariant
pub mod Reinsertion
pub mod Restart
pub mod Firing
pub mod Expiry
pub mod Effects
pub mod Refinement
pub mod Equivalence
use process_manager_module.Base.{
  ℕ, zero, suc, ◌+◌, ◌%◌, ◌^◌, ◌≡◌, Bool, true, false, not, ◌&&◌, ◌||◌, List, [], ◌∷◌, Option, none,
  some, Outcome, returns, throws, hangs, ◌>>=◌, arith, length, if◌then◌else◌, ◌==◌,
}
use process_manager_module.Base.Int.{ℤ, ltb_ℤ}
use process_manager_module.Containers.Order.{Order, int_order}
use process_manager_module.Containers.Multimap.{insert}
use process_manager_module.Timer.{
  Timer, CallbackEnd, waiting, is_waiting, is_ended, set_timer_id, set_start_timestamp,
  get_expiration_timestamp, set_action_status, restart, run_callback_function,
}

abbrev pub Timers : Type 0 → Type 0
Timers C = List (ℤ × Timer C)

pub record TimersCache (C : Type 0) : Type 0 where
  pub timers_lock : Bool
  pub timers_invoked_status : Bool
  pub timers : Timers C

abbrev pub smallest_timer_id : ℕ
smallest_timer_id = 1

module _ {C : Type 0} where
  unfoldable pub new_cache : TimersCache C
  new_cache = record { timers_lock = false; timers_invoked_status = false; timers = [] }

  -- `std::unique_lock lock{timersLock};` in front of a body.
  abbrev pub with_lock : {R : Type 0} → TimersCache C → Outcome R → Outcome R
  with_lock c body = if c.timers_lock then hangs else body

  -- `std::find_if` by the timer's ID.
  unfoldable pub find_timer : ℕ → Timers C → Option (Timer C)
  find_timer i [] = none
  find_timer i ((k, t) ∷ m) = if t.timer_id == i then some t else find_timer i m

  -- The inner loop of `generateTimerID`: is the ID in use?
  unfoldable pub id_taken : ℕ → Timers C → Bool
  id_taken i [] = false
  id_taken i ((k, t) ∷ m) = if t.timer_id == i then true else id_taken i m

  -- Its outer loop, on fuel; `timerID` is a `uint32_t`.
  pub search_id : ℕ → ℕ → Timers C → Outcome ℕ
  search_id zero i m = hangs
  search_id (suc fuel) i m =
      let rest = search_id fuel ((i + 1) % 2 ^ 32) m in if id_taken i m then rest else returns i

  pub generate_timer_id : Timers C → Outcome ℕ
  generate_timer_id m = search_id (suc (length m)) smallest_timer_id m

  -- `timers.insert(std::make_pair(t->getExpirationTimestamp(), std::move(t)))`
  pub insert_timer : Timer C → Timers C → Timers C
  insert_timer t m = insert (get_expiration_timestamp t) t m

  -- A null pointer is `none`.
  unfoldable pub internal_register_timer :
      Option (Timer C) → TimersCache C → Outcome (TimersCache C × ℕ)
  internal_register_timer none c = with_lock c do i ← generate_timer_id c.timers; returns (c, 0)
  internal_register_timer (some t) c = with_lock c do
    i ← generate_timer_id c.timers
    returns (
      record c { timers = insert_timer (set_timer_id i t) c.timers; timers_invoked_status = true },
      i,
    )

  unfoldable pub register_timer : Option (Timer C) → TimersCache C → Outcome (TimersCache C × ℕ)
  unfolding internal_register_timer
  register_timer t c = internal_register_timer t c

  -- For a caller that holds the lock.
  pub register_timer_no_lock : Option (Timer C) → TimersCache C → Outcome (TimersCache C × ℕ)
  register_timer_no_lock none c = do i ← generate_timer_id c.timers; returns (c, 0)
  register_timer_no_lock (some t) c = do
    i ← generate_timer_id c.timers
    returns (record c { timers = insert_timer (set_timer_id i t) c.timers }, i)

  -- `timers.erase(it)` of the entry that `find_if` found.
  unfoldable pub erase_timer : ℕ → Timers C → Timers C
  erase_timer i [] = []
  erase_timer i ((k, t) ∷ m) = if t.timer_id == i then m else (k, t) ∷ erase_timer i m

  unfoldable pub internal_remove_timer : ℕ → TimersCache C → Outcome (TimersCache C × Bool)
  internal_remove_timer i c = with_lock c (elim (find_timer i c.timers) [
    | none ↦ returns (c, false)
    | some t ↦
        returns (record c { timers = erase_timer i c.timers; timers_invoked_status = true }, true)
  ])

  unfoldable pub remove_timer : ℕ → TimersCache C → Outcome (TimersCache C)
  unfolding internal_remove_timer
  remove_timer i c = do (c', removed) ← internal_remove_timer i c; returns c'

  unfoldable pub size : TimersCache C → Outcome ℕ
  size c = with_lock c (returns (length c.timers))

  pub expired_entries : ℤ → Timers C → Timers C
  expired_entries now [] = []
  expired_entries now ((k, t) ∷ m) =
      if ltb_ℤ k now then (k, t) ∷ expired_entries now m else expired_entries now m

  pub get_expired_timers : ℤ → TimersCache C → Outcome (Timers C)
  get_expired_timers now c = with_lock c (returns (expired_entries now c.timers))

  unfoldable pub is_due : ℤ → Timer C → Bool
  is_due time_point t =
      if is_waiting t.action_status then ltb_ℤ (get_expiration_timestamp t) time_point else false

  module _ {W : Type 0} (run : C → W → CallbackEnd W) where
    -- One round of the `for_each` of `triggerExpiredTimers`. The future of `std::async` is
    -- destroyed at the end of the round, which waits for the callback.
    unfoldable pub trigger_timer : ℤ → Timer C → W → Outcome (Timer C × W)
    unfolding is_due
    trigger_timer time_point t w =
        if is_due time_point t then run_callback_function run t w else returns (t, w)

    unfoldable pub trigger_timers : ℤ → Timers C → W → Outcome (Timers C × W)
    trigger_timers time_point [] w = returns ([], w)
    trigger_timers time_point ((k, t) ∷ m) w = do
      (t', w') ← trigger_timer time_point t w
      (m', w'') ← trigger_timers time_point m w'
      returns ((k, t') ∷ m', w'')

    -- The callbacks run while the lock is held, so they change the world but not the cache.
    unfoldable pub trigger_expired_timers : ℤ → TimersCache C → W → Outcome (TimersCache C × W)
    unfolding trigger_timers trigger_timer
    trigger_expired_timers time_point c w =
        with_lock c
          do (m, w') ← trigger_timers time_point c.timers w; returns (record c { timers = m }, w')

  unfoldable pub to_restart : Timer C → Bool
  to_restart t = if is_ended t.action_status then t.repeatable else false

  -- The loops that walk the map and erase the timers that meet a test.
  pub erase_where : (Timer C → Bool) → Timers C → Timers C
  erase_where p [] = []
  erase_where p ((k, t) ∷ m) = if p t then erase_where p m else (k, t) ∷ erase_where p m

  -- What the first loop of `restartRepeatableTimers` moves to `toRestart`.
  pub restarting : Timers C → List (Timer C)
  restarting [] = []
  restarting ((k, t) ∷ m) = if to_restart t then t ∷ restarting m else restarting m

  -- Its second loop. `clock i` is what the i-th call of `now()` gives.
  pub reinsert : (ℕ → ℤ) → ℕ → List (Timer C) → Timers C → Timers C
  reinsert clock i [] m = m
  reinsert clock i (t ∷ ts) m =
      reinsert clock (suc i) ts
        (insert_timer (set_start_timestamp (clock i) (set_action_status waiting t)) m)

  pub restart_repeatable_timers : (ℕ → ℤ) → TimersCache C → Outcome (TimersCache C)
  unfolding restarting reinsert
  restart_repeatable_timers clock c = with_lock c (
      returns (record c {
        timers = reinsert clock 0 (restarting c.timers) (erase_where to_restart c.timers);
      }))

  unfoldable pub to_remove : Timer C → Bool
  to_remove t = if t.repeatable then false else is_ended t.action_status

  pub remove_ended_timers : TimersCache C → Outcome (TimersCache C)
  remove_ended_timers c =
      with_lock c (returns (record c { timers = erase_where to_remove c.timers }))

  abbrev pub first_key : Timers C → Option ℤ
  first_key [] = none
  first_key ((k, t) ∷ m) = some k

  unfoldable pub next_expiration_timestamp : TimersCache C → Outcome (Option ℤ)
  next_expiration_timestamp c = with_lock c (returns (first_key c.timers))

  -- A look of a sleeping thread at the time `now`: `none` if it sleeps on.
  unfoldable pub wait_for_next_expiration : ℤ → ℤ → TimersCache C → Option (TimersCache C)
  wait_for_next_expiration wait_for now c =
      if not c.timers_lock && (c.timers_invoked_status || not (ltb_ℤ now wait_for))
      then some (record c { timers_invoked_status = false })
      else none

  unfoldable pub wait_for_invoke : TimersCache C → Option (TimersCache C)
  wait_for_invoke c =
      if not c.timers_lock && c.timers_invoked_status
      then some (record c { timers_invoked_status = false })
      else none

  pub restart_timer : ℤ → ℕ → TimersCache C → Outcome (TimersCache C × Bool)
  restart_timer now i c = with_lock c (elim (find_timer i c.timers) [
    | none ↦ returns (c, false)
    | some t ↦
        returns (record c { timers = insert_timer (restart now t) (erase_timer i c.timers) }, true)
  ])
