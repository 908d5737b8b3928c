-- ===== src/TimersCache/Restart.antt =====
-- `restartRepeatableTimers`: what the two loops do to the timers.
use process_manager_module.Base.{
  ℕ, ◌≡◌, refl, ◌∙◌, Bool, true, false, [], ◌∷◌, Option, none, some, arith, if◌then◌else◌,
  Bool-cases, Option-cases, inl, inr, returns,
}
use process_manager_module.Base.Int.{ℤ}
use process_manager_module.Timer.{Timer}
use process_manager_module.TimersCache.{
  Timers, TimersCache, find_timer, erase_where, reinsert, restarting, to_restart,
  restart_repeatable_timers,
}
use process_manager_module.TimersCache.Views.{DistinctIds, find_timer-erase_where}
use process_manager_module.TimersCache.Invariant.{WellFormed, IsValid, erase_where-WellFormed}
use process_manager_module.TimersCache.Reinsertion.{
  restarted, listed, find_listed, find_listed-free, listed-restarting, Joins-restarting,
  reinsert-WellFormed, find_timer-reinsert_other, find_timer-reinsert,
}

module _ {C : Type 0} where
  find_listed-restarting :
      (n : ℕ) (m : Timers C) (t : Timer C)
      → DistinctIds m
      → find_timer n m ≡ some t
      → find_listed n (restarting m) ≡ (if to_restart t then some t else none)
  unfolding find_timer find_listed restarting
  find_listed-restarting n [] t d h = cc
  find_listed-restarting n ((k, s) ∷ m) t d h = ground (
    arith,
    find_listed-restarting n m t,
    listed-restarting n m,
    find_listed-free n (restarting m),
  )

  find_listed-restarting-none :
      (n : ℕ) (m : Timers C) → find_timer n m ≡ none → listed n (restarting m) ≡ false
  unfolding find_timer listed restarting
  find_listed-restarting-none n [] h = refl
  find_listed-restarting-none n ((k, s) ∷ m) h = ground (arith, find_listed-restarting-none n m)

  listed-restarting_stays :
      (n : ℕ) (m : Timers C) (t : Timer C)
      → DistinctIds m
      → find_timer n m ≡ some t
      → to_restart t ≡ false
      → listed n (restarting m) ≡ false
  unfolding find_timer listed restarting
  listed-restarting_stays n [] t d h e = cc
  listed-restarting_stays n ((k, s) ∷ m) t d h e =
      ground (arith, listed-restarting_stays n m t, listed-restarting n m)

  -- What becomes of the timer with some ID: one that has ended and is repeatable waits again, from
  -- a reading of the clock on; any other is left as it is.
  abbrev pub RestartedIf : Bool → (ℕ → ℤ) → Timer C → Option (Timer C) → Type 0
  RestartedIf true clock t after = (a : ℕ) × (after ≡ some (restarted (clock a) t))
  RestartedIf false clock t after = after ≡ some t

  abbrev pub Restarts : (ℕ → ℤ) → Option (Timer C) → Option (Timer C) → Type 0
  Restarts clock none after = after ≡ none
  Restarts clock (some t) after = RestartedIf (to_restart t) clock t after

  restart_loops : (ℕ → ℤ) → Timers C → Timers C
  restart_loops clock m = reinsert clock 0 (restarting m) (erase_where to_restart m)

  restart_loops-WellFormed :
      (clock : ℕ → ℤ) (m : Timers C) → WellFormed m → WellFormed (restart_loops clock m)
  unfolding restart_loops
  restart_loops-WellFormed clock m v =
      reinsert-WellFormed clock 0 (restarting m) (erase_where to_restart m)
        (Joins-restarting m v.distinct v.positive) (erase_where-WellFormed to_restart m v)

  find_timer-restart_loops :
      (clock : ℕ → ℤ) (n : ℕ) (m : Timers C)
      → WellFormed m
      → Restarts clock (find_timer n m) (find_timer n (restart_loops clock m))
  unfolding restart_loops
  find_timer-restart_loops clock n m v =
      let j = Joins-restarting m v.distinct v.positive in
      let left = find_timer-erase_where to_restart n m v.distinct in
      let other = find_timer-reinsert_other clock 0 n (restarting m) (erase_where to_restart m) j in
      elim (Option-cases (find_timer n m)) [
        | inl e ↦ rw e (other (find_listed-restarting-none n m e) ∙ left ∙ rw e)
        | inr (t, e) ↦ elim (Bool-cases (to_restart t)) [
          | inl go ↦
              rw (e, go)
                (find_timer-reinsert clock 0 n (restarting m) (erase_where to_restart m) t j
                  (find_listed-restarting n m t v.distinct e ∙ rw go))
          | inr stay ↦
              rw (e, stay)
                (other (listed-restarting_stays n m t v.distinct e stay) ∙ left ∙ rw (e, stay))
        ]
      ]

  -- On a valid cache the call returns, keeps the cache valid, and restarts exactly the repeatable
  -- timers that have ended: each waits again, from a reading of the clock on, with everything else
  -- of it kept, and every other timer is kept as it is.
  pub restart_repeatable_timers_lem :
      (clock : ℕ → ℤ) (c : TimersCache C)
      → IsValid c
      → (c' : TimersCache C) × (restart_repeatable_timers clock c ≡ returns c')
        × IsValid c'
        × ((n : ℕ) → Restarts clock (find_timer n c.timers) (find_timer n c'.timers))
  unfolding restart_repeatable_timers restart_loops
  restart_repeatable_timers_lem clock c v = (
    record c { timers = restart_loops clock c.timers },
    rw v.unlocked,
    record {
      unlocked = v.unlocked;
      well_formed = restart_loops-WellFormed clock c.timers v.well_formed;
    },
    λ n. find_timer-restart_loops clock n c.timers v.well_formed,
  )
