-- ===== src/Examples/Rounds.antt =====
-- Three rounds of the timers thread over a cache in which a timer for the time 15 is registered.
use process_manager_module.Base.{
  ℕ, ◌+◌, ◌≡◌, refl, Bool, false, none, some, List, [], ◌∷◌, ◌++◌, returns, arith, if◌then◌else◌,
  ◌==◌,
}
use process_manager_module.Base.Int.{pos, ◌+ℤ◌}
use process_manager_module.Timer.{Timer, new_timer}
use process_manager_module.TimersCache.{TimersCache, register_timer}
use process_manager_module.TimersCache.Views.{find_timer-All}
use process_manager_module.TimersCache.Refinement.{registry}
use process_manager_module.TimersThread.Ready.{IsReady, IsArmed}
use process_manager_module.TimersThread.Counting.{hit, Counts}
use process_manager_module.TimersThread.Rounds.{Calls, serves-register_timer}
use process_manager_module.Examples.Timers.{
  two_timers, two_timers-IsValid, note, note-Completes, clock,
}

two_timers-IsReady : IsReady two_timers
two_timers-IsReady = record {
  valid = two_timers-IsValid;
  set = λ i t found.
      (find_timer-All (λ e. IsArmed e.1) i two_timers.timers t ((tt, refl), ((tt, refl), tt))
        found).1;
}

abbrev is_four : ℕ → Bool
is_four n = n == 4

fours : List ℕ → ℕ
fours [] = 0
fours (n ∷ ns) = if is_four n then fours ns + 1 else fours ns

fours-append :
    (n : ℕ) (ns : List ℕ) → fours (ns ++ n ∷ []) ≡ fours ns + (if is_four n then 1 else 0)
unfolding fours
fours-append n [] = ground arith
fours-append n (m ∷ ns) = ground (arith, fours-append n ns)

note-Counts : Counts note is_four fours
note-Counts n ns w' e = let same : ns ++ n ∷ [] ≡ w' = cc e in rw (← same) (fours-append n ns)

others_differ : (j : ℕ) (u : Timer ℕ) → registry two_timers j ≡ some u → hit note is_four u ≡ false
others_differ j u found =
    (find_timer-All (λ e. hit note is_four e.1 ≡ false) j two_timers.timers u (refl, (refl, tt))
      found).1

serves-register_timer_example :
    (c₁ : TimersCache ℕ) × (i : ℕ) × (register_timer
        (some (new_timer (pos 9) (pos 6) (some 4)))
        two_timers
      ≡ returns (c₁, i))
    × Calls note is_four note-Completes fours note-Counts
        ((pos 12, clock) ∷ (pos 30, clock) ∷ (pos 40, clock) ∷ [])
        c₁
        []
        i
        1
        none
unfolding new_timer ◌+ℤ◌
serves-register_timer_example =
    serves-register_timer note is_four note-Completes fours note-Counts
      (new_timer (pos 9) (pos 6) (some 4)) ((pos 12, clock) ∷ []) (pos 30) clock
      ((pos 40, clock) ∷ []) two_timers [] two_timers-IsReady (ground arith) (tt, refl) refl
      others_differ refl (refl, tt) refl
