-- ===== src/Examples/Timers.antt =====
-- A cache with two timers, and the theorems on timers at it.
use process_manager_module.Base.{
  ℕ, ◌+◌, ◌≡◌, refl, true, false, List, [], ◌∷◌, ◌++◌, some, returns, arith, length,
}
use process_manager_module.Base.Int.{ℤ, pos, ◌+ℤ◌}
use process_manager_module.Containers.Order.{int_order}
use process_manager_module.Timer.{
  Timer, waiting, CallbackEnd, completed, new_timer, set_timer_id, get_expiration_timestamp,
}
use process_manager_module.TimersCache.{TimersCache, id_taken, register_timer}
use process_manager_module.TimersCache.Identifiers.{FirstFree}
use process_manager_module.TimersCache.Invariant.{IsValid}
use process_manager_module.TimersCache.Firing.{due_timers}
use process_manager_module.TimersCache.Expiry.{NoDeadlock, Completes, run_callbacks}
use process_manager_module.TimersCache.Refinement.{registry, put, register_timer_lem}
use process_manager_module.TimersThread.{serve}
use process_manager_module.TimersThread.Round.{Served, serve_lem}

abbrev pub once : Timer ℕ
once = record {
  active = true;
  repeatable = false;
  action_status = waiting;
  timer_id = 1;
  start_timestamp = pos 0;
  duration = pos 5;
  callback_function = some 7;
}

abbrev pub repeated : Timer ℕ
repeated = record {
  active = true;
  repeatable = true;
  action_status = waiting;
  timer_id = 3;
  start_timestamp = pos 0;
  duration = pos 20;
  callback_function = some 8;
}

abbrev pub two_timers : TimersCache ℕ
two_timers = record {
  timers_lock = false;
  timers_invoked_status = false;
  timers = (pos 5, once) ∷ (pos 20, repeated) ∷ [];
}

pub two_timers-IsValid : IsValid two_timers
unfolding id_taken get_expiration_timestamp ◌+ℤ◌
two_timers-IsValid = record {
  unlocked = refl;
  well_formed = record {
    sorted = ((refl, tt), (tt, tt));
    keyed = (refl, (refl, tt));
    distinct = (refl, (refl, tt));
    positive = (ground arith, (ground arith, tt));
  };
}

-- The world is the list of the callbacks that ran.
abbrev pub note : ℕ → List ℕ → CallbackEnd (List ℕ)
note c w = completed (w ++ c ∷ [])

note-NoDeadlock : NoDeadlock note
note-NoDeadlock c w h = cc

pub note-Completes : Completes note
note-Completes c w = (w ++ c ∷ [], refl)

abbrev pub clock : ℕ → ℤ
clock i = pos (100 + i)

register_timer_lem_example :
    (c' : TimersCache ℕ) × (i : ℕ) × (register_timer
        (some (new_timer (pos 9) (pos 6) (some 4)))
        two_timers
      ≡ returns (c', i))
    × IsValid c'
    × FirstFree 1 two_timers.timers i
    × ((j : ℕ)
        → registry c' j
          ≡ put i (set_timer_id i (new_timer (pos 9) (pos 6) (some 4))) (registry two_timers) j)
    × (c'.timers_invoked_status ≡ true)
    × (length c'.timers ≡ 3)
register_timer_lem_example =
    register_timer_lem two_timers two_timers-IsValid (new_timer (pos 9) (pos 6) (some 4))
      (ground arith)

serve_lem_example :
    (c' : TimersCache ℕ) × (serve note (pos 30) clock two_timers []
      ≡ returns (c', run_callbacks note (due_timers (pos 30) two_timers.timers) []))
    × IsValid c'
    × ((i : ℕ) → Served (pos 30) clock (registry two_timers i) (registry c' i))
serve_lem_example =
    serve_lem note note-Completes (pos 30) clock two_timers [] two_timers-IsValid (tt, (tt, tt))
      (refl, (refl, tt))
