-- ===== src/Examples/Twins.antt =====
-- Two timers that expire together, kept in either order, and the theorem on caches that differ in it.
use process_manager_module.Base.{ℕ, ◌≡◌, refl, true, false, [], ◌∷◌, returns, arith}
use process_manager_module.Base.Int.{pos, ◌+ℤ◌}
use process_manager_module.Containers.Order.{int_order}
use process_manager_module.Timer.{Timer, get_expiration_timestamp}
use process_manager_module.TimersCache.{TimersCache, id_taken, find_timer}
use process_manager_module.TimersCache.Invariant.{IsValid}
use process_manager_module.TimersCache.Equivalence.{Answer, restarts, call, Alike, call-Alike}
use process_manager_module.Examples.Timers.{once}

abbrev twin : Timer ℕ
twin = record once { timer_id = 2; repeatable = true }

abbrev twins : TimersCache ℕ
twins = record {
  timers_lock = false;
  timers_invoked_status = false;
  timers = (pos 5, once) ∷ (pos 5, twin) ∷ [];
}

abbrev swapped : TimersCache ℕ
swapped = record twins { timers = (pos 5, twin) ∷ (pos 5, once) ∷ [] }

twins-IsValid : IsValid twins
unfolding id_taken get_expiration_timestamp ◌+ℤ◌
twins-IsValid = record {
  unlocked = refl;
  well_formed = record {
    sorted = ((refl, tt), (tt, tt));
    keyed = (refl, (refl, tt));
    distinct = (refl, (refl, tt));
    positive = (ground arith, (ground arith, tt));
  };
}

swapped-IsValid : IsValid swapped
unfolding id_taken get_expiration_timestamp ◌+ℤ◌
swapped-IsValid = record {
  unlocked = refl;
  well_formed = record {
    sorted = ((refl, tt), (tt, tt));
    keyed = (refl, (refl, tt));
    distinct = (refl, (refl, tt));
    positive = (ground arith, (ground arith, tt));
  };
}

twins-Alike : Alike twins swapped
unfolding find_timer
twins-Alike = record { valid = twins-IsValid; valid' = swapped-IsValid; same = λ i. ground arith }

call-Alike_example :
    (d d' : TimersCache ℕ) × (a : Answer) × (call (restarts (pos 9) 2) twins ≡ returns (d, a))
    × (call (restarts (pos 9) 2) swapped ≡ returns (d', a))
    × Alike d d'
call-Alike_example =
    call-Alike (restarts (pos 9) 2) twins swapped (ground arith) (ground arith) twins-Alike
