-- ===== src/TimersCache/Invariant.antt =====
-- The invariant of the cache, and the operations that keep it.
use process_manager_module.Base.{ℕ, ◌≤◌, ◌≡◌, refl, Bool, false, All}
use process_manager_module.Base.Int.{ℤ}
use process_manager_module.Containers.Order.{int_order}
use process_manager_module.Containers.Multimap.{IsSorted, insert-IsSorted, insert-All}
use process_manager_module.Timer.{Timer, get_expiration_timestamp}
use process_manager_module.TimersCache.{
  Timers, TimersCache, id_taken, insert_timer, erase_timer, erase_where, new_cache,
}
use process_manager_module.TimersCache.Views.{
  DistinctIds, insert-DistinctIds, erase_timer-All, erase_timer-IsSorted, erase_timer-DistinctIds,
  erase_where-All, erase_where-IsSorted, erase_where-DistinctIds,
}

module _ {C : Type 0} where
  abbrev pub KeyIsExpiration : ℤ × Timer C → Type 0
  KeyIsExpiration (k, t) = k ≡ get_expiration_timestamp t

  abbrev pub HasId : ℤ × Timer C → Type 0
  HasId (k, t) = 1 ≤ t.timer_id

  pub record WellFormed (m : Timers C) : Type 0 where
    pub sorted : IsSorted m
    pub keyed : All KeyIsExpiration m
    pub distinct : DistinctIds m
    pub positive : All HasId m

  -- Between two calls nobody holds the lock, the timers stand in the order of their expiration,
  -- each under its own, and have IDs that are positive and distinct.
  pub record IsValid (c : TimersCache C) : Type 0 where
    pub unlocked : c.timers_lock ≡ false
    pub well_formed : WellFormed c.timers

  pub new_cache-IsValid : IsValid new_cache
  unfolding new_cache
  new_cache-IsValid = record {
    unlocked = refl;
    well_formed = record { sorted = tt; keyed = tt; distinct = tt; positive = tt };
  }

  pub insert_timer-WellFormed :
      (t : Timer C) (m : Timers C)
      → id_taken t.timer_id m ≡ false
      → 1 ≤ t.timer_id
      → WellFormed m
      → WellFormed (insert_timer t m)
  unfolding insert_timer
  insert_timer-WellFormed t m free p v = record {
    sorted = insert-IsSorted _ t m v.sorted;
    keyed = insert-All KeyIsExpiration _ t m refl v.keyed;
    distinct = insert-DistinctIds _ t m free v.distinct;
    positive = insert-All HasId _ t m p v.positive;
  }

  pub erase_timer-WellFormed : (i : ℕ) (m : Timers C) → WellFormed m → WellFormed (erase_timer i m)
  erase_timer-WellFormed i m v = record {
    sorted = erase_timer-IsSorted i m v.sorted;
    keyed = erase_timer-All KeyIsExpiration i m v.keyed;
    distinct = erase_timer-DistinctIds i m v.distinct;
    positive = erase_timer-All HasId i m v.positive;
  }

  pub erase_where-WellFormed :
      (p : Timer C → Bool) (m : Timers C) → WellFormed m → WellFormed (erase_where p m)
  erase_where-WellFormed p m v = record {
    sorted = erase_where-IsSorted p m v.sorted;
    keyed = erase_where-All p KeyIsExpiration m v.keyed;
    distinct = erase_where-DistinctIds p m v.distinct;
    positive = erase_where-All p HasId m v.positive;
  }
