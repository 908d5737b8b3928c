-- ===== src/TimersCache/Reinsertion.antt =====
-- The second loop of `restartRepeatableTimers`, which puts back the timers that the first took out.
use process_manager_module.Base.{
  ℕ, suc, ◌≤◌, ◌≡◌, refl, ◌∙◌, ap, Bool, true, false, List, [], ◌∷◌, Option, none, some, arith, All,
  if◌then◌else◌, ◌==◌, Bool-cases, inl, inr,
}
use process_manager_module.Base.Int.{ℤ}
use process_manager_module.Timer.{
  Timer, waiting, set_action_status, set_start_timestamp, get_expiration_timestamp,
}
use process_manager_module.TimersCache.{
  Timers, find_timer, id_taken, insert_timer, erase_where, reinsert, restarting, to_restart,
}
use process_manager_module.TimersCache.Views.{
  DistinctIds, id_taken-insert, id_taken-erase_where, find_timer-insert,
}
use process_manager_module.TimersCache.Invariant.{HasId, WellFormed, insert_timer-WellFormed}

module _ {C : Type 0} where
  -- A timer that starts again at the time `s`.
  abbrev pub restarted : ℤ → Timer C → Timer C
  restarted s t = record t { action_status = waiting; start_timestamp = s }

  unfoldable pub listed : ℕ → List (Timer C) → Bool
  listed i [] = false
  listed i (t ∷ ts) = if t.timer_id == i then true else listed i ts

  unfoldable pub find_listed : ℕ → List (Timer C) → Option (Timer C)
  find_listed i [] = none
  find_listed i (t ∷ ts) = if t.timer_id == i then some t else find_listed i ts

  -- The timers `ts` have positive IDs that are distinct and not among those of `m`.
  abbrev pub Joins : List (Timer C) → Timers C → Type 0
  Joins [] m = Unit
  Joins (t ∷ ts) m =
      (id_taken t.timer_id m ≡ false)
      × (1 ≤ t.timer_id)
      × (listed t.timer_id ts ≡ false)
      × Joins ts m

  pub find_listed-free :
      (i : ℕ) (ts : List (Timer C)) → listed i ts ≡ false → find_listed i ts ≡ none
  unfolding listed find_listed
  find_listed-free i [] h = refl
  find_listed-free i (t ∷ ts) h = ground (arith, find_listed-free i ts)

  pub Joins-cons :
      (k : ℤ) (s : Timer C) (ts : List (Timer C)) (m : Timers C)
      → listed s.timer_id ts ≡ false
      → Joins ts m
      → Joins ts ((k, s) ∷ m)
  unfolding listed id_taken
  Joins-cons k s [] m h j = tt
  Joins-cons k s (t ∷ ts) m h j = ground (arith, Joins-cons k s ts m)

  pub Joins-insert :
      (s : Timer C) (ts : List (Timer C)) (m : Timers C)
      → listed s.timer_id ts ≡ false
      → Joins ts m
      → Joins ts (insert_timer s m)
  unfolding listed insert_timer
  Joins-insert s [] m h j = tt
  Joins-insert s (t ∷ ts) m h j =
      ground
        (arith, Joins-insert s ts m, id_taken-insert t.timer_id (get_expiration_timestamp s) s m)

  pub listed-restarting :
      (i : ℕ) (m : Timers C) → id_taken i m ≡ false → listed i (restarting m) ≡ false
  unfolding listed id_taken restarting
  listed-restarting i [] h = refl
  listed-restarting i ((k, t) ∷ m) h = ground (arith, listed-restarting i m)

  pub Joins-restarting :
      (m : Timers C) → DistinctIds m → All HasId m → Joins (restarting m) (erase_where to_restart m)
  unfolding restarting erase_where
  Joins-restarting [] d p = tt
  Joins-restarting ((k, t) ∷ m) d p = elim (Bool-cases (to_restart t)) [
    | inl go ↦ rw go (
      id_taken-erase_where to_restart t.timer_id m d.0,
      p.0,
      listed-restarting t.timer_id m d.0,
      Joins-restarting m d.1 p.1,
    )
    | inr stay ↦ rw stay (
        Joins-cons k t (restarting m) (erase_where to_restart m)
          (listed-restarting t.timer_id m d.0) (Joins-restarting m d.1 p.1))
  ]

  pub find_timer-insert_ne :
      (n : ℕ) (t : Timer C) (m : Timers C)
      → id_taken t.timer_id m ≡ false
      → (t.timer_id == n) ≡ false
      → find_timer n (insert_timer t m) ≡ find_timer n m
  unfolding insert_timer
  find_timer-insert_ne n t m free h = find_timer-insert n _ t m free ∙ rw h

  pub find_timer-insert_eq :
      (n : ℕ) (t : Timer C) (m : Timers C)
      → id_taken t.timer_id m ≡ false
      → t.timer_id ≡ n
      → find_timer n (insert_timer t m) ≡ some t
  unfolding insert_timer
  find_timer-insert_eq n t m free h = find_timer-insert n _ t m free ∙ ground arith

  abbrev pub restarted_at : ℤ → Timer C → Timer C
  restarted_at s t = set_start_timestamp s (set_action_status waiting t)

  pub restarted_at_lem : (s : ℤ) (t : Timer C) → restarted_at s t ≡ restarted s t
  unfolding set_start_timestamp set_action_status
  restarted_at_lem s t = refl

  module _ (clock : ℕ → ℤ) where
    pub reinsert-WellFormed :
        (i : ℕ) (ts : List (Timer C)) (m : Timers C)
        → Joins ts m
        → WellFormed m
        → WellFormed (reinsert clock i ts m)
    unfolding reinsert set_start_timestamp set_action_status
    reinsert-WellFormed i [] m j v = v
    reinsert-WellFormed i (t ∷ ts) m (free, p, apart, j) v =
        reinsert-WellFormed (suc i) ts (insert_timer (restarted_at (clock i) t) m)
          (Joins-insert (restarted_at (clock i) t) ts m apart j)
          (insert_timer-WellFormed (restarted_at (clock i) t) m free p v)

    pub find_timer-reinsert_other :
        (i n : ℕ) (ts : List (Timer C)) (m : Timers C)
        → Joins ts m
        → listed n ts ≡ false
        → find_timer n (reinsert clock i ts m) ≡ find_timer n m
    unfolding reinsert set_start_timestamp set_action_status listed
    find_timer-reinsert_other i n [] m j h = refl
    find_timer-reinsert_other i n (t ∷ ts) m (free, p, apart, j) h =
        let t' = restarted_at (clock i) t in
        let rest =
          find_timer-reinsert_other (suc i) n ts (insert_timer t' m) (Joins-insert t' ts m apart j)
            (ground arith) in
        rest ∙ find_timer-insert_ne n t' m free (ground arith)

    pub find_timer-reinsert :
        (i n : ℕ) (ts : List (Timer C)) (m : Timers C) (t : Timer C)
        → Joins ts m
        → find_listed n ts ≡ some t
        → (a : ℕ) × (find_timer n (reinsert clock i ts m) ≡ some (restarted (clock a) t))
    unfolding reinsert find_listed set_start_timestamp set_action_status
    find_timer-reinsert i n [] m t j h = cc
    find_timer-reinsert i n (s ∷ ts) m t (free, p, apart, j) h =
        let s' = restarted_at (clock i) s in
        let j' = Joins-insert s' ts m apart j in
        elim (Bool-cases (s.timer_id == n)) [
          | inl hit ↦
              let e : s.timer_id ≡ n = ground arith in
              let same : s ≡ t = ground arith in
              let unlisted : listed n ts ≡ false = rw (← e) apart in
              (
                i,
                find_timer-reinsert_other (suc i) n ts (insert_timer s' m) j' unlisted
                    ∙ find_timer-insert_eq n s' m free e
                    ∙ ap (λ r. some (restarted (clock i) r)) same,
              )
          | inr miss ↦ find_timer-reinsert (suc i) n ts (insert_timer s' m) t j' (ground arith)
        ]
