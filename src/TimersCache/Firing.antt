-- ===== src/TimersCache/Firing.antt =====
-- What `triggerExpiredTimers` makes of each timer, and that it keeps the cache well formed.
use process_manager_module.Base.{
  ℕ, ◌≡◌, refl, ◌⊎◌, ◌∙◌, ap, Bool, true, false, List, [], ◌∷◌, Option, none, some, if◌then◌else◌,
  ◌==◌, Bool-cases, inl, inr,
}
use process_manager_module.Base.Int.{ℤ}
use process_manager_module.Containers.Order.{int_order}
use process_manager_module.Containers.Multimap.{NoneBefore}
use process_manager_module.Timer.{
  Timer, ActionStatus, CallbackEnd, completed, threw, deadlocked, get_expiration_timestamp,
}
use process_manager_module.TimersCache.{Timers, find_timer, id_taken, is_due}
use process_manager_module.TimersCache.Invariant.{WellFormed}

abbrev pub IsSome : {C : Type 0} → Option C → Type 0
IsSome none = ⊥
IsSome (some c) = Unit

pub CallbackEnd-cases :
    {W : Type 0} (r : CallbackEnd W)
    → ((w' : W) × (r ≡ completed w')) ⊎ (((w' : W) × (r ≡ threw w')) ⊎ (r ≡ deadlocked))
CallbackEnd-cases (completed w') = inl (w', refl)
CallbackEnd-cases (threw w') = inr (inl (w', refl))
CallbackEnd-cases deadlocked = inr (inr refl)

module _ {C : Type 0} where
  -- The timers that wait and have expired before the time point, in the order of the map.
  unfoldable pub due_timers : ℤ → Timers C → List (Timer C)
  due_timers time_point [] = []
  due_timers time_point ((k, t) ∷ m) =
      if is_due time_point t then t ∷ due_timers time_point m else due_timers time_point m

  -- A timer before and after: its callback was called, which left it in a status with `Q` and
  -- nothing else of it changed; or it is as it was.
  abbrev pub FiredIf : (ActionStatus → Type 0) → Bool → Timer C → Timer C → Type 0
  FiredIf Q true t t' = (s : ActionStatus) × (t' ≡ record t { action_status = s }) × Q s
  FiredIf Q false t t' = t' ≡ t

  abbrev pub Fired : (ActionStatus → Type 0) → ℤ → Timers C → Timers C → Type 0
  Fired Q time_point [] [] = Unit
  Fired Q time_point ((k, t) ∷ m) ((k', t') ∷ m') =
      (k' ≡ k) × FiredIf Q (is_due time_point t) t t' × Fired Q time_point m m'
  Fired Q time_point _ _ = ⊥

  pub FiredIf-frame :
      (Q : ActionStatus → Type 0) (b : Bool) (t t' : Timer C)
      → FiredIf Q b t t'
      → (t'.timer_id ≡ t.timer_id) × (get_expiration_timestamp t' ≡ get_expiration_timestamp t)
  unfolding get_expiration_timestamp
  FiredIf-frame Q true t t' (s, e, h) = (rw e, rw e)
  FiredIf-frame Q false t t' h = (rw h, rw h)

  pub Fired-NoneBefore :
      (Q : ActionStatus → Type 0) (time_point k : ℤ) (m m' : Timers C)
      → Fired Q time_point m m'
      → NoneBefore k m
      → NoneBefore k m'
  Fired-NoneBefore Q p k [] [] f h = tt
  Fired-NoneBefore Q p k [] (e ∷ m') f h = absurd f
  Fired-NoneBefore Q p k (e ∷ m) [] f h = absurd f
  Fired-NoneBefore Q p k ((j, t) ∷ m) ((j', t') ∷ m') f h =
      (rw f.0 h.0, Fired-NoneBefore Q p k m m' f.2 h.1)

  pub id_taken-Fired :
      (Q : ActionStatus → Type 0) (time_point : ℤ) (i : ℕ) (m m' : Timers C)
      → Fired Q time_point m m'
      → id_taken i m' ≡ id_taken i m
  unfolding id_taken
  id_taken-Fired Q p i [] [] f = refl
  id_taken-Fired Q p i [] (e ∷ m') f = absurd f
  id_taken-Fired Q p i (e ∷ m) [] f = absurd f
  id_taken-Fired Q p i ((j, t) ∷ m) ((j', t') ∷ m') f =
      rw ((FiredIf-frame Q (is_due p t) t t' f.1).0, id_taken-Fired Q p i m m' f.2)

  pub Fired-WellFormed :
      (Q : ActionStatus → Type 0) (time_point : ℤ) (m m' : Timers C)
      → Fired Q time_point m m'
      → WellFormed m
      → WellFormed m'
  Fired-WellFormed Q p [] [] f v = v
  Fired-WellFormed Q p [] (e ∷ m') f v = absurd f
  Fired-WellFormed Q p (e ∷ m) [] f v = absurd f
  Fired-WellFormed Q p ((j, t) ∷ m) ((j', t') ∷ m') f v =
      let frame = FiredIf-frame Q (is_due p t) t t' f.1 in
      let tail = Fired-WellFormed Q p m m' f.2 (record {
        sorted = v.sorted.1;
        keyed = v.keyed.1;
        distinct = v.distinct.1;
        positive = v.positive.1;
      }) in
      record {
        sorted = (rw f.0 (Fired-NoneBefore Q p j m m' f.2 v.sorted.0), tail.sorted);
        keyed = (rw (f.0, frame.1) v.keyed.0, tail.keyed);
        distinct =
            (rw frame.0 (id_taken-Fired Q p t.timer_id m m' f.2 ∙ v.distinct.0), tail.distinct);
        positive = (rw frame.0 v.positive.0, tail.positive);
      }

  abbrev pub Fires : (ActionStatus → Type 0) → ℤ → Option (Timer C) → Option (Timer C) → Type 0
  Fires Q time_point none after = after ≡ none
  Fires Q time_point (some t) after =
      (t' : Timer C) × (after ≡ some t') × FiredIf Q (is_due time_point t) t t'

  pub find_timer-Fired :
      (Q : ActionStatus → Type 0) (time_point : ℤ) (i : ℕ) (m m' : Timers C)
      → Fired Q time_point m m'
      → Fires Q time_point (find_timer i m) (find_timer i m')
  unfolding find_timer
  find_timer-Fired Q p i [] [] f = refl
  find_timer-Fired Q p i [] (e ∷ m') f = absurd f
  find_timer-Fired Q p i (e ∷ m) [] f = absurd f
  find_timer-Fired Q p i ((j, t) ∷ m) ((j', t') ∷ m') f =
      let frame = FiredIf-frame Q (is_due p t) t t' f.1 in
      let same : (t'.timer_id == i) ≡ (t.timer_id == i) = ap (λ n. n == i) frame.0 in
      elim (Bool-cases (t.timer_id == i)) [
        | inl hit ↦ rw (hit, same ∙ hit) (t', refl, f.1)
        | inr miss ↦ rw (miss, same ∙ miss) (find_timer-Fired Q p i m m' f.2)
      ]
