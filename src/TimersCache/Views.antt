-- ===== src/TimersCache/Views.antt =====
-- The timers of the cache as a finite map from their IDs: `insert`, `erase` and the erasing loops
-- seen through `find_timer`, and what they keep.
use process_manager_module.Base.{
  ℕ, ◌≡◌, refl, Bool, true, false, [], ◌∷◌, Option, none, some, arith, All, if◌then◌else◌, ◌==◌,
  Bool-cases, inl, inr,
}
use process_manager_module.Base.Int.{ℤ}
use process_manager_module.Containers.Order.{int_order}
use process_manager_module.Containers.Multimap.{insert, IsSorted}
use process_manager_module.Timer.{Timer}
use process_manager_module.TimersCache.{Timers, find_timer, id_taken, erase_timer, erase_where}

module _ {C : Type 0} where
  abbrev pub DistinctIds : Timers C → Type 0
  DistinctIds [] = Unit
  DistinctIds ((k, t) ∷ m) = (id_taken t.timer_id m ≡ false) × DistinctIds m

  pub find_timer-free : (i : ℕ) (m : Timers C) → id_taken i m ≡ false → find_timer i m ≡ none
  unfolding find_timer id_taken
  find_timer-free i [] h = refl
  find_timer-free i ((k, t) ∷ m) h = ground (arith, find_timer-free i m)

  pub find_timer-id :
      (i : ℕ) (m : Timers C) (t : Timer C) → find_timer i m ≡ some t → t.timer_id ≡ i
  unfolding find_timer
  find_timer-id i [] t h = cc
  find_timer-id i ((k, s) ∷ m) t h = ground (arith, find_timer-id i m t)

  pub find_timer-All :
      (P : ℤ × Timer C → Type 0) (i : ℕ) (m : Timers C) (t : Timer C)
      → All P m
      → find_timer i m ≡ some t
      → (k : ℤ) × P (k, t)
  unfolding find_timer
  find_timer-All P i [] t a h = cc
  find_timer-All P i ((k, s) ∷ m) t a h = elim (Bool-cases (s.timer_id == i)) [
    | inl hit ↦ let e : s ≡ t = ground arith in (k, rw (← e) a.0)
    | inr miss ↦ find_timer-All P i m t a.1 (ground arith)
  ]

  pub id_taken-insert :
      (i : ℕ) (k : ℤ) (t : Timer C) (m : Timers C)
      → id_taken i (insert k t m) ≡ (if t.timer_id == i then true else id_taken i m)
  unfolding id_taken insert
  id_taken-insert i k t [] = refl
  id_taken-insert i k t ((j, s) ∷ m) = ground (arith, id_taken-insert i k t m)

  pub find_timer-insert :
      (i : ℕ) (k : ℤ) (t : Timer C) (m : Timers C)
      → id_taken t.timer_id m ≡ false
      → find_timer i (insert k t m) ≡ (if t.timer_id == i then some t else find_timer i m)
  unfolding id_taken find_timer insert
  find_timer-insert i k t [] h = refl
  find_timer-insert i k t ((j, s) ∷ m) h = ground (arith, find_timer-insert i k t m)

  pub insert-DistinctIds :
      (k : ℤ) (t : Timer C) (m : Timers C)
      → id_taken t.timer_id m ≡ false
      → DistinctIds m
      → DistinctIds (insert k t m)
  unfolding id_taken insert
  insert-DistinctIds k t [] h d = (refl, tt)
  insert-DistinctIds k t ((j, s) ∷ m) h d =
      ground (arith, insert-DistinctIds k t m, id_taken-insert s.timer_id k t m)

  pub erase_timer-All :
      (P : ℤ × Timer C → Type 0) (i : ℕ) (m : Timers C) → All P m → All P (erase_timer i m)
  unfolding erase_timer
  erase_timer-All P i [] a = tt
  erase_timer-All P i ((k, t) ∷ m) a = elim (Bool-cases (t.timer_id == i)) [
    | inl hit ↦ rw hit a.1
    | inr miss ↦ rw miss (a.0, erase_timer-All P i m a.1)
  ]

  pub erase_timer-IsSorted : (i : ℕ) (m : Timers C) → IsSorted m → IsSorted (erase_timer i m)
  unfolding erase_timer
  erase_timer-IsSorted i [] a = tt
  erase_timer-IsSorted i ((k, t) ∷ m) a = elim (Bool-cases (t.timer_id == i)) [
    | inl hit ↦ rw hit a.1
    | inr miss ↦ rw miss (erase_timer-All _ i m a.0, erase_timer-IsSorted i m a.1)
  ]

  pub id_taken-erase_timer :
      (i j : ℕ) (m : Timers C)
      → DistinctIds m
      → id_taken j (erase_timer i m) ≡ (if i == j then false else id_taken j m)
  unfolding id_taken erase_timer
  id_taken-erase_timer i j [] d = ground arith
  id_taken-erase_timer i j ((k, t) ∷ m) d = ground (arith, id_taken-erase_timer i j m)

  pub find_timer-erase_timer :
      (i j : ℕ) (m : Timers C)
      → DistinctIds m
      → find_timer j (erase_timer i m) ≡ (if i == j then none else find_timer j m)
  unfolding id_taken erase_timer find_timer
  find_timer-erase_timer i j [] d = ground arith
  find_timer-erase_timer i j ((k, t) ∷ m) d =
      ground (arith, find_timer-erase_timer i j m, find_timer-free j m)

  pub erase_timer-DistinctIds :
      (i : ℕ) (m : Timers C) → DistinctIds m → DistinctIds (erase_timer i m)
  unfolding id_taken erase_timer
  erase_timer-DistinctIds i [] d = tt
  erase_timer-DistinctIds i ((k, t) ∷ m) d =
      ground (arith, erase_timer-DistinctIds i m, id_taken-erase_timer i t.timer_id m)

module _ {C : Type 0} (p : Timer C → Bool) where
  pub erase_where-All :
      (P : ℤ × Timer C → Type 0) (m : Timers C) → All P m → All P (erase_where p m)
  unfolding erase_where
  erase_where-All P [] a = tt
  erase_where-All P ((k, t) ∷ m) a = elim (Bool-cases (p t)) [
    | inl hit ↦ rw hit (erase_where-All P m a.1)
    | inr miss ↦ rw miss (a.0, erase_where-All P m a.1)
  ]

  pub erase_where-IsSorted : (m : Timers C) → IsSorted m → IsSorted (erase_where p m)
  unfolding erase_where
  erase_where-IsSorted [] a = tt
  erase_where-IsSorted ((k, t) ∷ m) a = elim (Bool-cases (p t)) [
    | inl hit ↦ rw hit (erase_where-IsSorted m a.1)
    | inr miss ↦ rw miss (erase_where-All _ m a.0, erase_where-IsSorted m a.1)
  ]

  pub id_taken-erase_where :
      (i : ℕ) (m : Timers C) → id_taken i m ≡ false → id_taken i (erase_where p m) ≡ false
  unfolding id_taken erase_where
  id_taken-erase_where i [] h = refl
  id_taken-erase_where i ((k, t) ∷ m) h = ground (arith, id_taken-erase_where i m)

  pub erase_where-DistinctIds : (m : Timers C) → DistinctIds m → DistinctIds (erase_where p m)
  unfolding erase_where
  erase_where-DistinctIds [] d = tt
  erase_where-DistinctIds ((k, t) ∷ m) d =
      ground (arith, erase_where-DistinctIds m, id_taken-erase_where t.timer_id m)

  abbrev pub unless : Option (Timer C) → Option (Timer C)
  unless none = none
  unless (some t) = if p t then none else some t

  pub find_timer-erase_where :
      (i : ℕ) (m : Timers C)
      → DistinctIds m
      → find_timer i (erase_where p m) ≡ unless (find_timer i m)
  unfolding erase_where find_timer
  find_timer-erase_where i [] d = refl
  find_timer-erase_where i ((k, t) ∷ m) d =
      ground (arith, find_timer-erase_where i m, find_timer-free i m)
