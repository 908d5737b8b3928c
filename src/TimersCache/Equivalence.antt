-- ===== src/TimersCache/Equivalence.antt =====
-- The calls of the cache see nothing but the timers by their IDs: two caches that hold the same
-- timers, in whatever order, cannot be told apart.
use process_manager_module.Base.{
  ℕ, ◌+◌, ◌^◌, ◌≤◌, ◌≡◌, sym, ◌∙◌, refl, ap, Bool, [], ◌∷◌, Option, none, some, Outcome, returns,
  ◌>>=◌, arith, length, Bool-cases, inl, inr, ltb,
}
use process_manager_module.Base.Int.{ℤ, ltb_ℤ_antisymm}
use process_manager_module.Timer.{Timer}
use process_manager_module.TimersCache.{
  Timers, TimersCache, find_timer, id_taken, register_timer, remove_timer, restart_timer,
  remove_ended_timers, next_expiration_timestamp,
}
use process_manager_module.TimersCache.Identifiers.{FirstFree}
use process_manager_module.TimersCache.Invariant.{IsValid}
use process_manager_module.TimersCache.Refinement.{
  Registry, registry, is_registered, IsEarliest, register_timer_lem, remove_timer_lem,
  restart_timer_lem, remove_ended_timers_lem, next_expiration_timestamp_lem,
}

module _ {C : Type 0} where
  id_taken-find_timer : (i : ℕ) (m : Timers C) → id_taken i m ≡ is_registered (find_timer i m)
  unfolding id_taken find_timer
  id_taken-find_timer i [] = refl
  id_taken-find_timer i ((k, t) ∷ m) = ground (arith, id_taken-find_timer i m)

  FirstFree-unique :
      (m m' : Timers C) (i j : ℕ)
      → ((k : ℕ) → id_taken k m ≡ id_taken k m')
      → FirstFree 1 m i
      → FirstFree 1 m' j
      → i ≡ j
  FirstFree-unique m m' i j same f g = elim (Bool-cases (ltb i j)) [
    | inl less ↦
        let taken = g.least i f.from (ground arith) in absurd (ground (arith, same i, f.free))
    | inr not_less ↦ elim (Bool-cases (ltb j i)) [
      | inl more ↦
          let taken = f.least j g.from (ground arith) in absurd (ground (arith, same j, g.free))
      | inr not_more ↦ ground arith
    ]
  ]

  taken_alike :
      (c c' : TimersCache C)
      → ((i : ℕ) → registry c i ≡ registry c' i)
      → (k : ℕ) → id_taken k c.timers ≡ id_taken k c'.timers
  taken_alike c c' same k =
      id_taken-find_timer k c.timers
      ∙ ap is_registered (same k)
      ∙ sym (id_taken-find_timer k c'.timers)

  IsEarliest-unique :
      (o o' : Option ℤ) (r r' : Registry C)
      → ((i : ℕ) → r i ≡ r' i)
      → IsEarliest o r
      → IsEarliest o' r'
      → o ≡ o'
  IsEarliest-unique none none r r' same e e' = refl
  IsEarliest-unique none (some k) r r' same e (all, (i, t, h, g)) = absurd (cc (e i, same i, h))
  IsEarliest-unique (some k) none r r' same (all, (i, t, h, g)) e' = absurd (cc (e' i, same i, h))
  IsEarliest-unique (some k) (some k') r r' same (all, (i, t, h, g)) (all', (i', t', h', g')) =
      ap some (
        ltb_ℤ_antisymm k k' (rw (← g) (all' i t (sym (same i) ∙ h)))
          (rw (← g') (all i' t' (same i' ∙ h'))))

-- What the users of the cache ask of it, and what they are told.
pub data Call (C : Type 0) : Type 0 where
  registers : Timer C → Call C
  removes : ℕ → Call C
  restarts : ℤ → ℕ → Call C
  removes_ended : Call C
  asks_next_expiration : Call C

pub data Answer : Type 0 where
  given : ℕ → Answer
  finished : Answer
  found : Bool → Answer
  next_expiration : Option ℤ → Answer

module _ {C : Type 0} where
  unfoldable pub call : Call C → TimersCache C → Outcome (TimersCache C × Answer)
  call (registers t) c = do (c', i) ← register_timer (some t) c; returns (c', given i)
  call (removes i) c = do c' ← remove_timer i c; returns (c', finished)
  call (restarts now i) c = do (c', b) ← restart_timer now i c; returns (c', found b)
  call removes_ended c = do c' ← remove_ended_timers c; returns (c', finished)
  call asks_next_expiration c = do o ← next_expiration_timestamp c; returns (c, next_expiration o)

  -- Both caches are valid and hold the same timers under the same IDs.
  pub record Alike (c c' : TimersCache C) : Type 0 where
    pub valid : IsValid c
    pub valid' : IsValid c'
    pub same : (i : ℕ) → registry c i ≡ registry c' i

  -- Two valid caches with room, that hold the same timers under the same IDs, answer every call
  -- alike, whatever the order in which they keep the timers, and hold the same timers afterwards.
  pub call-Alike :
      (k : Call C) (c c' : TimersCache C)
      → length c.timers + 2 ≤ 2 ^ 32
      → length c'.timers + 2 ≤ 2 ^ 32
      → Alike c c'
      → (d d' : TimersCache C) × (a : Answer) × (call k c ≡ returns (d, a))
        × (call k c' ≡ returns (d', a))
        × Alike d d'
  unfolding call
  call-Alike (registers t) c c' room room' h =
      let (d, i, e, v, f, w, n, l) = register_timer_lem c h.valid t room in
      let (d', j, e', v', f', w', n', l') = register_timer_lem c' h.valid' t room' in
      let one : j ≡ i =
        sym (FirstFree-unique c.timers c'.timers i j (taken_alike c c' h.same) f f') in
      (
        d,
        d',
        given i,
        rw e,
        rw (e', one),
        record { valid = v; valid' = v'; same = λ k. w k ∙ rw (← one, h.same k) (sym (w' k)) },
      )
  call-Alike (removes i) c c' room room' h =
      let (d, e, v, w) = remove_timer_lem c h.valid i in
      let (d', e', v', w') = remove_timer_lem c' h.valid' i in
      (
        d,
        d',
        finished,
        rw e,
        rw e',
        record { valid = v; valid' = v'; same = λ k. w k ∙ rw (h.same k) (sym (w' k)) },
      )
  call-Alike (restarts now i) c c' room room' h =
      let (d, e, v, w) = restart_timer_lem c h.valid now i in
      let (d', e', v', w') = restart_timer_lem c' h.valid' now i in
      (
        d,
        d',
        found (is_registered (registry c i)),
        rw e,
        rw (e', h.same i),
        record { valid = v; valid' = v'; same = λ k. w k ∙ rw (h.same k, h.same i) (sym (w' k)) },
      )
  call-Alike removes_ended c c' room room' h =
      let (d, e, v, w) = remove_ended_timers_lem c h.valid in
      let (d', e', v', w') = remove_ended_timers_lem c' h.valid' in
      (
        d,
        d',
        finished,
        rw e,
        rw e',
        record { valid = v; valid' = v'; same = λ k. w k ∙ rw (h.same k) (sym (w' k)) },
      )
  call-Alike asks_next_expiration c c' room room' h =
      let (o, e, w) = next_expiration_timestamp_lem c h.valid in
      let (o', e', w') = next_expiration_timestamp_lem c' h.valid' in
      let one = IsEarliest-unique o o' (registry c) (registry c') h.same w w' in
      (c, c', next_expiration o, rw e, rw (e', one), h)
