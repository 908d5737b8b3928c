-- ===== src/TimersCache/Refinement.antt =====
-- The operations of the cache that clients call, against the map from IDs to timers that it stands
-- for.
use process_manager_module.Base.{
  ℕ, ◌+◌, ◌^◌, ◌≤◌, ◌≡◌, refl, sym, ◌∙◌, Bool, true, false, [], ◌∷◌, Option, none, some, arith,
  All-zip, length, if◌then◌else◌, ◌==◌, ==_self, Bool-cases, Option-cases, inl, inr, returns,
}
use process_manager_module.Base.Int.{ℤ, ltb_ℤ, ltb_ℤ_irrefl}
use process_manager_module.Containers.Order.{int_order}
use process_manager_module.Containers.Multimap.{length-insert}
use process_manager_module.Timer.{Timer, set_timer_id, restart, get_expiration_timestamp}
use process_manager_module.TimersCache.{
  Timers, TimersCache, find_timer, id_taken, insert_timer, erase_timer, erase_where, to_remove,
  register_timer, remove_timer, restart_timer, remove_ended_timers, next_expiration_timestamp,
  first_key,
}
use process_manager_module.TimersCache.Views.{
  find_timer-insert, find_timer-erase_timer, find_timer-erase_where, find_timer-id, find_timer-All,
  id_taken-erase_timer, unless,
}
use process_manager_module.TimersCache.Identifiers.{FirstFree, generate_timer_id_finds}
use process_manager_module.TimersCache.Invariant.{
  KeyIsExpiration, HasId, IsValid, WellFormed, insert_timer-WellFormed, erase_timer-WellFormed,
  erase_where-WellFormed,
}

-- The abstract view: which timer, if any, has an ID. The order of the map, its keys and the flag for
-- the waiting thread are forgotten.
abbrev pub Registry : Type 0 → Type 0
Registry C = ℕ → Option (Timer C)

module _ {C : Type 0} where
  abbrev pub registry : TimersCache C → Registry C
  registry c i = find_timer i c.timers

  abbrev pub put : ℕ → Timer C → Registry C → Registry C
  put i t r j = if i == j then some t else r j

  abbrev pub drop : ℕ → Registry C → Registry C
  drop i r j = if i == j then none else r j

  abbrev pub is_registered : Option (Timer C) → Bool
  is_registered none = false
  is_registered (some t) = true

  -- The least expiration in a registry.
  abbrev pub IsEarliest : Option ℤ → Registry C → Type 0
  IsEarliest none r = (i : ℕ) → r i ≡ none
  IsEarliest (some k) r =
      ((i : ℕ) (t : Timer C) → r i ≡ some t → ltb_ℤ (get_expiration_timestamp t) k ≡ false)
      × ((i : ℕ) × (t : Timer C) × (r i ≡ some t) × (get_expiration_timestamp t ≡ k))

  first_key-IsEarliest :
      (m : Timers C) → WellFormed m → IsEarliest (first_key m) (λ i. find_timer i m)
  unfolding find_timer
  first_key-IsEarliest [] v = λ i. refl
  first_key-IsEarliest ((k, t) ∷ m) v = (
    λ i s h. elim (Bool-cases (t.timer_id == i)) [
      | inl hit ↦
          let same : t ≡ s = ground arith in
          rw (← same) (rw v.keyed.0 (ltb_ℤ_irrefl (get_expiration_timestamp t)))
      | inr miss ↦
          let (j, both) =
            find_timer-All (λ e. (ltb_ℤ e.0 k ≡ false) × KeyIsExpiration e) i m s
              (All-zip _ KeyIsExpiration m v.sorted.0 v.keyed.1) (ground arith) in
          rw (both.1) at (both.0)
    ],
    (t.timer_id, t, rw (==_self t.timer_id), sym v.keyed.0),
  )

  module _ (c : TimersCache C) (v : IsValid c) where
    -- In a valid cache with fewer than 2 ^ 32 - 1 timers the call returns the least free positive
    -- ID, the new timer is registered under it, every other one is kept, and the waiting thread is
    -- told; the cache stays valid.
    pub register_timer_lem :
        (t : Timer C)
        → length c.timers + 2 ≤ 2 ^ 32
        → (c' : TimersCache C) × (i : ℕ) × (register_timer (some t) c ≡ returns (c', i))
          × IsValid c'
          × FirstFree 1 c.timers i
          × ((j : ℕ) → registry c' j ≡ put i (set_timer_id i t) (registry c) j)
          × (c'.timers_invoked_status ≡ true)
          × (length c'.timers ≡ length c.timers + 1)
    unfolding register_timer insert_timer set_timer_id
    register_timer_lem t room =
        let (i, e, f, b) = generate_timer_id_finds c.timers room in
        let t' = set_timer_id i t in
        (
          record c { timers = insert_timer t' c.timers; timers_invoked_status = true },
          i,
          rw (v.unlocked, e),
          record {
            unlocked = v.unlocked;
            well_formed = insert_timer-WellFormed t' c.timers f.free f.from v.well_formed;
          },
          f,
          λ j. find_timer-insert j (get_expiration_timestamp t') t' c.timers f.free,
          refl,
          omega (arith, length-insert (get_expiration_timestamp t') t' c.timers),
        )

    -- A null timer is not registered: the caller gets the ID 0, which no timer has.
    pub register_timer_null : length c.timers + 2 ≤ 2 ^ 32 → register_timer none c ≡ returns (c, 0)
    unfolding register_timer
    register_timer_null room =
        let (i, e, f, b) = generate_timer_id_finds c.timers room in rw (v.unlocked, e)

    -- On a valid cache removal takes away the timer with that ID and no other, whether or not there
    -- is one.
    pub remove_timer_lem :
        (i : ℕ)
        → (c' : TimersCache C) × (remove_timer i c ≡ returns c')
          × IsValid c'
          × ((j : ℕ) → registry c' j ≡ drop i (registry c) j)
    unfolding remove_timer
    remove_timer_lem i =
        let erased = λ (j : ℕ). find_timer-erase_timer i j c.timers v.well_formed.distinct in
        elim (Option-cases (find_timer i c.timers)) [
          | inl e ↦ (c, simp (v.unlocked, e), v, λ j. ground (arith, e, absent i j e))
          | inr (t, e) ↦ (
            record c { timers = erase_timer i c.timers; timers_invoked_status = true },
            simp (v.unlocked, e),
            record {
              unlocked = v.unlocked;
              well_formed = erase_timer-WellFormed i c.timers v.well_formed;
            },
            erased,
          )
        ]
      where
        absent :
            (i j : ℕ)
            → find_timer i c.timers ≡ none
            → (i == j) ≡ true
            → find_timer j c.timers ≡ none
        absent i j e h = let same : i ≡ j = ground arith in rw (← same) e

    -- On a valid cache a restart moves the start of the timer with that ID to the present, keeps
    -- everything else of it, and tells the caller whether there is such a timer.
    pub restart_timer_lem :
        (now : ℤ) (i : ℕ)
        → (c' : TimersCache C) × (restart_timer now i c
            ≡ returns (c', is_registered (registry c i)))
          × IsValid c'
          × ((j : ℕ)
              → registry c' j ≡ (
                  if i == j
                  then elim (registry c i) [ none ↦ none | some t ↦ some (restart now t) ]
                  else registry c j))
    unfolding restart_timer restart insert_timer
    restart_timer_lem now i = elim (Option-cases (find_timer i c.timers)) [
      | inl e ↦ (c, simp (v.unlocked, e), v, λ j. ground (arith, e, find_timer-same i j))
      | inr (t, e) ↦
          let id : t.timer_id ≡ i = find_timer-id i c.timers t e in
          (
            record c { timers = insert_timer (restart now t) (erase_timer i c.timers) },
            simp (v.unlocked, e),
            record { unlocked = v.unlocked; well_formed = moved now i t e id },
            λ j. rw e (moved_view now i t id j),
          )
    ]
      where
        find_timer-same :
            (i j : ℕ) → (i == j) ≡ true → find_timer i c.timers ≡ find_timer j c.timers
        find_timer-same i j h = let same : i ≡ j = ground arith in rw same

        free : (i : ℕ) → id_taken i (erase_timer i c.timers) ≡ false
        free i = id_taken-erase_timer i i c.timers v.well_formed.distinct ∙ rw (==_self i)

        moved :
            (now : ℤ) (i : ℕ) (t : Timer C)
            → find_timer i c.timers ≡ some t
            → t.timer_id ≡ i
            → WellFormed (insert_timer (restart now t) (erase_timer i c.timers))
        moved now i t e id =
            let positive : 1 ≤ t.timer_id =
              (find_timer-All HasId i c.timers t v.well_formed.positive e).1 in
            insert_timer-WellFormed (restart now t) (erase_timer i c.timers)
              (unfold restart in rw id (free i)) (unfold restart in positive)
              (erase_timer-WellFormed i c.timers v.well_formed)

        moved_view :
            (now : ℤ) (i : ℕ) (t : Timer C)
            → t.timer_id ≡ i
            → (j : ℕ)
            → find_timer j (insert_timer (restart now t) (erase_timer i c.timers))
              ≡ (if i == j then some (restart now t) else find_timer j c.timers)
        moved_view now i t id j =
            unfold restart insert_timer in
            (find_timer-insert j _ (restart now t) (erase_timer i c.timers) (rw id (free i))
              ∙ rw id (ground (arith, find_timer-erase_timer i j c.timers v.well_formed.distinct)))

    -- On a valid cache the timers that have ended and are not repeatable are taken away, and every
    -- other one is kept as it is.
    pub remove_ended_timers_lem :
        (c' : TimersCache C) × (remove_ended_timers c ≡ returns c')
        × IsValid c'
        × ((j : ℕ) → registry c' j ≡ unless to_remove (registry c j))
    unfolding remove_ended_timers
    remove_ended_timers_lem = (
      record c { timers = erase_where to_remove c.timers },
      simp v.unlocked,
      record {
        unlocked = v.unlocked;
        well_formed = erase_where-WellFormed to_remove c.timers v.well_formed;
      },
      λ j. find_timer-erase_where to_remove j c.timers v.well_formed.distinct,
    )

    -- On a valid cache the next expiration is the least one of the registered timers: there is none
    -- exactly if no timer is registered, and one that is reported is at or before that of every
    -- timer.
    pub next_expiration_timestamp_lem :
        (o : Option ℤ) × (next_expiration_timestamp c ≡ returns o) × IsEarliest o (registry c)
    unfolding next_expiration_timestamp
    next_expiration_timestamp_lem =
        (first_key c.timers, rw v.unlocked, first_key-IsEarliest c.timers v.well_formed)
