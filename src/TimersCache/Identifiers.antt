-- ===== src/TimersCache/Identifiers.antt =====
-- `TimersCache::generateTimerID`: the search ends, and what it finds.
use process_manager_module.Base.{
  ℕ, zero, suc, ◌+◌, ◌∙◌, ◌%◌, ◌^◌, ◌≤◌, ◌<◌, ◌≡◌, true, false, [], ◌∷◌, returns, arith, length,
  if◌then◌else◌, ◌==◌, leb, Bool-cases, inl, inr,
}
use process_manager_module.TimersCache.{
  Timers, id_taken, search_id, generate_timer_id, smallest_timer_id,
}

module _ {C : Type 0} where
  -- How many timers have an ID of at least `i`.
  count_from : ℕ → Timers C → ℕ
  count_from i [] = 0
  count_from i ((k, t) ∷ m) = (if leb i t.timer_id then 1 else 0) + count_from i m

  count_from-le-length : (i : ℕ) (m : Timers C) → count_from i m ≤ length m
  unfolding count_from
  count_from-le-length i [] = omega arith
  count_from-le-length i ((k, t) ∷ m) = ground (arith, count_from-le-length i m)

  count_from-suc : (i : ℕ) (m : Timers C) → count_from (i + 1) m ≤ count_from i m
  unfolding count_from
  count_from-suc i [] = omega arith
  count_from-suc i ((k, t) ∷ m) = ground (arith, count_from-suc i m)

  -- A taken ID is left behind by the next round.
  count_from-taken :
      (i : ℕ) (m : Timers C) → id_taken i m ≡ true → count_from (i + 1) m < count_from i m
  unfolding count_from id_taken
  count_from-taken i [] h = cc
  count_from-taken i ((k, t) ∷ m) h = ground (arith, count_from-taken i m, count_from-suc i m)

  -- The first free ID from `i` on.
  pub record FirstFree (i : ℕ) (m : Timers C) (r : ℕ) : Type 0 where
    pub from : i ≤ r
    pub free : id_taken r m ≡ false
    pub least : (j : ℕ) → i ≤ j → j < r → id_taken j m ≡ true

  FirstFree-next :
      (i r : ℕ) (m : Timers C) → id_taken i m ≡ true → FirstFree (i + 1) m r → FirstFree i m r
  FirstFree-next i r m taken f = record {
    from = omega arith;
    free = f.free;
    least = λ j lo hi. elim (Bool-cases (i == j)) [
      | inl e ↦ let e' : i ≡ j = ground arith in rw (← e') taken
      | inr ne ↦ f.least j (ground arith) hi
    ];
  }

  FirstFree-here : (i : ℕ) (m : Timers C) → id_taken i m ≡ false → FirstFree i m i
  FirstFree-here i m free = record {
    from = omega arith;
    free = free;
    least = λ j lo hi. absurd (omega arith);
  }

  search_id-free :
      (fuel i : ℕ) (m : Timers C) → id_taken i m ≡ false → search_id (suc fuel) i m ≡ returns i
  unfolding search_id
  search_id-free fuel i m free = rw free

  search_id-suc :
      (fuel i : ℕ) (m : Timers C)
      → id_taken i m ≡ true
      → i + 1 < 2 ^ 32
      → search_id (suc fuel) i m ≡ search_id fuel (i + 1) m
  unfolding search_id
  search_id-suc fuel i m taken h =
      let wrap : (i + 1) % 2 ^ 32 ≡ i + 1 = omega arith in rw (taken, wrap)

  search_id_finds :
      (fuel i : ℕ) (m : Timers C)
      → count_from i m < fuel
      → i + fuel ≤ 2 ^ 32
      → (r : ℕ) × (search_id fuel i m ≡ returns r) × FirstFree i m r × (r < i + fuel)
  search_id_finds zero i m h w = absurd (omega arith)
  search_id_finds (suc fuel) i m h w = elim (Bool-cases (id_taken i m)) [
    | inl taken ↦
        let less : count_from (i + 1) m < fuel = omega (arith, count_from-taken i m taken) in
        let (r, e, f, b) = search_id_finds fuel (i + 1) m less (omega arith) in
        (
          r,
          search_id-suc fuel i m taken (omega arith) ∙ e,
          FirstFree-next i r m taken f,
          omega arith,
        )
    | inr free ↦ (i, search_id-free fuel i m free, FirstFree-here i m free, omega arith)
  ]

  -- The ID that a new timer gets: the search ends, at the least positive ID that no timer has,
  -- provided that fewer than 2 ^ 32 - 1 timers are registered.
  pub generate_timer_id_finds :
      (m : Timers C)
      → length m + 2 ≤ 2 ^ 32
      → (r : ℕ) × (generate_timer_id m ≡ returns r) × FirstFree 1 m r × (r ≤ length m + 1)
  unfolding generate_timer_id
  generate_timer_id_finds m h =
      let (r, e, f, b) =
        search_id_finds (suc (length m)) smallest_timer_id m
          (omega (arith, count_from-le-length 1 m)) (omega arith) in
      (r, e, f, omega arith)
