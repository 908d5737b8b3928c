-- ===== src/TimersThread/Ready.antt =====
-- What the timers thread finds between two rounds, if callbacks return and no timer is restarted from
-- elsewhere: valid caches of timers that wait.
use process_manager_module.Base.{
  ℕ, ◌≡◌, refl, subst, Bool, true, false, [], ◌∷◌, Option, none, some, returns, ◌==◌, arith, All,
  Bool-cases, inl, inr,
}
use process_manager_module.Base.Int.{ℤ}
use process_manager_module.Timer.{Timer, waiting, set_timer_id, CallbackEnd}
use process_manager_module.TimersCache.{Timers, TimersCache, find_timer, is_due}
use process_manager_module.TimersCache.Views.{DistinctIds, find_timer-free}
use process_manager_module.TimersCache.Invariant.{IsValid}
use process_manager_module.TimersCache.Reinsertion.{restarted}
use process_manager_module.TimersCache.Firing.{IsSome, due_timers}
use process_manager_module.TimersCache.Expiry.{Completes, run_callbacks}
use process_manager_module.TimersCache.Refinement.{registry, put}
use process_manager_module.TimersThread.{serve}
use process_manager_module.TimersThread.Round.{Served, ServedIf, serve_lem}

module _ {C : Type 0} where
  -- The callback is set, and the timer waits.
  abbrev pub IsArmed : Timer C → Type 0
  IsArmed t = IsSome t.callback_function × (t.action_status ≡ waiting)

  -- What the thread finds between two rounds.
  pub record IsReady (c : TimersCache C) : Type 0 where
    pub valid : IsValid c
    pub set : (i : ℕ) (t : Timer C) → registry c i ≡ some t → IsArmed t

  pub All-find_timer :
      (P : Timer C → Type 0) (m : Timers C)
      → DistinctIds m
      → ((i : ℕ) (t : Timer C) → find_timer i m ≡ some t → P t)
      → All (λ e. P e.1) m
  unfolding find_timer
  All-find_timer P [] d h = tt
  All-find_timer P ((k, t) ∷ m) d h = (
    h t.timer_id t (ground arith),
    All-find_timer P m d.1 (λ i u found. h i u (elim (Bool-cases (t.timer_id == i)) [
      | inr miss ↦ rw miss found
      | inl hit ↦
          let same : t.timer_id ≡ i = ground arith in
          absurd (ground (arith, find_timer-free i m (rw (← same) d.0)))
    ])),
  )

  -- What a restart keeps of a timer, a round keeps of all timers.
  module _ (P : Timer C → Type 0) (kept : (now : ℤ) (t : Timer C) → P t → P (restarted now t)) where
    ServedIf-keeps :
        (due repeats : Bool) (clock : ℕ → ℤ) (t u : Timer C) (after : Option (Timer C))
        → ServedIf due repeats clock t after
        → after ≡ some u
        → P t
        → P u
    ServedIf-keeps true true clock t u after (a, e) f h =
        let same : restarted (clock a) t ≡ u = cc (e, f) in subst P same (kept (clock a) t h)
    ServedIf-keeps true false clock t u after e f h = absurd (ground arith)
    ServedIf-keeps false repeats clock t u after e f h =
        let same : t ≡ u = cc (e, f) in subst P same h

    pub Served-keeps :
        (now : ℤ) (clock : ℕ → ℤ) (before after : Option (Timer C)) (u : Timer C)
        → Served now clock before after
        → after ≡ some u
        → ((t : Timer C) → before ≡ some t → P t)
        → P u
    Served-keeps now clock none after u s f h = absurd (ground arith)
    Served-keeps now clock (some t) after u s f h =
        ServedIf-keeps (is_due now t) t.repeatable clock t u after s f (h t refl)

  pub register_timer-IsReady :
      (t : Timer C) (c c₁ : TimersCache C) (i : ℕ)
      → IsArmed t
      → IsReady c
      → IsValid c₁
      → ((j : ℕ) → registry c₁ j ≡ put i (set_timer_id i t) (registry c) j)
      → IsReady c₁
  unfolding set_timer_id
  register_timer-IsReady t c c₁ i set h v view = record {
    valid = v;
    set = λ j u f. elim (Bool-cases (i == j)) [
      | inl hit ↦ let same : set_timer_id i t ≡ u = ground (arith, view j) in subst IsArmed same set
      | inr miss ↦ h.set j u (ground (arith, view j))
    ];
  }

module _ {C W : Type 0} (run : C → W → CallbackEnd W) (completes : Completes run) where
  pub serve-IsReady :
      (now : ℤ) (clock : ℕ → ℤ) (c : TimersCache C) (w : W)
      → IsReady c
      → (c' : TimersCache C) × (serve run now clock c w
          ≡ returns (c', run_callbacks run (due_timers now c.timers) w))
        × IsReady c'
        × ((i : ℕ) → Served now clock (registry c i) (registry c' i))
  serve-IsReady now clock c w h =
      let d = h.valid.well_formed.distinct in
      let (c', e, v, s) =
        serve_lem run completes now clock c w h.valid
          (All-find_timer (λ t. IsSome t.callback_function) c.timers d (λ i t f. (h.set i t f).0))
          (All-find_timer (λ t. t.action_status ≡ waiting) c.timers d (λ i t f. (h.set i t f).1)) in
      (
        c',
        e,
        record {
          valid = v;
          set = λ i u f.
              Served-keeps IsArmed (λ a t h. (h.0, refl)) now clock (registry c i) (registry c' i) u
                (s i) f (h.set i);
        },
        s,
      )
