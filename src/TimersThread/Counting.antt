-- ===== src/TimersThread/Counting.antt =====
-- How often the rounds of the timers thread (Source/src/TimersThreadMain.cpp) call one callback, as
-- counted by the rest of the program, which the callbacks change.
use process_manager_module.Base.{
  ℕ, ◌+◌, ◌≡◌, refl, ap, subst, ◌∙◌, true, false, List, [], ◌∷◌, Option, none, some, returns,
  if◌then◌else◌, ◌==◌, arith, Bool, All, Option-cases, Bool-cases, inl, inr,
}
use process_manager_module.Base.Int.{ℤ}
use process_manager_module.Timer.{Timer, set_timer_id, CallbackEnd, completed}
use process_manager_module.TimersCache.{Timers, TimersCache, find_timer, id_taken, is_due}
use process_manager_module.TimersCache.Views.{DistinctIds, find_timer-id}
use process_manager_module.TimersCache.Firing.{due_timers}
use process_manager_module.TimersCache.Expiry.{Completes, run_callbacks}
use process_manager_module.TimersCache.Refinement.{registry, put}
use process_manager_module.TimersThread.{serve}
use process_manager_module.TimersThread.Round.{Served}
use process_manager_module.TimersThread.Ready.{All-find_timer, Served-keeps, IsReady, serve-IsReady}

module _ {C : Type 0} where
  -- How many of the timers have an ID.
  unfoldable calls_of : ℕ → List (Timer C) → ℕ
  calls_of i [] = 0
  calls_of i (t ∷ ts) = if t.timer_id == i then calls_of i ts + 1 else calls_of i ts

  calls_of-free :
      (i : ℕ) (now : ℤ) (m : Timers C) → id_taken i m ≡ false → calls_of i (due_timers now m) ≡ 0
  unfolding calls_of due_timers id_taken
  calls_of-free i now [] h = refl
  calls_of-free i now ((k, t) ∷ m) h = ground (arith, calls_of-free i now m)

  abbrev pub once_if_due : ℤ → Option (Timer C) → ℕ
  once_if_due now none = 0
  once_if_due now (some t) = if is_due now t then 1 else 0

  calls_of-due_timers :
      (i : ℕ) (now : ℤ) (m : Timers C)
      → DistinctIds m
      → calls_of i (due_timers now m) ≡ once_if_due now (find_timer i m)
  unfolding calls_of due_timers find_timer
  calls_of-due_timers i now [] d = refl
  calls_of-due_timers i now ((k, t) ∷ m) d = elim (Bool-cases (t.timer_id == i)) [
    | inl hit ↦
        let same : t.timer_id ≡ i = ground arith in
        let rest = calls_of-free i now m (rw (← same) d.0) in ground arith
    | inr miss ↦ ground (arith, calls_of-due_timers i now m d.1)
  ]

module _ {C W : Type 0} (run : C → W → CallbackEnd W) (is_it : C → Bool) where
  -- Whether it is this callback that a timer calls.
  abbrev pub hit : Timer C → Bool
  hit t = elim t.callback_function [ none ↦ false | some callback ↦ is_it callback ]

  -- How many of the timers call it.
  unfoldable hits : List (Timer C) → ℕ
  hits [] = 0
  hits (t ∷ ts) = if hit t then hits ts + 1 else hits ts

  -- It is the callback of the timer with the ID `i`, and of no other.
  abbrev pub IsAlone : ℕ → TimersCache C → Type 0
  IsAlone i c = (j : ℕ) (t : Timer C) → registry c j ≡ some t → hit t ≡ (t.timer_id == i)

  hits-calls_of :
      (i : ℕ) (now : ℤ) (m : Timers C)
      → All (λ e. hit e.1 ≡ (e.1.timer_id == i)) m
      → hits (due_timers now m) ≡ calls_of i (due_timers now m)
  unfolding hits calls_of due_timers
  hits-calls_of i now [] h = refl
  hits-calls_of i now ((k, t) ∷ m) h = elim (Bool-cases (is_due now t)) [
    | inl due ↦ rw (due, h.0) (rw (hits-calls_of i now m h.1))
    | inr early ↦ rw early (hits-calls_of i now m h.1)
  ]

  -- What the world counts of the calls of the callback: one more for each that returns.
  abbrev pub Counts : (W → ℕ) → Type 0
  Counts counts =
      (callback : C) (w w' : W)
      → run callback w ≡ completed w'
      → counts w' ≡ counts w + (if is_it callback then 1 else 0)

  Served-IsAlone :
      (i : ℕ) (now : ℤ) (clock : ℕ → ℤ) (c c' : TimersCache C)
      → ((j : ℕ) → Served now clock (registry c j) (registry c' j))
      → IsAlone i c
      → IsAlone i c'
  Served-IsAlone i now clock c c' s alone j t found =
      Served-keeps (λ u. hit u ≡ (u.timer_id == i)) (λ a u h. h) now clock (registry c j)
        (registry c' j) t (s j) found (alone j)

  module _ (completes : Completes run) (counts : W → ℕ) (counted : Counts counts) where
    counts-run_callbacks :
        (ts : List (Timer C)) (w : W) → counts (run_callbacks run ts w) ≡ counts w + hits ts
    unfolding run_callbacks hits
    counts-run_callbacks [] w = ground arith
    counts-run_callbacks (t ∷ ts) w = elim (Option-cases t.callback_function) [
      | inl e ↦ rw e (counts-run_callbacks ts w)
      | inr (cb, e) ↦
          let (w', r) = completes cb w in
          let first = counted cb w w' r in
          let rest = counts-run_callbacks ts w' in rw (e, r) (ground (arith, first, rest))
    ]

    -- A round over a cache in which the callback is that of one timer counts one call if it was due.
    pub serve-counts :
        (now : ℤ) (clock : ℕ → ℤ) (i : ℕ) (c : TimersCache C) (w : W)
        → IsReady c
        → IsAlone i c
        → (c' : TimersCache C) × (w' : W) × (serve run now clock c w ≡ returns (c', w'))
          × IsReady c'
          × IsAlone i c'
          × Served now clock (registry c i) (registry c' i)
          × (counts w' ≡ counts w + once_if_due now (registry c i))
    serve-counts now clock i c w h alone =
        let (c', e, h', s) = serve-IsReady run completes now clock c w h in
        let d = h.valid.well_formed.distinct in
        let all = All-find_timer (λ t. hit t ≡ (t.timer_id == i)) c.timers d alone in
        let called = counts-run_callbacks (due_timers now c.timers) w in
        let once = hits-calls_of i now c.timers all ∙ calls_of-due_timers i now c.timers d in
        (
          c',
          run_callbacks run (due_timers now c.timers) w,
          e,
          h',
          Served-IsAlone i now clock c c' s alone,
          s i,
          called ∙ ap (λ n. counts w + n) once,
        )

    pub register_timer-IsAlone :
        (t : Timer C) (i : ℕ) (c c₁ : TimersCache C)
        → registry c i ≡ none
        → hit t ≡ true
        → ((j : ℕ) (u : Timer C) → registry c j ≡ some u → hit u ≡ false)
        → ((j : ℕ) → registry c₁ j ≡ put i (set_timer_id i t) (registry c) j)
        → IsAlone i c₁
    unfolding set_timer_id
    register_timer-IsAlone t i c c₁ free its others view j u found = elim (Bool-cases (i == j)) [
      | inl here ↦
          let same : set_timer_id i t ≡ u = ground (arith, view j) in
          subst (λ v. hit v ≡ (v.timer_id == i)) same (its ∙ ground arith)
      | inr there ↦
          let old : registry c j ≡ some u = ground (arith, view j) in
          let id = find_timer-id j c.timers u old in others j u old ∙ ground arith
    ]
