-- ===== src/TimersCache/Effects.antt =====
-- What a call of `triggerExpiredTimers` that came back has done, whatever the callbacks do: for a
-- preorder of the world that every callback goes up in, and a mark that the callback of a timer
-- leaves in the world for good.
use process_manager_module.Base.{
  ℕ, ◌≡◌, refl, true, [], ◌∷◌, some, returns, arith, subst, ◌==◌, >>=-eq-returns, Bool-cases,
  Option-cases, inl, inr,
}
use process_manager_module.Base.Int.{ℤ}
use process_manager_module.Timer.{
  Timer, ActionStatus, CallbackEnd, completed, threw, running, ended, run_callback_function,
}
use process_manager_module.TimersCache.{
  TimersCache, trigger_expired_timers, Timers, find_timer, is_due, trigger_timer, trigger_timers,
}
use process_manager_module.TimersCache.Firing.{
  FiredIf, Fired, Fires, Fired-WellFormed, find_timer-Fired, CallbackEnd-cases,
}
use process_manager_module.TimersCache.Invariant.{IsValid}

module _ {C W : Type 0} (run : C → W → CallbackEnd W) (Below : W → W → Type 0)
    (Marked : C → W → Type 0) where
  -- The callbacks go up, mark the world, and marks last.
  pub record Effect : Type 0 where
    pub reflexive : (w : W) → Below w w
    pub transitive : (u v w : W) → Below u v → Below v w → Below u w
    pub lasts : (c : C) (v w : W) → Below v w → Marked c v → Marked c w
    pub completes : (c : C) (w w' : W) → run c w ≡ completed w' → Below w w' × Marked c w'
    pub fails : (c : C) (w w' : W) → run c w ≡ threw w' → Below w w' × Marked c w'

  abbrev Any : ActionStatus → Type 0
  Any s = Unit

  module _ (effect : Effect) where
    run_callback_function-Below :
        (t t' : Timer C) (w w' : W)
        → run_callback_function run t w ≡ returns (t', w')
        → FiredIf Any true t t'
          × Below w w'
          × ((c : C) → t.callback_function ≡ some c → Marked c w')
    unfolding run_callback_function
    run_callback_function-Below t t' w w' e = elim (Option-cases t.callback_function) [
      | inl f ↦ (
        (running, ground arith, tt),
        subst (Below w) (ground arith) (effect.reflexive w),
        λ c g. absurd (ground arith),
      )
      | inr (d, f) ↦ elim (CallbackEnd-cases (run d w)) [
        | inr (inr r) ↦ absurd (ground arith)
        | inl (v, r) ↦
            let same : v ≡ w' = ground arith in
            let (b, k) = effect.completes d w v r in
            (
              (ended, ground arith, tt),
              subst (Below w) same b,
              λ c g. subst (λ x. Marked x w') (ground arith) (subst (Marked d) same k),
            )
        | inr (inl (v, r)) ↦
            let same : v ≡ w' = ground arith in
            let (b, k) = effect.fails d w v r in
            (
              (running, ground arith, tt),
              subst (Below w) same b,
              λ c g. subst (λ x. Marked x w') (ground arith) (subst (Marked d) same k),
            )
      ]
    ]

    trigger_timer-Below :
        (time_point : ℤ) (t t' : Timer C) (w w' : W)
        → trigger_timer run time_point t w ≡ returns (t', w')
        → FiredIf Any (is_due time_point t) t t'
          × Below w w'
          × ((c : C) → is_due time_point t ≡ true → t.callback_function ≡ some c → Marked c w')
    unfolding trigger_timer
    trigger_timer-Below p t t' w w' e = elim (Bool-cases (is_due p t)) [
      | inl due ↦
          let (f, b, k) = run_callback_function-Below t t' w w' (rw due at e) in
          rw due (f, b, λ c g. k c)
      | inr idle ↦
          let e' : returns (t, w) ≡ returns (t', w') = rw idle at e in
          rw idle (
            ground arith,
            subst (Below w) (ground arith) (effect.reflexive w),
            λ c g h. absurd (ground arith),
          )
    ]

    trigger_timers-Below :
        (time_point : ℤ) (m m' : Timers C) (w w' : W)
        → trigger_timers run time_point m w ≡ returns (m', w')
        → Fired Any time_point m m'
          × Below w w'
          × ((i : ℕ) (t : Timer C) (c : C)
              → find_timer i m ≡ some t
              → is_due time_point t ≡ true
              → t.callback_function ≡ some c
              → Marked c w')
    unfolding trigger_timers trigger_timer find_timer
    trigger_timers-Below p [] m' w w' e =
        let same : w ≡ w' = ground arith in
        let none_left : [] ≡ m' = ground arith in
        (
          subst (Fired Any p []) none_left tt,
          subst (Below w) same (effect.reflexive w),
          λ i t c h. absurd (cc),
        )
    trigger_timers-Below p ((k, t) ∷ m) m' w w' e =
        let ((t₁, w₁), e₁, f₁) = >>=-eq-returns (trigger_timer run p t w) _ e in
        let ((m₂, w₂), e₂, f₂) = >>=-eq-returns (trigger_timers run p m w₁) _ f₁ in
        let (fired, below, mark) = trigger_timer-Below p t t₁ w w₁ e₁ in
        let (fired', below', mark') = trigger_timers-Below p m m₂ w₁ w₂ e₂ in
        let same : w₂ ≡ w' = ground arith in
        let all : (k, t₁) ∷ m₂ ≡ m' = ground arith in
        (
          subst (Fired Any p ((k, t) ∷ m)) all (refl, fired, fired'),
          subst (Below w) same (effect.transitive w w₁ w₂ below below'),
          λ i u c h due set. elim (Bool-cases (t.timer_id == i)) [
            | inl hit ↦
                let one : t ≡ u = ground arith in
                subst (Marked c) same
                  (effect.lasts c w₁ w₂ below' (mark c (rw one due) (rw one set)))
            | inr miss ↦ subst (Marked c) same (mark' i u c (ground arith) due set)
          ],
        )

    -- The call has called the callbacks of the due timers, each of which marked the world; every
    -- other timer is as it was, and the cache stays valid.
    pub trigger_expired_timers-Below :
        (time_point : ℤ) (c c' : TimersCache C) (w w' : W)
        → IsValid c
        → trigger_expired_timers run time_point c w ≡ returns (c', w')
        → IsValid c'
          × Below w w'
          × ((i : ℕ) → Fires Any time_point (find_timer i c.timers) (find_timer i c'.timers))
          × ((i : ℕ) (t : Timer C) (f : C)
              → find_timer i c.timers ≡ some t
              → is_due time_point t ≡ true
              → t.callback_function ≡ some f
              → Marked f w')
    unfolding trigger_expired_timers
    trigger_expired_timers-Below p c c' w w' v e =
        let ((m, w₁), e₁, f₁) =
          >>=-eq-returns (trigger_timers run p c.timers w) _ (rw v.unlocked at e) in
        let same : w₁ ≡ w' = ground arith in
        let changed : record c { timers = m } ≡ c' = ground arith in
        let (fired, below, mark) = trigger_timers-Below p c.timers m w w₁ e₁ in
        (
          subst IsValid changed (record {
            unlocked = v.unlocked;
            well_formed = Fired-WellFormed Any p c.timers m fired v.well_formed;
          }),
          subst (Below w) same below,
          λ i.
              subst (λ x. Fires Any p (find_timer i c.timers) (find_timer i x.timers)) changed
                (find_timer-Fired Any p i c.timers m fired),
          λ i t f h due set. subst (Marked f) same (mark i t f h due set),
        )
