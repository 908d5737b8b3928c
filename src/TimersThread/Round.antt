-- ===== src/TimersThread/Round.antt =====
-- One round of the timers thread: what becomes of each timer.
use process_manager_module.Base.{
  ℕ, ◌≡◌, refl, ap, subst, ◌∙◌, Bool, true, false, Option, none, some, arith, All, returns,
}
use process_manager_module.Base.Int.{ℤ}
use process_manager_module.Timer.{Timer, waiting, ended, CallbackEnd}
use process_manager_module.TimersCache.{TimersCache, find_timer, is_due, to_restart, to_remove}
use process_manager_module.TimersCache.Views.{unless, find_timer-All}
use process_manager_module.TimersCache.Invariant.{IsValid}
use process_manager_module.TimersCache.Reinsertion.{restarted}
use process_manager_module.TimersCache.Restart.{
  RestartedIf, Restarts, restart_repeatable_timers_lem,
}
use process_manager_module.TimersCache.Firing.{IsSome, FiredIf, Fires, due_timers}
use process_manager_module.TimersCache.Expiry.{
  Completes, run_callbacks, trigger_expired_timers_completes,
}
use process_manager_module.TimersCache.Refinement.{registry, remove_ended_timers_lem}
use process_manager_module.TimersThread.{serve}

module _ {C : Type 0} where
  -- The timer with some ID before and after a round: one that was due is gone if it fires once, and
  -- waits again from a reading of the clock on if it is repeatable; any other is left alone.
  abbrev pub ServedIf : Bool → Bool → (ℕ → ℤ) → Timer C → Option (Timer C) → Type 0
  ServedIf true true clock t after = (a : ℕ) × (after ≡ some (restarted (clock a) t))
  ServedIf true false clock t after = after ≡ none
  ServedIf false repeats clock t after = after ≡ some t

  abbrev pub Served : ℤ → (ℕ → ℤ) → Option (Timer C) → Option (Timer C) → Type 0
  Served now clock none after = after ≡ none
  Served now clock (some t) after = ServedIf (is_due now t) t.repeatable clock t after

  RestartedIf-restarts :
      (b : Bool) (clock : ℕ → ℤ) (t : Timer C) (o : Option (Timer C))
      → b ≡ true
      → RestartedIf b clock t o
      → (a : ℕ) × (o ≡ some (restarted (clock a) t))
  RestartedIf-restarts true clock t o h r = r
  RestartedIf-restarts false clock t o h r = absurd (cc)

  RestartedIf-stays :
      (b : Bool) (clock : ℕ → ℤ) (t : Timer C) (o : Option (Timer C))
      → b ≡ false
      → RestartedIf b clock t o
      → o ≡ some t
  RestartedIf-stays true clock t o h r = absurd (cc)
  RestartedIf-stays false clock t o h r = r

  unless_stays :
      (o o' : Option (Timer C)) (t : Timer C)
      → o ≡ some t
      → o' ≡ unless to_remove o
      → to_remove t ≡ false
      → o' ≡ some t
  unless_stays o o' t h e k = e ∙ rw h (simp k)

  unless_goes :
      (o o' : Option (Timer C)) (t : Timer C)
      → o ≡ some t
      → o' ≡ unless to_remove o
      → to_remove t ≡ true
      → o' ≡ none
  unless_goes o o' t h e k = e ∙ rw h (simp k)

  Served_fired :
      (b : Bool) (clock : ℕ → ℤ) (t : Timer C) (o₂ o₃ : Option (Timer C))
      → t.repeatable ≡ b
      → RestartedIf
          (to_restart (record t { action_status = ended }))
          clock
          (record t { action_status = ended })
          o₂
      → o₃ ≡ unless to_remove o₂
      → ServedIf true b clock t o₃
  unfolding to_restart to_remove
  Served_fired true clock t o₂ o₃ h r e =
      let (a, q) = RestartedIf-restarts _ clock (record t { action_status = ended }) o₂ h r in
      (a, unless_stays o₂ o₃ (restarted (clock a) t) q e (simp h))
  Served_fired false clock t o₂ o₃ h r e =
      let q = RestartedIf-stays _ clock (record t { action_status = ended }) o₂ h r in
      unless_goes o₂ o₃ (record t { action_status = ended }) q e (simp h)

  pub Served_idle :
      (clock : ℕ → ℤ) (t : Timer C) (o₂ o₃ : Option (Timer C))
      → t.action_status ≡ waiting
      → RestartedIf (to_restart t) clock t o₂
      → o₃ ≡ unless to_remove o₂
      → o₃ ≡ some t
  unfolding to_restart to_remove
  Served_idle clock t o₂ o₃ w r e =
      unless_stays o₂ o₃ t (RestartedIf-stays _ clock t o₂ (ground arith) r) e (ground arith)

  Served_step :
      (b : Bool) (clock : ℕ → ℤ) (t t' : Timer C) (o₂ o₃ : Option (Timer C))
      → t.action_status ≡ waiting
      → FiredIf (λ s. s ≡ ended) b t t'
      → RestartedIf (to_restart t') clock t' o₂
      → o₃ ≡ unless to_remove o₂
      → ServedIf b t.repeatable clock t o₃
  Served_step true clock t t' o₂ o₃ w (s, q, h) r e =
      Served_fired t.repeatable clock t o₂ o₃ refl
        (subst (λ x. RestartedIf (to_restart x) clock x o₂)
          (q ∙ ap (λ a. record t { action_status = a }) h) r)
        e
  Served_step false clock t t' o₂ o₃ w q r e =
      Served_idle clock t o₂ o₃ w (subst (λ x. RestartedIf (to_restart x) clock x o₂) q r) e

  -- The three calls of a round, seen at one ID.
  Served-compose :
      (now : ℤ) (clock : ℕ → ℤ) (o o₁ o₂ o₃ : Option (Timer C))
      → ((t : Timer C) → o ≡ some t → t.action_status ≡ waiting)
      → Fires (λ s. s ≡ ended) now o o₁
      → Restarts clock o₁ o₂
      → o₃ ≡ unless to_remove o₂
      → Served now clock o o₃
  Served-compose now clock none o₁ o₂ o₃ w f r e = let r' : o₂ ≡ none = rw f at r in e ∙ rw r'
  Served-compose now clock (some t) o₁ o₂ o₃ w (t', q, f) r e =
      Served_step (is_due now t) clock t t' o₂ o₃ (w t refl) f
        (subst (λ o. Restarts clock o o₂) q r) e

  module _ {W : Type 0} (run : C → W → CallbackEnd W) where
    -- If every callback is set and returns, a round over waiting timers returns, with the callbacks
    -- of the due timers called in the order of the map and no others. It keeps the cache valid;
    -- those due timers that fire once are gone, those that repeat wait again, and every other timer
    -- is as it was.
    pub serve_lem :
        Completes run
        → (now : ℤ) (clock : ℕ → ℤ) (c : TimersCache C) (w : W) → IsValid c
        → All (λ e. IsSome e.1.callback_function) c.timers
        → All (λ e. e.1.action_status ≡ waiting) c.timers
        → (c' : TimersCache C) × (serve run now clock c w
            ≡ returns (c', run_callbacks run (due_timers now c.timers) w))
          × IsValid c'
          × ((i : ℕ) → Served now clock (registry c i) (registry c' i))
    unfolding serve
    serve_lem all now clock c w v set idle =
        let (c₁, e₁, v₁, f₁) = trigger_expired_timers_completes run all now c w v set in
        let (c₂, e₂, v₂, f₂) = restart_repeatable_timers_lem clock c₁ v₁ in
        let (c₃, e₃, v₃, f₃) = remove_ended_timers_lem c₂ v₂ in
        (
          c₃,
          rw (e₁, e₂, e₃),
          v₃,
          λ i.
              Served-compose now clock (find_timer i c.timers) (find_timer i c₁.timers)
                (find_timer i c₂.timers) (find_timer i c₃.timers)
                (λ t h. (find_timer-All (λ e. e.1.action_status ≡ waiting) i c.timers t idle h).1)
                (f₁ i) (f₂ i) (f₃ i),
        )
