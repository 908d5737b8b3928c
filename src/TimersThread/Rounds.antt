-- ===== src/TimersThread/Rounds.antt =====
-- Several rounds of the timers thread (Source/src/TimersThreadMain.cpp): how often a timer fires.
use process_manager_module.Base.{
  ℕ, ◌+◌, ◌^◌, ◌≤◌, length, ◌≡◌, refl, ◌∙◌, true, false, List, [], ◌∷◌, ◌++◌, Option, none, some,
  Outcome, returns, ◌>>=◌, arith, Bool,
}
use process_manager_module.Base.Int.{ℤ, ◌+ℤ◌, ltb_ℤ}
use process_manager_module.Timer.{
  Timer, waiting, set_timer_id, get_expiration_timestamp, CallbackEnd,
}
use process_manager_module.TimersCache.{TimersCache, is_due, register_timer}
use process_manager_module.TimersCache.Views.{find_timer-free}
use process_manager_module.TimersCache.Expiry.{Completes}
use process_manager_module.TimersCache.Refinement.{registry, register_timer_lem}
use process_manager_module.TimersThread.{serve}
use process_manager_module.TimersThread.Ready.{IsArmed, IsReady, register_timer-IsReady}
use process_manager_module.TimersThread.Counting.{
  hit, IsAlone, Counts, serve-counts, register_timer-IsAlone,
}

module _ {C : Type 0} where
  -- The time of the timer, its start with its duration added, is before this one.
  abbrev pub is_past : ℤ → Timer C → Bool
  is_past now t = ltb_ℤ (t.start_timestamp +ℤ t.duration) now

  is_due-is_past :
      (now : ℤ) (t : Timer C) → t.action_status ≡ waiting → is_due now t ≡ is_past now t
  unfolding is_due get_expiration_timestamp
  is_due-is_past now t h = rw h

  -- The timer has expired at none of the rounds.
  abbrev pub AllEarly : Timer C → List (ℤ × (ℕ → ℤ)) → Type 0
  AllEarly t [] = Unit
  AllEarly t ((now, clock) ∷ rounds) = (is_past now t ≡ false) × AllEarly t rounds

  AllEarly-set_timer_id :
      (i : ℕ) (t : Timer C) (rounds : List (ℤ × (ℕ → ℤ)))
      → AllEarly t rounds
      → AllEarly (set_timer_id i t) rounds
  unfolding set_timer_id
  AllEarly-set_timer_id i t [] h = tt
  AllEarly-set_timer_id i t ((now, clock) ∷ rounds) h = (h.0, AllEarly-set_timer_id i t rounds h.1)

module _ {C W : Type 0} (run : C → W → CallbackEnd W) (is_it : C → Bool) (completes : Completes run)
    (counts : W → ℕ) (counted : Counts run is_it counts) where
  -- Rounds one after the other, each with its reading of the time and the clock of its restarts.
  pub serves : List (ℤ × (ℕ → ℤ)) → TimersCache C → W → Outcome (TimersCache C × W)
  serves [] c w = returns (c, w)
  serves ((now, clock) ∷ rounds) c w = do (c', w') ← serve run now clock c w; serves rounds c' w'

  -- The rounds return, with so many calls of the callback counted, and this is what stands under
  -- the ID at the end.
  abbrev pub Calls : List (ℤ × (ℕ → ℤ)) → TimersCache C → W → ℕ → ℕ → Option (Timer C) → Type 0
  Calls rounds c w i n o =
      (c' : TimersCache C) × (w' : W) × (serves rounds c w ≡ returns (c', w'))
      × IsReady c'
      × (counts w' ≡ counts w + n)
      × (registry c' i ≡ o)

  Calls-more :
      (now : ℤ) (clock : ℕ → ℤ) (rounds : List (ℤ × (ℕ → ℤ))) (c c₁ : TimersCache C) (w w₁ : W)
      (i m n : ℕ) (o : Option (Timer C))
      → serve run now clock c w ≡ returns (c₁, w₁)
      → counts w₁ ≡ counts w + m
      → Calls rounds c₁ w₁ i n o
      → Calls ((now, clock) ∷ rounds) c w i (m + n) o
  unfolding serves
  Calls-more now clock rounds c c₁ w w₁ i m n o e k (c', w', e', r, k', f) =
      (c', w', rw e e', r, omega (arith, k, k'), f)

  Calls-none :
      (rounds : List (ℤ × (ℕ → ℤ))) (c : TimersCache C) (w : W) (i : ℕ)
      → IsReady c
      → IsAlone run is_it i c
      → registry c i ≡ none
      → Calls rounds c w i 0 none
  unfolding serves
  Calls-none [] c w i h alone free = (c, w, refl, h, ground arith, free)
  Calls-none ((now, clock) ∷ rounds) c w i h alone free =
      let (c₁, w₁, e, h₁, alone₁, s, k) =
        serve-counts run is_it completes counts counted now clock i c w h alone in
      let later = Calls-none rounds c₁ w₁ i h₁ alone₁ (rw free at s) in
      Calls-more now clock rounds c c₁ w w₁ i 0 0 none e (rw free at k) later

  Calls-once :
      (early : List (ℤ × (ℕ → ℤ))) (now : ℤ) (clock : ℕ → ℤ) (late : List (ℤ × (ℕ → ℤ)))
      (c : TimersCache C) (w : W) (i : ℕ) (t : Timer C)
      → IsReady c
      → IsAlone run is_it i c
      → registry c i ≡ some t
      → t.repeatable ≡ false
      → AllEarly t early
      → is_past now t ≡ true
      → Calls (early ++ (now, clock) ∷ late) c w i 1 none
  Calls-once [] now clock late c w i t h alone there single early due =
      let (c₁, w₁, e, h₁, alone₁, s, k) =
        serve-counts run is_it completes counts counted now clock i c w h alone in
      let due' = is_due-is_past now t (h.set i t there).1 ∙ due in
      let gone : registry c₁ i ≡ none = rw (there, due', single) at s in
      let later = Calls-none late c₁ w₁ i h₁ alone₁ gone in
      Calls-more now clock late c c₁ w w₁ i 1 0 none e (rw (there, due') at k) later
  Calls-once ((now₀, clock₀) ∷ rest) now clock late c w i t h alone there single early due =
      let (c₁, w₁, e, h₁, alone₁, s, k) =
        serve-counts run is_it completes counts counted now₀ clock₀ i c w h alone in
      let early' = is_due-is_past now₀ t (h.set i t there).1 ∙ early.0 in
      let stays : registry c₁ i ≡ some t = rw (there, early') at s in
      let later = Calls-once rest now clock late c₁ w₁ i t h₁ alone₁ stays single early.1 due in
      Calls-more now₀ clock₀ (rest ++ (now, clock) ∷ late) c c₁ w w₁ i 0 1 none e
        (rw (there, early') at k) later

  -- Over a cache whose timers wait with their callbacks set, with fewer than 2 ^ 32 - 1 of them, a
  -- timer like these that fires once is registered, and its callback is that of no other timer. All
  -- callbacks return, and the world counts the calls of this one. If the timer has expired at none
  -- of some rounds and at the next one, then over these rounds and any that follow all calls
  -- return, one call of its callback is counted, and afterwards no timer has its identifier.
  pub serves-register_timer :
      (t : Timer C) (early : List (ℤ × (ℕ → ℤ))) (now : ℤ) (clock : ℕ → ℤ)
      (late : List (ℤ × (ℕ → ℤ))) (c : TimersCache C) (w : W)
      → IsReady c
      → length c.timers + 2 ≤ 2 ^ 32
      → IsArmed t
      → hit run is_it t ≡ true
      → ((j : ℕ) (u : Timer C) → registry c j ≡ some u → hit run is_it u ≡ false)
      → t.repeatable ≡ false
      → AllEarly t early
      → is_past now t ≡ true
      → (c₁ : TimersCache C) × (i : ℕ) × (register_timer (some t) c ≡ returns (c₁, i))
        × Calls (early ++ (now, clock) ∷ late) c₁ w i 1 none
  unfolding set_timer_id
  serves-register_timer t early now clock late c w h room set its others single early_ones due =
      let (c₁, i, e, v, f, view, _b, _n) = register_timer_lem c h.valid t room in
      let ready = register_timer-IsReady t c c₁ i set h v view in
      let free = find_timer-free i c.timers f.free in
      let alone =
        register_timer-IsAlone run is_it completes counts counted t i c c₁ free its others view in
      let there : registry c₁ i ≡ some (set_timer_id i t) = ground (arith, view i) in
      (
        c₁,
        i,
        e,
        Calls-once early now clock late c₁ w i (set_timer_id i t) ready alone there single
            (AllEarly-set_timer_id i t early early_ones) due,
      )
