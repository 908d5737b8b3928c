-- ===== src/System/Links.antt =====
-- What the operations of the two maps do to the link between transactions and timers.
use process_manager_module.Base.{
  ℕ, ◌≡◌, sym, ap, subst, ◌∙◌, List, none, some, arith, ◌==◌, Bool-cases, Option-cases, inl, inr,
}
use process_manager_module.Containers.Map
use process_manager_module.Containers.Map.{find-emplace, find-erase}
use process_manager_module.Timer.{Timer}
use process_manager_module.TimersCache.Refinement.{Registry, put, drop}
use process_manager_module.Server.State.{Callback}
use process_manager_module.System.{Repeats, Linked}

-- Every entry of the second map is one of the first.
abbrev pub Shrinks : List (ℕ × ℕ) → List (ℕ × ℕ) → Type 0
Shrinks m m' = (k j : ℕ) → Map.find k m' ≡ some j → Map.find k m ≡ some j

pub erase-Shrinks : (code : ℕ) (m : List (ℕ × ℕ)) → Shrinks m (Map.erase code m)
erase-Shrinks code m k j h = ground (arith, find-erase code k m)

pub find-erase_self : (code : ℕ) (m : List (ℕ × ℕ)) → Map.find code (Map.erase code m) ≡ none
find-erase_self code m = ground (arith, find-erase code code m)

module _ {Any Address : Type 0} where
  pub Linked-Shrinks :
      (m m' : List (ℕ × ℕ)) (r : Registry (Callback Any Address))
      → Shrinks m m'
      → Linked m r
      → Linked m' r
  Linked-Shrinks m m' r sub l k j h = l k j (sub k j h)

  pub Linked-view :
      (m : List (ℕ × ℕ)) (r r' : Registry (Callback Any Address))
      → ((j : ℕ) → r' j ≡ r j)
      → Linked m r
      → Linked m r'
  Linked-view m r r' same l k j h = let (t, e, p) = l k j h in (t, same j ∙ e, p)

  -- A transaction's timer is that of no other code.
  pub Repeats-injective :
      (code k : ℕ) (t : Timer (Callback Any Address)) → Repeats code t → Repeats k t → code ≡ k
  Repeats-injective code k t p q =
      let e : p.message ≡ q.message = cc (p.callback, q.callback) in
      sym p.same ∙ ap (λ m. m.transaction_code) e ∙ q.same

  pub Linked-kept :
      (m : List (ℕ × ℕ)) (r : Registry (Callback Any Address)) (k j i : ℕ)
      (t : Timer (Callback Any Address))
      → r i ≡ none
      → Linked m r
      → Map.find k m ≡ some j
      → (u : Timer (Callback Any Address)) × (put i t r j ≡ some u) × Repeats k u
  Linked-kept m r k j i t free l old =
      let (u, e, q) = l k j old in
      elim (Bool-cases (i == j)) [
        | inl hit ↦ let here : i ≡ j = ground arith in absurd (ground (arith, ap r here))
        | inr miss ↦ (u, ground arith, q)
      ]

  pub Linked-put :
      (m : List (ℕ × ℕ)) (r : Registry (Callback Any Address)) (code i : ℕ)
      (t : Timer (Callback Any Address))
      → r i ≡ none
      → Repeats code t
      → Linked m r
      → Linked (Map.emplace code i m) (put i t r)
  Linked-put m r code i t free p l k j h = elim (Bool-cases (code == k)) [
    | inr miss ↦ Linked-kept m r k j i t free l (ground (arith, find-emplace code k i m))
    | inl hit ↦
        let same : code ≡ k = ground arith in
        elim (Option-cases (Map.find code m)) [
          | inl new ↦
              let here : i ≡ j = ground (arith, find-emplace code k i m) in
              (t, ground arith, subst (λ c. Repeats c t) same p)
          | inr (j₀, old) ↦
              let there : j₀ ≡ j = ground (arith, find-emplace code k i m) in
              Linked-kept m r k j i t free l (rw (← same, ← there) old)
        ]
  ]

  pub Linked-drop :
      (m : List (ℕ × ℕ)) (r : Registry (Callback Any Address)) (code i : ℕ)
      → Map.find code m ≡ some i
      → Linked m r
      → Linked (Map.erase code m) (drop i r)
  Linked-drop m r code i found l k j h =
      let old = erase-Shrinks code m k j h in
      let (t, e, p) = l code i found in
      let (u, e', q) = l k j old in
      elim (Bool-cases (i == j)) [
        | inr miss ↦ (u, ground arith, q)
        | inl hit ↦
            let here : i ≡ j = ground arith in
            let one : t ≡ u = ground (arith, ap r here) in
            let k' : code ≡ k = Repeats-injective code k u (subst (Repeats code) one p) q in
            absurd (ground (arith, find-erase code k m))
      ]
