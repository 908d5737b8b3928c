-- ===== src/Containers/Map.antt =====
-- `std::map` with 32-bit unsigned keys, as far as the program uses it: `find`, `emplace` (which
-- leaves an entry that is there alone) and `erase`. The order of the entries is never observed.
use process_manager_module.Base.{
  ℕ, ◌≡◌, refl, List, [], ◌∷◌, Option, none, some, arith, if◌then◌else◌, ◌==◌, true, false, ap, sym,
  ◌⊎◌, inl, inr, Bool-cases,
}

module _ {V : Type 0} where
  unfoldable pub find : ℕ → List (ℕ × V) → Option V
  find k [] = none
  find k ((j, v) ∷ m) = if j == k then some v else find k m

  unfoldable pub emplace : ℕ → V → List (ℕ × V) → List (ℕ × V)
  emplace k v [] = (k, v) ∷ []
  emplace k v ((j, w) ∷ m) = if j == k then (j, w) ∷ m else (j, w) ∷ emplace k v m

  unfoldable pub erase : ℕ → List (ℕ × V) → List (ℕ × V)
  erase k [] = []
  erase k ((j, v) ∷ m) = if j == k then erase k m else (j, v) ∷ erase k m

  abbrev pub or_else : Option V → Option V → Option V
  or_else none d = d
  or_else (some v) d = some v

  pub find-emplace :
      (k j : ℕ) (v : V) (m : List (ℕ × V))
      → find j (emplace k v m) ≡ (if k == j then or_else (find k m) (some v) else find j m)
  unfolding find emplace
  find-emplace k j v [] = refl
  find-emplace k j v ((i, w) ∷ m) = ground (arith, find-emplace k j v m)

  pub find-erase :
      (k j : ℕ) (m : List (ℕ × V)) → find j (erase k m) ≡ (if k == j then none else find j m)
  unfolding find erase
  find-erase k j [] = ground arith
  find-erase k j ((i, w) ∷ m) = ground (arith, find-erase k j m)

  -- Two keys are one, and so are their entries; or they differ.
  pub key_cases :
      (k j : ℕ) (m : List (ℕ × V))
      → (((k == j) ≡ true) × (find j m ≡ find k m)) ⊎ ((k == j) ≡ false)
  key_cases k j m = elim (Bool-cases (k == j)) [
    | inl hit ↦ let same : k ≡ j = ground arith in inl (hit, ap (λ z. find z m) (sym same))
    | inr miss ↦ inr miss
  ]
