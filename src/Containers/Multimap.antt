-- ===== src/Containers/Multimap.antt =====
-- `std::multimap`: its entries in iteration order. `insert` puts the new entry behind the entries
-- with an equivalent key (the upper bound of their range), as the standard says.
use process_manager_module.Base.{
  Bool, true, false, ◌≡◌, refl, ◌∙◌, ◌++◌, List, [], ◌∷◌, All, All-map, arith, if◌then◌else◌,
  length, suc, Bool-cases, inl, inr,
}
use process_manager_module.Containers.Order.{Order}

module _ {K V : Type 0} ⦃o : Order K⦄ where
  unfoldable pub insert : K → V → List (K × V) → List (K × V)
  insert k v [] = (k, v) ∷ []
  insert k v ((j, w) ∷ m) = if o.less k j then (k, v) ∷ (j, w) ∷ m else (j, w) ∷ insert k v m

  -- No entry of `m` comes before the key `k`.
  abbrev pub NoneBefore : K → List (K × V) → Type 0
  NoneBefore k = All (λ e. o.less e.0 k ≡ false)

  abbrev pub IsSorted : List (K × V) → Type 0
  IsSorted [] = Unit
  IsSorted ((k, v) ∷ m) = NoneBefore k m × IsSorted m

  -- `lower_bound` and `upper_bound`, as the entries that are left from there on, and the range
  -- between them.
  unfoldable pub lower_bound : K → List (K × V) → List (K × V)
  lower_bound k [] = []
  lower_bound k ((j, w) ∷ m) = let rest = lower_bound k m in if o.less j k then rest else (j, w) ∷ m

  unfoldable pub until_upper_bound : K → List (K × V) → List (K × V)
  until_upper_bound k [] = []
  until_upper_bound k ((j, w) ∷ m) =
      let rest = until_upper_bound k m in if o.less k j then [] else (j, w) ∷ rest

  unfoldable pub equal_range : K → List (K × V) → List (K × V)
  equal_range k m = until_upper_bound k (lower_bound k m)

module _ {K V : Type 0} ⦃o : Order K⦄ where
  pub insert-All {κ} :
      (P : K × V → Type κ) (k : K) (v : V) (m : List (K × V))
      → P (k, v)
      → All P m
      → All P (insert k v m)
  unfolding insert
  insert-All P k v [] p h = (p, tt)
  insert-All P k v ((j, w) ∷ m) p h = elim (Bool-cases (o.less k j)) [
    | inl before ↦ rw before (p, h)
    | inr after ↦ rw after (h.0, insert-All P k v m p h.1)
  ]

  NoneBefore-trans :
      (a b : K) (m : List (K × V)) → o.less b a ≡ false → NoneBefore b m → NoneBefore a m
  NoneBefore-trans a b m h n =
      All-map (λ e. o.less e.0 b ≡ false) (λ e. o.less e.0 a ≡ false) m
        (λ e he. o.less_trans_ge e.0 b a he h) n

  -- Insertion keeps the entries sorted.
  pub insert-IsSorted : (k : K) (v : V) (m : List (K × V)) → IsSorted m → IsSorted (insert k v m)
  unfolding insert
  insert-IsSorted k v [] h = (tt, tt)
  insert-IsSorted k v ((j, w) ∷ m) h = elim (Bool-cases (o.less k j)) [
    | inl before ↦
        rw before
          ((o.less_asymm k j before, NoneBefore-trans k j m (o.less_asymm k j before) h.0), h)
    | inr after ↦ rw after (insert-All _ k v m after h.0, insert-IsSorted k v m h.1)
  ]

  pub length-insert : (k : K) (v : V) (m : List (K × V)) → length (insert k v m) ≡ suc (length m)
  unfolding insert
  length-insert k v [] = refl
  length-insert k v ((j, w) ∷ m) = ground (arith, length-insert k v m)

module _ {K : Type 0} ⦃o : Order K⦄ where
  abbrev pub equivalent : K → K → Bool
  equivalent k j = if o.less k j then false else if o.less j k then false else true

  less_of_late : (k j i : K) → o.less k j ≡ true → o.less i j ≡ false → o.less k i ≡ true
  less_of_late k j i h g = elim (Bool-cases (o.less k i)) [
    | inl e ↦ e
    | inr e ↦ let clash : o.less k j ≡ false = o.less_trans_ge k i j e g in cc
  ]

-- The entries with a key, in order of insertion: what the map stands for.
module _ {K V : Type 0} ⦃o : Order K⦄ where
  unfoldable pub with_key : K → List (K × V) → List (K × V)
  with_key k [] = []
  with_key k ((j, w) ∷ m) = if equivalent k j then (j, w) ∷ with_key k m else with_key k m

  -- Behind a key that comes after `k` there is no entry for `k`.
  with_key-late :
      (k j : K) (m : List (K × V)) → o.less k j ≡ true → NoneBefore j m → with_key k m ≡ []
  unfolding with_key
  with_key-late k j [] h n = refl
  with_key-late k j ((i, w) ∷ m) h n =
      ground (arith, less_of_late k j i h n.0, with_key-late k j m h n.1)

  until_upper_bound-with_key :
      (k : K) (m : List (K × V))
      → IsSorted m
      → NoneBefore k m
      → until_upper_bound k m ≡ with_key k m
  unfolding until_upper_bound with_key
  until_upper_bound-with_key k [] s n = refl
  until_upper_bound-with_key k ((j, w) ∷ m) s n =
      ground (arith, until_upper_bound-with_key k m s.1 n.1, with_key-late k j m)

  -- In sorted entries the range that `equal_range` gives is the entries with the key.
  pub equal_range-with_key :
      (k : K) (m : List (K × V)) → IsSorted m → equal_range k m ≡ with_key k m
  unfolding equal_range lower_bound with_key
  equal_range-with_key k [] s = unfold until_upper_bound in refl
  equal_range-with_key k ((j, w) ∷ m) s = elim (Bool-cases (o.less j k)) [
    | inl early ↦
        rw (early, o.less_asymm j k early) (unfold equal_range in equal_range-with_key k m s.1)
    | inr late ↦ rw late (
        until_upper_bound-with_key k ((j, w) ∷ m) s (late, NoneBefore-trans k j m late s.0)
        ∙ unfold with_key in (rw late refl))
  ]

  -- Insertion puts an entry behind those with its key.
  pub with_key-insert :
      (k j : K) (v : V) (m : List (K × V))
      → IsSorted m
      → with_key k (insert j v m)
        ≡ (if equivalent k j then with_key k m ++ (j, v) ∷ [] else with_key k m)
  unfolding insert with_key
  with_key-insert k j v [] s = ground arith
  with_key-insert k j v ((i, w) ∷ m) s = ground (
    arith,
    with_key-insert k j v m s.1,
    with_key-late k i m,
    o.less_antisymm k j,
    o.less_asymm j i,
  )
