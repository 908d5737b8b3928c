-- ===== src/Server/Settled.antt =====
-- What is left of transactions that were started and then answered.
use process_manager_module.Base.{
  ℕ, ◌≡◌, sym, ap, ◌∙◌, true, List, [], ◌∷◌, none, arith, Option-cases, Bool-cases, inl, inr,
}
use process_manager_module.Containers.Map
use process_manager_module.Containers.Map.{key_cases}
use process_manager_module.TimersCache.Refinement.{registry}
use process_manager_module.Messages.{Message, transaction_code_of}
use process_manager_module.Server.State.{Destination, Server, Cache}
use process_manager_module.Server.Answers.{answers, Answered}
use process_manager_module.Server.Started.{carries, AllFresh, Started}

module _ {Any Address : Type 0} where
  AllFresh-find :
      (xs : List (Destination Address × Message Any)) (code : ℕ) (transactions : List (ℕ × ℕ))
      → AllFresh xs transactions
      → carries xs code ≡ true
      → Map.find code transactions ≡ none
  AllFresh-find [] code ts fresh h = absurd (ground arith)
  AllFresh-find ((d, m) ∷ xs) code ts fresh h = elim (key_cases (transaction_code_of m) code ts) [
    | inl hit ↦ hit.1 ∙ fresh.0
    | inr miss ↦ AllFresh-find xs code ts fresh.2 (ground arith)
  ]

  -- Transactions that are started and then answered leave nothing behind.
  pub settled_transactions :
      (xs : List (Destination Address × Message Any)) (ms : List (Message Any))
      (s s' s'' : Server Any Address) (c c' c'' : Cache Any Address)
      → AllFresh xs s.transaction_and_timer_id
      → ((code : ℕ) → answers ms code ≡ carries xs code)
      → Started xs s s' c c'
      → Answered ms s' s'' c' c''
      → (code : ℕ)
      → Map.find code s''.transaction_and_timer_id ≡ Map.find code s.transaction_and_timer_id
  settled_transactions xs ms s s' s'' c c' c'' fresh all h a k = elim (Bool-cases (carries xs k)) [
    | inl has ↦ a.transactions k ∙ rw (all k, has) (sym (AllFresh-find xs k _ fresh has))
    | inr others ↦ a.transactions k ∙ rw (all k, others) (h.kept k others)
  ]

  pub settled_timers :
      (xs : List (Destination Address × Message Any)) (ms : List (Message Any))
      (s s' s'' : Server Any Address) (c c' c'' : Cache Any Address)
      → ((code : ℕ) → answers ms code ≡ carries xs code)
      → Started xs s s' c c'
      → Answered ms s' s'' c' c''
      → (j : ℕ) → registry c'' j ≡ registry c j
  settled_timers xs ms s s' s'' c c' c'' all h a j = elim (Option-cases (registry c j)) [
    | inl free ↦ elim (h.view j) [
      | inl same ↦ a.gone j (same ∙ free) ∙ sym free
      | inr (k, has, found) ↦ a.ended k j (all k ∙ has) found ∙ sym free
    ]
    | inr (t, used) ↦ elim (h.view j) [
      | inl same ↦
          a.kept j (λ k has found.
            let (i, there, new) = h.given k (sym (all k) ∙ has) in
            let one : i ≡ j = ground arith in ground (arith, ap (registry c) one))
          ∙ same
      | inr (k, has, found) ↦
          let (i, there, new) = h.given k has in
          let one : i ≡ j = ground arith in absurd (ground (arith, ap (registry c) one))
    ]
  ]
