-- ===== src/Server/Started.antt =====
-- Which transactions and timers the completions of several sends bring (Server::startTimerToResend
-- of Source/src/ModuleServer.cpp, once for each message that is sent).
use Prim.Native.String.{String}
use process_manager_module.Base.{
  ℕ, suc, ◌+◌, ◌^◌, ◌≤◌, ◌≡◌, refl, ap, ◌∙◌, ◌⊎◌, Bool, true, false, List, [], ◌∷◌, Option, none,
  some, returns, if◌then◌else◌, ◌==◌, arith, length, Bool-cases, inl, inr,
}
use process_manager_module.Base.Int.{ℤ}
use process_manager_module.Containers.Map
use process_manager_module.Containers.Map.{find-emplace, key_cases}
use process_manager_module.TimersCache.Invariant.{IsValid}
use process_manager_module.TimersCache.Views.{find_timer-free}
use process_manager_module.TimersCache.Refinement.{registry}
use process_manager_module.Messages.{Message, transaction_code_of}
use process_manager_module.Services.{Instance}
use process_manager_module.Server.State.{Destination, Datagram, Settings, Server, Cache}
use process_manager_module.Server.Sending.{sent, resend_timer, Registered, datagram_of}
use process_manager_module.Server.Delivery.{
  completions, waiting_with, complete_send_last, complete_send_next,
}

module _ {Any Address : Type 0} where
  -- One of the messages has this transaction code.
  abbrev pub carries : List (Destination Address × Message Any) → ℕ → Bool
  carries [] code = false
  carries ((d, m) ∷ xs) code = if transaction_code_of m == code then true else carries xs code

  -- The messages have different codes, none of which is that of a transaction.
  abbrev pub AllFresh : List (Destination Address × Message Any) → List (ℕ × ℕ) → Type 0
  AllFresh [] transactions = Unit
  AllFresh ((d, m) ∷ xs) transactions =
      (Map.find (transaction_code_of m) transactions ≡ none)
      × (carries xs (transaction_code_of m) ≡ false)
      × AllFresh xs transactions

  pub AllFresh-emplace :
      (xs : List (Destination Address × Message Any)) (code i : ℕ) (transactions : List (ℕ × ℕ))
      → carries xs code ≡ false
      → AllFresh xs transactions
      → AllFresh xs (Map.emplace code i transactions)
  AllFresh-emplace [] code i ts others h = tt
  AllFresh-emplace ((d, m) ∷ xs) code i ts others h = (
    ground (arith, find-emplace code (transaction_code_of m) i ts),
    h.1,
    AllFresh-emplace xs code i ts (ground arith) h.2,
  )

  -- From the first state to the second the messages have begun a transaction each, with a timer
  -- that is new, and nothing else has happened to transactions and timers.
  pub record Started (xs : List (Destination Address × Message Any)) (s s' : Server Any Address)
      (c c' : Cache Any Address) : Type 0 where
    pub valid : IsValid c'
    pub kept :
        (code : ℕ)
        → carries xs code ≡ false
        → Map.find code s'.transaction_and_timer_id ≡ Map.find code s.transaction_and_timer_id
    pub given :
        (code : ℕ)
        → carries xs code ≡ true
        → (i : ℕ) × (Map.find code s'.transaction_and_timer_id ≡ some i) × (registry c i ≡ none)
    pub view :
        (j : ℕ)
        → (registry c' j ≡ registry c j)
          ⊎ ((code : ℕ) × (carries xs code ≡ true)
              × (Map.find code s'.transaction_and_timer_id ≡ some j))

  pub Started-nothing :
      (s s' : Server Any Address) (c : Cache Any Address)
      → IsValid c
      → s'.transaction_and_timer_id ≡ s.transaction_and_timer_id
      → Started [] s s' c c
  Started-nothing s s' c v e = record {
    valid = v;
    kept = λ k h. rw e;
    given = λ k h. absurd (ground arith);
    view = λ j. inl refl;
  }

module _ {Any Address : Type 0} (settings : Settings)
    (serialize_to_string : Message Any → List ℕ) where
  -- One message more, ahead of the others; `s₁` has the transactions with the timer `i`.
  pub Started-more :
      (now : ℤ) (d : Destination Address) (m : Message Any)
      (xs : List (Destination Address × Message Any)) (s s₁ s' : Server Any Address)
      (c c₁ c' : Cache Any Address) (i : ℕ)
      → s₁.transaction_and_timer_id
        ≡ Map.emplace (transaction_code_of m) i s.transaction_and_timer_id
      → AllFresh ((d, m) ∷ xs) s.transaction_and_timer_id
      → Registered settings serialize_to_string c c₁ i
          (resend_timer settings serialize_to_string now d m)
      → Started xs s₁ s' c₁ c'
      → Started ((d, m) ∷ xs) s s' c c'
  Started-more now d m xs s s₁ s' c c₁ c' i e (new, apart, fresh) r h =
      let code = transaction_code_of m in
      let entered = λ (k : ℕ). find-emplace code k i s.transaction_and_timer_id in
      let free : registry c i ≡ none = find_timer-free i c.timers r.fresh.free in
      let own : Map.find code s'.transaction_and_timer_id ≡ some i =
        h.kept code apart ∙ rw e (ground (arith, entered code)) in
      record {
        valid = h.valid;
        kept = λ k others. h.kept k (ground arith) ∙ rw e (ground (arith, entered k));
        given = λ k has. elim (key_cases code k s'.transaction_and_timer_id) [
          | inl hit ↦ (i, hit.1 ∙ own, free)
          | inr miss ↦
              let (j, found, new_there) = h.given k (ground arith) in
              (j, found, ground (arith, r.view j))
        ];
        view = λ j. elim (h.view j) [
          | inr (k, has, found) ↦ inr (k, ground arith, found)
          | inl same ↦ elim (Bool-cases (i == j)) [
            | inl hit ↦
                let here : i ≡ j = ground arith in inr (code, ground arith, own ∙ ap some here)
            | inr miss ↦ inl (same ∙ ground (arith, r.view j))
          ]
        ];
      }

module _ {Any Address : Type 0} (settings : Settings) (database : Instance)
    (from_string : String → Option Address) (serialize_to_string : Message Any → List ℕ) where
  -- With the head of the queue in flight, room for the timers, and messages behind the head whose
  -- codes are different and fresh: the completions start them all.
  pub completions-Started :
      (xs : List (Destination Address × Message Any)) (now : ℤ) (s : Server Any Address)
      (c : Cache Any Address) (g : Datagram Address) (x : Destination Address × Message Any)
      → s.in_flight ≡ g ∷ []
      → s.message_queue.messages_queue ≡ x ∷ xs
      → AllFresh xs s.transaction_and_timer_id
      → IsValid c
      → length c.timers + length xs + 1 ≤ 2 ^ 32
      → (s' : Server Any Address) × (c' : Cache Any Address) × (completions settings database
            from_string serialize_to_string
            (suc (length xs))
            now
            (s, c)
          ≡ returns (s', c'))
        × Started xs s s' c c'
  unfolding completions
  completions-Started [] now s c g x f q fresh v room = (
    waiting_with settings database from_string serialize_to_string [] s,
    c,
    rw (complete_send_last settings database from_string serialize_to_string now s c g x f q),
    Started-nothing s (waiting_with settings database from_string serialize_to_string [] s) c v
        refl,
  )
  completions-Started ((d, m) ∷ ys) now s c g x f q fresh v room =
      let code = transaction_code_of m in
      let (i, c₁, e, r) =
        complete_send_next settings database from_string serialize_to_string now s c g x d m ys f q
          v (omega arith) in
      let s₁ =
        sent settings serialize_to_string d m i
          (waiting_with settings database from_string serialize_to_string ((d, m) ∷ ys) s) in
      let (s', c', e', h) =
        completions-Started ys now s₁ c₁ (datagram_of settings serialize_to_string d m) (d, m) refl
          refl (AllFresh-emplace ys code i s.transaction_and_timer_id fresh.1 fresh.2) r.valid
          (omega (arith, r.count)) in
      (
        s',
        c',
        rw e e',
        Started-more settings serialize_to_string now d m ys s s₁ s' c c₁ c' i refl fresh r h,
      )
