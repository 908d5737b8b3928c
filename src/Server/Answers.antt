-- ===== src/Server/Answers.antt =====
-- The answers to several transactions, in the order in which they happen to come
-- (Server::handleResponse of Source/src/ModuleServer.cpp, once for each).
use process_manager_module.Base.{
  ℕ, ◌≡◌, ◌≢◌, refl, ap, ◌∙◌, Bool, true, false, List, [], ◌∷◌, none, some, Outcome, returns, ◌>>=◌,
  if◌then◌else◌, ◌==◌, arith, Option-cases, inl, inr,
}
use process_manager_module.Containers.Map
use process_manager_module.Containers.Map.{key_cases}
use process_manager_module.TimersCache.Invariant.{IsValid}
use process_manager_module.TimersCache.Refinement.{registry}
use process_manager_module.Messages.{Message, success, transaction_code_of}
use process_manager_module.Server.State.{Server, Cache, State}
use process_manager_module.Server.Receiving.{handle_response}
use process_manager_module.Server.Transactions.{
  ended_transaction, SameButTransactions, handle_response_lem,
}

module _ {Any : Type 0} where
  -- Each is one of success.
  abbrev pub AllSucceed : List (Message Any) → Type 0
  AllSucceed [] = Unit
  AllSucceed (m ∷ ms) = (m.response ≡ some success) × AllSucceed ms

  -- One of them is under this transaction code.
  abbrev pub answers : List (Message Any) → ℕ → Bool
  answers [] code = false
  answers (m ∷ ms) code = if transaction_code_of m == code then true else answers ms code

module _ {Any Address : Type 0} where
  -- The responses are handled one after the other.
  pub handle_responses : List (Message Any) → State Any Address → Outcome (State Any Address)
  handle_responses [] x = returns x
  handle_responses (m ∷ ms) x = do y ← handle_response m x; handle_responses ms y

  -- From the first state to the second the transactions that are answered have ended, and their
  -- timers, and nothing else has.
  pub record Answered (ms : List (Message Any)) (s s' : Server Any Address)
      (c c' : Cache Any Address) : Type 0 where
    pub valid : IsValid c'
    pub same : SameButTransactions s s'
    pub transactions :
        (code : ℕ)
        → Map.find code s'.transaction_and_timer_id
          ≡ (if answers ms code then none else Map.find code s.transaction_and_timer_id)
    pub ended :
        (code i : ℕ)
        → answers ms code ≡ true
        → Map.find code s.transaction_and_timer_id ≡ some i
        → registry c' i ≡ none
    pub kept :
        (i : ℕ)
        → ((code : ℕ) → answers ms code ≡ true → Map.find code s.transaction_and_timer_id ≢ some i)
        → registry c' i ≡ registry c i
    pub gone : (i : ℕ) → registry c i ≡ none → registry c' i ≡ none

  answer :
      (m : Message Any) (s : Server Any Address) (c : Cache Any Address)
      → m.response ≡ some success
      → IsValid c
      → (s' : Server Any Address) × (c' : Cache Any Address) × (handle_response m (s, c)
          ≡ returns (s', c'))
        × Answered (m ∷ []) s s' c c'
  answer m s c ok v =
      let code = transaction_code_of m in
      let (s', c', e, v', same, t, q) = handle_response_lem m s c v in
      let ends : ended_transaction m s ≡ Map.find code s.transaction_and_timer_id = rw ok in
      let split = λ (k : ℕ). key_cases code k s.transaction_and_timer_id in
      (
        s',
        c',
        e,
        elim (Option-cases (Map.find code s.transaction_and_timer_id)) [
          | inl f ↦ record {
            valid = v';
            same = same;
            transactions = λ k. ground (arith, t k, split k);
            ended = λ k i h found. absurd (ground (arith, split k));
            kept = λ i own. ground (arith, q i);
            gone = λ i h. ground (arith, q i);
          }
          | inr (j, f) ↦ record {
            valid = v';
            same = same;
            transactions = λ k. ground (arith, t k, split k);
            ended = λ k i h found. ground (arith, q i, split k);
            kept = λ i own. ground (arith, q i, own code, ap (λ z. some z) {x = j} {y = i});
            gone = λ i h. ground (arith, q i);
          }
        ],
      )

  pub handle_responses_lem :
      (ms : List (Message Any)) (s : Server Any Address) (c : Cache Any Address)
      → AllSucceed ms
      → IsValid c
      → (s' : Server Any Address) × (c' : Cache Any Address) × (handle_responses ms (s, c)
          ≡ returns (s', c'))
        × Answered ms s s' c c'
  unfolding handle_responses
  handle_responses_lem [] s c ok v = (
    s,
    c,
    refl,
    record {
      valid = v;
      same = refl;
      transactions = λ k. refl;
      ended = λ k i h. absurd (ground arith);
      kept = λ i h. refl;
      gone = λ i h. h;
    },
  )
  handle_responses_lem (m ∷ ms) s c ok v =
      let (s₁, c₁, e, a) = answer m s c ok.0 v in
      let (s', c', e', b) = handle_responses_lem ms s₁ c₁ ok.1 a.valid in
      (
        s',
        c',
        rw e e',
        record {
          valid = b.valid;
          same =
              b.same
              ∙ ap {A = Server Any Address}
                  (λ z. record z { transaction_and_timer_id = s'.transaction_and_timer_id }) a.same;
          transactions = λ k. ground (arith, a.transactions k, b.transactions k);
          ended = λ k i h found.
              elim (key_cases (transaction_code_of m) k s.transaction_and_timer_id) [
                | inl hit ↦ b.gone i (a.ended k i (ground arith) found)
                | inr miss ↦ b.ended k i (ground arith) (ground (arith, a.transactions k))
              ];
          kept = λ i own.
              b.kept i (λ k h found. own k (ground arith) (ground (arith, a.transactions k)))
              ∙ a.kept i (λ k h found. own k (ground arith) found);
          gone = λ i h. b.gone i (a.gone i h);
        },
      )
