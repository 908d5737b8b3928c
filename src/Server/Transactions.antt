-- ===== src/Server/Transactions.antt =====
-- The transactions of the server: which timer repeats the message of a transaction, until the
-- response to it ends both.
use process_manager_module.Base.{
  ℕ, ◌+◌, ◌^◌, ◌≤◌, ◌≡◌, ◌≢◌, refl, ap, true, List, Option, none, some, returns, if◌then◌else◌,
  ◌==◌, length, arith, Option-cases, inl, inr,
}
use process_manager_module.Base.Int.{ℤ}
use process_manager_module.Containers.Map
use process_manager_module.Containers.Map.{or_else, find-emplace, find-erase}
use process_manager_module.TimersCache.Invariant.{IsValid}
use process_manager_module.TimersCache.Views.{find_timer-free}
use process_manager_module.TimersCache.Refinement.{Registry, registry, drop, remove_timer_lem}
use process_manager_module.MessageQueue
use process_manager_module.Timer.{Timer, set_timer_id}
use process_manager_module.Messages.{Message, success, other_response_code, transaction_code_of}
use process_manager_module.Server.State.{Destination, Callback, Settings, Server, Cache}
use process_manager_module.Server.Requests.{enqueue}
use process_manager_module.Server.Receiving.{handle_response}
use process_manager_module.Server.Sending.{
  SentIf, Registered, resend_timer, sent, queued, enqueue_lem,
}

-- What is left of the timer of the transaction `k` when the one under `code` has ended, or none has.
abbrev pub timer_without : Option ℕ → ℕ → ℕ → Option ℕ → Option ℕ
timer_without none code k o = o
timer_without (some i) code k o = if code == k then none else o

module _ {Any Address : Type 0} where
  -- The timer of the transaction that a message ends, if it does: it is a response of success, and
  -- its code is that of a transaction.
  abbrev pub ended_transaction : Message Any → Server Any Address → Option ℕ
  ended_transaction m s = elim m.response [
    | none ↦ none
    | some code ↦ elim code [
      | success ↦ Map.find (transaction_code_of m) s.transaction_and_timer_id
      | other_response_code n ↦ none
    ]
  ]

  -- What is left of a registry.
  abbrev pub without : Option ℕ → Registry (Callback Any Address) → Registry (Callback Any Address)
  without none r = r
  without (some i) r = drop i r

  -- Nothing but the transactions differs.
  abbrev pub SameButTransactions : Server Any Address → Server Any Address → Type 0
  SameButTransactions s s' =
      s' ≡ record s { transaction_and_timer_id = s'.transaction_and_timer_id }

  -- Over a valid cache the handling of a response returns and keeps the cache valid. If the response
  -- is one of success and its code that of a transaction, that transaction and its timer are gone,
  -- and no others; otherwise all transactions and timers are as they were. Nothing else of the server
  -- changes.
  pub handle_response_lem :
      (m : Message Any) (s : Server Any Address) (c : Cache Any Address)
      → IsValid c
      → (s' : Server Any Address) × (c' : Cache Any Address) × (handle_response m (s, c)
          ≡ returns (s', c'))
        × IsValid c'
        × SameButTransactions s s'
        × ((k : ℕ)
            → Map.find k s'.transaction_and_timer_id
              ≡ timer_without
                  (ended_transaction m s)
                  (transaction_code_of m)
                  k
                  (Map.find k s.transaction_and_timer_id))
        × ((j : ℕ) → registry c' j ≡ without (ended_transaction m s) (registry c) j)
  unfolding handle_response
  handle_response_lem m s c v = elim (Option-cases m.response) [
    | inl e ↦ (s, c, rw e, v, refl, λ k. rw e, λ j. rw e)
    | inr (other_response_code n, e) ↦ (s, c, rw e, v, refl, λ k. rw e, λ j. rw e)
    | inr (success, e) ↦
        elim (Option-cases (Map.find (transaction_code_of m) s.transaction_and_timer_id)) [
          | inl f ↦ (s, c, ground arith, v, refl, λ k. rw (e, f), λ j. rw (e, f))
          | inr (i, f) ↦
              let (c', h, v', r) = remove_timer_lem c v i in
              (
                record s {
                  transaction_and_timer_id =
                      Map.erase (transaction_code_of m) s.transaction_and_timer_id;
                },
                c',
                ground arith,
                v',
                refl,
                λ k. rw (e, f) (find-erase (transaction_code_of m) k s.transaction_and_timer_id),
                λ j. rw (e, f) (r j),
              )
        ]
  ]

module _ {Any Address : Type 0} (settings : Settings) (serialize_to_string : Message Any → List ℕ)
    (now : ℤ) (d : Destination Address) (m r : Message Any) (s : Server Any Address)
    (c : Cache Any Address) where
  -- The message `m` is sent by an idle server and answered by `r`.
  pub record Exchange : Type 0 where
    pub sent_server : Server Any Address
    pub sent_cache : Cache Any Address
    pub server : Server Any Address
    pub cache : Cache Any Address
    pub sending :
        enqueue settings serialize_to_string now d m (s, c)
        ≡ returns ((sent_server, sent_cache), true)
    pub answering : handle_response r (sent_server, sent_cache) ≡ returns (server, cache)
    pub valid : IsValid cache

  pub sent_when_idle :
      IsValid c
      → length c.timers + 2 ≤ 2 ^ 32
      → MessageQueue.empty s.message_queue ≡ true
      → (i : ℕ) × (c' : Cache Any Address) × (enqueue settings serialize_to_string now d m (s, c)
          ≡ returns (
            (
              sent settings serialize_to_string d m i (queued settings serialize_to_string d m s),
              c',
            ),
            true,
          ))
        × Registered settings serialize_to_string c c' i
            (resend_timer settings serialize_to_string now d m)
  sent_when_idle v room idle =
      let (s', c', e, h) = enqueue_lem settings serialize_to_string now s c d m v room in
      let h' : SentIf settings serialize_to_string true now d m (s, c) (s', c') = rw idle at h in
      let (i, same, g) = h' in (i, c', rw (e, idle, same), g)

  -- Over a valid cache with fewer than 2 ^ 32 - 1 timers, a message that a server with an empty queue
  -- sends under a code of no transaction, and the answer of success to it under the same code: both
  -- calls return, the first answers true, and afterwards the transactions and the timers are what
  -- they were before the message was sent.
  pub answer-enqueue :
      IsValid c
      → length c.timers + 2 ≤ 2 ^ 32
      → MessageQueue.empty s.message_queue ≡ true
      → r.response ≡ some success
      → transaction_code_of r ≡ transaction_code_of m
      → Map.find (transaction_code_of m) s.transaction_and_timer_id ≡ none
      → (x : Exchange) × ((k : ℕ)
          → Map.find k x.server.transaction_and_timer_id ≡ Map.find k s.transaction_and_timer_id)
        × ((j : ℕ) → registry x.cache j ≡ registry c j)
  answer-enqueue v room idle ok same fresh =
      let (i, c', e, g) = sent_when_idle v room idle in
      let s' =
        sent settings serialize_to_string d m i (queued settings serialize_to_string d m s) in
      let (s'', c'', a, v', o, t, q) = handle_response_lem r s' c' g.valid in
      let ends : ended_transaction r s' ≡ some i = ground (
        arith,
        find-emplace (transaction_code_of m) (transaction_code_of m) i s.transaction_and_timer_id,
      ) in
      (
        record {
          sent_server = s';
          sent_cache = c';
          server = s'';
          cache = c'';
          sending = e;
          answering = a;
          valid = v';
        },
        λ k.
            ground
              (arith, t k, find-emplace (transaction_code_of m) k i s.transaction_and_timer_id),
        λ j. ground (arith, q j, g.view j, find_timer-free i c.timers g.fresh.free),
      )

  -- Over a valid cache with fewer than 2 ^ 32 - 1 timers, a message that a server with an empty
  -- queue sends under the code of a transaction whose timer is registered, and the answer of
  -- success to it under that code: both calls return, the code has no transaction any more, and the
  -- timer of the new message, which is another one, stays registered.
  pub answer-enqueue_collision :
      (i₀ : ℕ) (t₀ : Timer (Callback Any Address))
      → IsValid c
      → length c.timers + 2 ≤ 2 ^ 32
      → MessageQueue.empty s.message_queue ≡ true
      → r.response ≡ some success
      → transaction_code_of r ≡ transaction_code_of m
      → Map.find (transaction_code_of m) s.transaction_and_timer_id ≡ some i₀
      → registry c i₀ ≡ some t₀
      → (x : Exchange) × (i : ℕ) × (i ≢ i₀)
        × (Map.find (transaction_code_of m) x.server.transaction_and_timer_id ≡ none)
        × (registry x.cache i
            ≡ some (set_timer_id i (resend_timer settings serialize_to_string now d m)))
  answer-enqueue_collision i₀ t₀ v room idle ok same taken used =
      let (i, c', e, g) = sent_when_idle v room idle in
      let s' =
        sent settings serialize_to_string d m i (queued settings serialize_to_string d m s) in
      let (s'', c'', a, v', o, t, q) = handle_response_lem r s' c' g.valid in
      let ends : ended_transaction r s' ≡ some i₀ = ground (
        arith,
        find-emplace (transaction_code_of m) (transaction_code_of m) i s.transaction_and_timer_id,
      ) in
      let free : registry c i ≡ none = find_timer-free i c.timers g.fresh.free in
      let other : i ≢ i₀ = λ z. ground (arith, ap (registry c) z) in
      (
        record {
          sent_server = s';
          sent_cache = c';
          server = s'';
          cache = c'';
          sending = e;
          answering = a;
          valid = v';
        },
        i,
        other,
        ground (arith, t (transaction_code_of m)),
        ground (arith, q i, g.view i),
      )
