-- ===== src/Server/Exchanges.antt =====
-- Many messages at once: Server::sendRequest(uint32_t, ServiceModule::Message&) for each, the
-- completions of their sends, and Server::handleResponse for each answer
-- (Source/src/ModuleServer.cpp).
use Prim.Native.String.{String}
use mathlib.Core.List.{append-nil, append_assoc}
use process_manager_module.Base.{
  ℕ, ◌+◌, ◌^◌, ◌≤◌, ◌≡◌, refl, subst, ap, ◌∙◌, false, List, [], ◌∷◌, ◌++◌, map, Option, some,
  Outcome, returns, ◌>>=◌, arith, length, length-append,
}
use process_manager_module.Base.Int.{ℤ}
use process_manager_module.Containers.Map
use process_manager_module.Containers.Map.{key_cases}
use process_manager_module.TimersCache.Invariant.{IsValid}
use process_manager_module.TimersCache.Refinement.{registry}
use process_manager_module.MessageQueue
use process_manager_module.MessageQueue.{MessageQueue}
use process_manager_module.Messages.{Message, transaction_code_of}
use process_manager_module.Services.{Instance}
use process_manager_module.Server.State.{Destination, Settings, Server, Cache, State}
use process_manager_module.Server.Requests.{find_destination, send_message}
use process_manager_module.Server.Sending.{sent, queued, SentIf, datagram_of, enqueue_lem}
use process_manager_module.Server.Traffic.{link, datagram}
use process_manager_module.Server.Delivery.{completions, completions_drain, drained}
use process_manager_module.Server.Transactions.{sent_when_idle}
use process_manager_module.Server.Answers.{
  handle_responses, AllSucceed, answers, handle_responses_lem,
}
use process_manager_module.Server.Settled.{settled_transactions, settled_timers}
use process_manager_module.Server.Started.{
  carries, AllFresh, AllFresh-emplace, Started, Started-more, completions-Started,
}

module _ {Any Address : Type 0} (settings : Settings) (database : Instance)
    (from_string : String → Option Address) (serialize_to_string : Message Any → List ℕ) where
  -- The messages are sent one after the other, each to the service of its destination.
  pub send_messages :
      List (Destination Address × Message Any) → ℤ → State Any Address → Outcome (State Any Address)
  send_messages [] now x = returns x
  send_messages ((d, m) ∷ xs) now x = do
    (y, sent) ←
        send_message settings database from_string serialize_to_string now d.service_identifier m x
    send_messages xs now y

  -- The server finds each destination.
  abbrev pub AllFound : List (Destination Address × Message Any) → Server Any Address → Type 0
  AllFound [] s = Unit
  AllFound ((d, m) ∷ xs) s =
      (find_destination database from_string d.service_identifier s ≡ returns (some d))
      × AllFound xs s

  AllFound-frame :
      (xs : List (Destination Address × Message Any)) (s s' : Server Any Address)
      → s'.services_endpoints_map ≡ s.services_endpoints_map
      → AllFound xs s
      → AllFound xs s'
  unfolding find_destination
  AllFound-frame [] s s' e h = tt
  AllFound-frame ((d, m) ∷ xs) s s' e h = (rw e h.0, AllFound-frame xs s s' e h.1)

  -- The server with these messages behind those that wait.
  abbrev behind : List (Destination Address × Message Any) → Server Any Address → Server Any Address
  behind xs s = record s {
    message_queue = record { messages_queue = s.message_queue.messages_queue ++ xs };
  }

  send_messages-behind :
      (xs : List (Destination Address × Message Any)) (now : ℤ) (s : Server Any Address)
      (c : Cache Any Address)
      → MessageQueue.empty s.message_queue ≡ false
      → AllFound xs s
      → IsValid c
      → length c.timers + 2 ≤ 2 ^ 32
      → send_messages xs now (s, c) ≡ returns (behind xs s, c)
  unfolding send_messages send_message MessageQueue.empty
  send_messages-behind [] now s c busy found v room = rw append-nil
  send_messages-behind ((d, m) ∷ xs) now s c busy found v room =
      let (s', c', e, h) = enqueue_lem settings serialize_to_string now s c d m v room in
      let h' : SentIf settings serialize_to_string false now d m (s, c) (s', c') = rw busy at h in
      let s₁ = queued settings serialize_to_string d m s in
      let grown = length-append s.message_queue.messages_queue ((d, m) ∷ []) in
      let rest =
        send_messages-behind xs now s₁ c (ground arith) (AllFound-frame xs s s₁ refl found.1) v
          room in
      rw (found.0, e, h'.0, h'.1, rest) (rw append_assoc)

  -- A run of the server: messages are sent, the sends complete, and the answers come.
  pub record Exchanges (now : ℤ) (xs : List (Destination Address × Message Any))
      (ms : List (Message Any)) (s : Server Any Address) (c : Cache Any Address) : Type 0 where
    pub sending_server : Server Any Address
    pub sending_cache : Cache Any Address
    pub sent_server : Server Any Address
    pub sent_cache : Cache Any Address
    pub server : Server Any Address
    pub cache : Cache Any Address
    pub sending : send_messages xs now (s, c) ≡ returns (sending_server, sending_cache)
    pub completing :
        completions settings database from_string serialize_to_string
          (length xs)
          now
          (sending_server, sending_cache)
        ≡ returns (sent_server, sent_cache)
    pub answering : handle_responses ms (sent_server, sent_cache) ≡ returns (server, cache)
    pub valid : IsValid cache

  pub handle_responses-send_messages :
      (now : ℤ) (d : Destination Address) (m : Message Any)
      (xs : List (Destination Address × Message Any)) (ms : List (Message Any))
      (s : Server Any Address) (c : Cache Any Address)
      → s.message_queue.messages_queue ≡ []
      → s.in_flight ≡ []
      → IsValid c
      → length c.timers + length xs + 3 ≤ 2 ^ 32
      → AllFound ((d, m) ∷ xs) s
      → AllFresh ((d, m) ∷ xs) s.transaction_and_timer_id
      → AllSucceed ms
      → ((code : ℕ) → answers ms code ≡ carries ((d, m) ∷ xs) code)
      → (x : Exchanges now ((d, m) ∷ xs) ms s c) × ((code : ℕ)
          → Map.find code x.server.transaction_and_timer_id
            ≡ Map.find code s.transaction_and_timer_id)
        × ((j : ℕ) → registry x.cache j ≡ registry c j)
        × (link x.server
            ≡ drained settings database from_string serialize_to_string
                (s.handed_over ++ map (datagram settings serialize_to_string) ((d, m) ∷ xs)))
  unfolding send_messages send_message MessageQueue.empty
  handle_responses-send_messages now d m xs ms s c idle calm v room found fresh ok all =
      let (i, c₁, e₁, r) =
        sent_when_idle settings serialize_to_string now d m m s c v (omega arith) (rw idle) in
      let s₁ =
        sent settings serialize_to_string d m i (queued settings serialize_to_string d m s) in
      let s₂ = behind xs s₁ in
      let e₂ =
        send_messages-behind xs now s₁ c₁ (rw idle) (AllFound-frame xs s s₁ refl found.1) r.valid
          (omega (arith, r.count)) in
      let head : s₂.in_flight ≡ datagram_of settings serialize_to_string d m ∷ [] = rw calm in
      let waits : s₂.message_queue.messages_queue ≡ (d, m) ∷ xs = rw idle in
      let (s', c', e', l, v') =
        completions_drain settings database from_string serialize_to_string xs now s₂ c₁ _ (d, m)
          head waits r.valid (omega (arith, r.count)) in
      let (t', d', f', h) =
        completions-Started settings database from_string serialize_to_string xs now s₂ c₁ _ (d, m)
          head waits
          (AllFresh-emplace xs (transaction_code_of m) i s.transaction_and_timer_id fresh.1 fresh.2)
          r.valid (omega (arith, r.count)) in
      let one : ◌≡◌ {A = State Any Address} (t', d') (s', c') = cc (e', f') in
      let h₁ : Started xs s₂ s' c₁ c' = subst (λ y. Started xs s₂ y.0 c₁ y.1) one h in
      let started =
        Started-more settings serialize_to_string now d m xs s s₂ s' c c₁ c' i refl fresh r h₁ in
      let (s'', c'', a', a) = handle_responses_lem ms s' c' ok v' in
      (
        record {
          sending_server = s₂;
          sending_cache = c₁;
          sent_server = s';
          sent_cache = c';
          server = s'';
          cache = c'';
          sending = rw (found.0, e₁) e₂;
          completing = e';
          answering = a';
          valid = a.valid;
        },
        settled_transactions ((d, m) ∷ xs) ms s s' s'' c c' c'' fresh all started a,
        settled_timers ((d, m) ∷ xs) ms s s' s'' c c' c'' all started a,
        ap link a.same
            ∙ l
            ∙ ap (drained settings database from_string serialize_to_string) (
                append_assoc s.handed_over (datagram_of settings serialize_to_string d m ∷ [])
                  (map (datagram settings serialize_to_string) xs)),
      )
