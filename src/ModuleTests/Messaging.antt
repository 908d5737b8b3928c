-- ===== src/ModuleTests/Messaging.antt =====
-- Tests/ModuleServerTests/ModuleServerTests.cpp: a server with ten services in its map and one in the
-- database is asked to send a request. The mock of `sendToDestination` notes the destinations that
-- it is called with, which the log of the socket shows here.
use Prim.Native.String.{String}
use process_manager_module.Base.{
  ℕ, ◌^◌, ◌<◌, ◌≡◌, Bool, true, false, List, [], ◌∷◌, map, Option, none, some, Outcome, returns,
  throws, hangs, ◌>>=◌, if◌then◌else◌, ltb, arith, Bool-cases, inl, inr,
}
use process_manager_module.Base.Int.{ℤ}
use process_manager_module.Identifier.{to_service_identifier}
use process_manager_module.TimersCache.{new_cache, size}
use process_manager_module.TimersCache.Invariant.{new_cache-IsValid}
use process_manager_module.MessageQueue
use process_manager_module.Messages.{Message}
use process_manager_module.Services.{Instance}
use process_manager_module.Server.State.{Endpoint, Destination, Settings, State, new_server}
use process_manager_module.Server.Requests.{find_destination, send_request, send_message}
use process_manager_module.Server.Steps.{here}
use process_manager_module.Server.Codes.{generate_transaction_code_lem}
use process_manager_module.Server.Destinations.{
  known_destination, find_destination_local, find_destination_known,
}
use process_manager_module.ModuleTests.Fixture.{fixture, FoundBelow, map_found}
use process_manager_module.Server.Calls.{Sends, send_request_lem, send_message_lem}

module _ {Any Address : Type 0} (settings : Settings) (database : Instance)
    (from_string : String → Option Address) (serialize_to_string : Message Any → List ℕ) (now : ℤ)
    (random : List ℕ) where
  -- What a section looks at: the answer of the call, the number of timers, and where the mock was
  -- asked to send.
  abbrev pub Observed : Type 0
  Observed = Bool × ℕ × List (Endpoint Address)

  unfoldable pub observe : State Any Address × Bool → Outcome Observed
  observe ((s, c), answer) = do
    timers ← size c
    returns (answer, timers, map (λ g. g.receiver) s.handed_over)

  -- A section that sends an `Any` to the service with a number.
  unfoldable pub any_section : ℕ → Any → Outcome Observed
  unfolding fixture observe
  any_section n any = do
    x ← fixture from_string random
    r ←
        send_request settings database from_string serialize_to_string now (to_service_identifier n)
          any x
    observe r

  -- A section that sends a message.
  unfoldable pub message_section : ℕ → Message Any → Outcome Observed
  unfolding fixture observe
  message_section n message = do
    x ← fixture from_string random
    r ←
        send_message settings database from_string serialize_to_string now (to_service_identifier n)
          message x
    observe r

  -- The six sections.
  unfoldable pub any_to_unknown : Any → Outcome Observed
  unfolding any_section
  any_to_unknown = any_section 99

  unfoldable pub message_to_unknown : Message Any → Outcome Observed
  unfolding message_section
  message_to_unknown = message_section 99

  unfoldable pub any_to_local : Any → Outcome Observed
  unfolding any_section
  any_to_local = any_section 1

  unfoldable pub message_to_local : Message Any → Outcome Observed
  unfolding message_section
  message_to_local = message_section 5

  unfoldable pub any_to_stored : Any → Outcome Observed
  unfolding any_section
  any_to_stored = any_section 100

  unfoldable pub message_to_stored : Message Any → Outcome Observed
  unfolding message_section
  message_to_stored = message_section 100

  -- What is to be seen of a request whose destination this is.
  abbrev pub expected : Outcome (Option (Destination Address)) → Outcome Observed
  expected (throws f) = throws f
  expected hangs = hangs
  expected (returns none) = returns (false, 0, [])
  expected (returns (some d)) = returns (true, 1, d.endpoint ∷ [])

  -- The first ten services are in the map, at `address`; the database is asked for the others.
  abbrev pub destination_of : Address → ℕ → Outcome (Option (Destination Address))
  destination_of address n =
      if ltb n 10
      then returns (
          some (record {
            service_identifier = to_service_identifier n;
            endpoint = record { address = address; port = n };
          }))
      else known_destination settings database from_string serialize_to_string
          (to_service_identifier n)

  module _ (address : Address) (n : ℕ) where
    find_destination_fixture :
        (m : List (ℕ × Endpoint Address))
        → FoundBelow address n 10 m
        → find_destination {Any = Any} database from_string
            (to_service_identifier n)
            (new_server m random)
          ≡ destination_of address n
    unfolding new_server
    find_destination_fixture m f = elim (Bool-cases (ltb n 10)) [
      | inl local ↦ rw local (
          find_destination_local settings database from_string serialize_to_string
            (new_server m random) (to_service_identifier n) (record { address = address; port = n })
            (rw local at f))
      | inr remote ↦ rw remote (
          find_destination_known settings database from_string serialize_to_string
            (new_server m random) (to_service_identifier n) (rw remote at f))
    ]

  -- The section looks at what was expected of the call.
  observe-Sends :
      (endpoints : List (ℕ × Endpoint Address)) (rest : List ℕ) (m : Message Any)
      (o : Outcome (Option (Destination Address))) (call : Outcome (State Any Address × Bool))
      → let s = new_server endpoints random in
        Sends settings database from_string serialize_to_string now o m
          (s, new_cache)
          (record s { random_values = rest }, new_cache)
          call
        → (do r ← call; observe r) ≡ expected o
  unfolding new_server new_cache observe size MessageQueue.empty
  observe-Sends endpoints rest m (throws f) call h = rw h
  observe-Sends endpoints rest m hangs call h = rw h
  observe-Sends endpoints rest m (returns none) call h = rw h
  observe-Sends endpoints rest m (returns (some d)) call (s', c', e, (i, same, r)) =
      rw (e, same, r.valid.unlocked, r.count)

  -- With a random value at hand: for every service with a number below 2 ^ 24, whatever the database
  -- knows of it, both kinds of sections see what is expected of the destination of the service, which
  -- is an endpoint of the map for the first ten, and what the database says for the others.
  pub sections_lem :
      (address : Address) (v : ℕ) (vs : List ℕ) (n : ℕ)
      → from_string "127.0.0.1" ≡ some address
      → random ≡ v ∷ vs
      → n < 2 ^ 24
      → ((any : Any) → any_section n any ≡ expected (destination_of address n))
        × ((message : Message Any)
            → message_section n message ≡ expected (destination_of address n))
  unfolding any_section message_section fixture new_server new_cache
  sections_lem address v vs n known drawn small =
      let (m, e, f) = map_found from_string address known n small 10 (ground arith) in
      let o = find_destination_fixture address n m f in
      let code =
        generate_transaction_code_lem settings database from_string serialize_to_string m random
          new_cache (new_server m random, new_cache) v vs here drawn in
      (
        λ any. rw e (
            observe-Sends m vs _ _ _ (
              send_request_lem settings database from_string serialize_to_string now
                (to_service_identifier n) (new_server m random) new_cache new_cache-IsValid
                (ground arith) _ _ code any _ o)),
        λ message. rw e (
            observe-Sends m random _ _ _ (
              send_message_lem settings database from_string serialize_to_string now
                (to_service_identifier n) (new_server m random) new_cache new_cache-IsValid
                (ground arith) message _ o)),
      )
