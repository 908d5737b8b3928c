-- ===== src/Examples/Exchanges.antt =====
-- Several messages and their answers, and the calls of the user and of the tests, at concrete data.
use Prim.Native.String.{String}
use process_manager_module.Base.{
  ℕ, ◌≡◌, refl, true, [], ◌∷◌, ◌++◌, map, none, some, returns, arith, if◌then◌else◌, ◌==◌,
}
use process_manager_module.Base.Int.{pos}
use process_manager_module.Containers.Map
use process_manager_module.TimersCache.Refinement.{registry}
use process_manager_module.Messages.{
  Message, make_request_message, make_subscription_request_message,
}
use process_manager_module.Identifier.{to_service_identifier}
use process_manager_module.Services.{
  Collection, by_service_identifier, by_name, get_client, get_service, view_to_service_record,
}
use process_manager_module.Server.State.{Server, Cache, new_server}
use process_manager_module.Server.Requests.{
  find_destination, send_message, send_request, send_subscribe_request,
}
use process_manager_module.Server.Traffic.{link, datagram}
use process_manager_module.Server.Steps
use process_manager_module.Server.Delivery.{drained}
use process_manager_module.Server.Answers.{handle_responses, Answered, handle_responses_lem}
use process_manager_module.Server.Exchanges.{Exchanges, handle_responses-send_messages}
use process_manager_module.Server.Destinations.{known_destination}
use process_manager_module.Server.Calls.{Sends, calls-Reach}
use process_manager_module.ModuleTests.Fixture.{example_service}
use process_manager_module.ModuleTests.Messaging.{any_section, message_section, sections_lem}
use process_manager_module.Examples.Servers.{
  settings, database, from_string, serialize, gps, message, answer, idle_server, cache,
  cache-IsValid,
}
use process_manager_module.Examples.Systems.{services, any_address}

handle_responses_lem_example :
    (s' : Server ℕ ℕ) × (c' : Cache ℕ ℕ) × (handle_responses
        (answer 8 ∷ answer 9 ∷ [])
        (idle_server, cache)
      ≡ returns (s', c'))
    × Answered (answer 8 ∷ answer 9 ∷ []) idle_server s' cache c'
handle_responses_lem_example =
    handle_responses_lem (answer 8 ∷ answer 9 ∷ []) idle_server cache (refl, (refl, tt))
      cache-IsValid

handle_responses-send_messages_example :
    (x : Exchanges settings database from_string serialize
      (pos 5)
      ((gps, message 9) ∷ (gps, message 10) ∷ [])
      (answer 10 ∷ answer 9 ∷ answer 10 ∷ [])
      idle_server
      cache)
    × ((code : ℕ)
        → Map.find code x.server.transaction_and_timer_id
          ≡ Map.find code idle_server.transaction_and_timer_id)
    × ((j : ℕ) → registry x.cache j ≡ registry cache j)
    × (link x.server
        ≡ drained settings database from_string serialize (
            idle_server.handed_over
            ++ map (datagram settings serialize) ((gps, message 9) ∷ (gps, message 10) ∷ [])))
unfolding find_destination Map.find
handle_responses-send_messages_example =
    handle_responses-send_messages settings database from_string serialize (pos 5) gps (message 9)
      ((gps, message 10) ∷ []) (answer 10 ∷ answer 9 ∷ answer 10 ∷ []) idle_server cache refl refl
      cache-IsValid (ground arith) (refl, (refl, tt)) (refl, refl, (refl, refl, tt))
      (refl, (refl, (refl, tt))) (λ code. ground arith)

abbrev fresh_server : Server ℕ ℕ
fresh_server = new_server [] (2004 ∷ 17 ∷ [])

abbrev drawn_server : Server ℕ ℕ
drawn_server = record fresh_server { random_values = 17 ∷ [] }

calls-Reach_example :
    let o = known_destination settings (some services) any_address serialize 0x34000001 in
    ((m : Message ℕ)
      → Sends settings
          (some services)
          any_address
          serialize
          (pos 5)
          o
          m
          (fresh_server, cache)
          (fresh_server, cache)
          (send_message settings
            (some services)
            any_address
            serialize
            (pos 5)
            0x34000001
            m
            (fresh_server, cache)))
    × ((any : ℕ)
        → Sends settings
            (some services)
            any_address
            serialize
            (pos 5)
            o
            (make_request_message 0x2a000001 any 5)
            (fresh_server, cache)
            (drawn_server, cache)
            (send_request settings
              (some services)
              any_address
              serialize
              (pos 5)
              0x34000001
              any
              (fresh_server, cache)))
    × ((subscribed_type : String)
        → Sends settings
            (some services)
            any_address
            serialize
            (pos 5)
            o
            (make_subscription_request_message 0x2a000001 subscribed_type 5)
            (fresh_server, cache)
            (drawn_server, cache)
            (send_subscribe_request settings
              (some services)
              any_address
              serialize
              (pos 5)
              0x34000001
              subscribed_type
              (fresh_server, cache)))
unfolding new_server
calls-Reach_example =
    calls-Reach settings (some services) any_address serialize (pos 5) (2004 ∷ 17 ∷ []) cache
      fresh_server cache 0x34000001 2004 (17 ∷ []) Steps.here cache-IsValid (ground arith) refl

-- The database of the tests holds one document.
abbrev tests_services : Collection
tests_services (by_service_identifier i) =
    if i == to_service_identifier 100 then some example_service else none
tests_services (by_name name) = none

sections_lem_example :
    ((any : ℕ)
      → any_section settings (some tests_services) any_address serialize (pos 5) (7 ∷ []) 100 any
        ≡ returns (true, 1, record { address = 127; port = 101 } ∷ []))
    × ((m : Message ℕ)
        → message_section settings
            (some tests_services)
            any_address
            serialize
            (pos 5)
            (7 ∷ [])
            100
            m
          ≡ returns (true, 1, record { address = 127; port = 101 } ∷ []))
unfolding get_client get_service view_to_service_record to_service_identifier
sections_lem_example =
    sections_lem settings (some tests_services) any_address serialize (pos 5) (7 ∷ []) 127 7 [] 100
      refl refl (ground arith)
