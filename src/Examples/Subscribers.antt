-- ===== src/Examples/Subscribers.antt =====
-- The subscribing module, to which the service sends coordinates, and the theorems on requests at it.
use process_manager_module.Base.{
  ℕ, ◌≡◌, refl, true, false, List, [], ◌∷◌, Option, none, some, returns, ◌>>=◌, if◌then◌else◌, ◌==◌,
}
use process_manager_module.Base.Int.{pos}
use process_manager_module.Containers.Map
use process_manager_module.Containers.Multimap.{insert}
use process_manager_module.Identifier.{to_service_identifier}
use process_manager_module.MessageQueue
use process_manager_module.Messages.{
  Message, Header, module_request, make_subscription_request_message,
}
use process_manager_module.EventsCache.{EventManager, register_new_event_handler}
use process_manager_module.EventsCache.Dispatch.{registered, offer, offers}
use process_manager_module.ModuleManager.{manager_send_subscribe_request}
use process_manager_module.Server.State.{Server, generate_transaction_code, draw_again, code_parked}
use process_manager_module.Server.Requests.{send_subscribe_request, find_destination, enqueue}
use process_manager_module.Server.Receiving.{handle_receive}
use process_manager_module.Server.Handlers.{handle_receive-register_new_event_handler}
use process_manager_module.ExampleModules.{
  CoordinatesCache, CoordinatesMessage, SubscriptionHandler, coordinates_update,
  coordinates_service, validate, run, subscribe, coordinates-subscribe,
}
use process_manager_module.Examples.Servers.{
  settings, database, from_string, serialize, gps, message, busy_server, cache,
}

-- A datagram is the `x` of some coordinates of the module 0x2a000007.
abbrev unpack : ℕ → Option CoordinatesMessage
unpack n = some (record { identifier = 0x2a000007; coordinates = record { x = n; y = n } })

abbrev service_header : Header
service_header = record {
  sender_identifier = 0x34000001;
  operation_code = module_request;
  transaction_code = 3;
}

abbrev coordinates_request : ℕ → Message ℕ
coordinates_request n = record (message 3) { header = some service_header; request = some n }

abbrev parse : List ℕ → Option (Message ℕ)
parse [] = none
parse (b ∷ bs) = some (coordinates_request b)

abbrev no_events : EventManager SubscriptionHandler
no_events = record { initialized = true; events_cache = [] }

abbrev listening : EventManager SubscriptionHandler
listening = record no_events {
  events_cache = (coordinates_service, record { callback = some coordinates_update }) ∷ [];
}

abbrev subscribed_server : Server ℕ ℕ
subscribed_server = record busy_server {
  message_queue = record {
    messages_queue =
        (gps, message 8)
        ∷ (gps, message 9)
        ∷ (gps, make_subscription_request_message 0x2a000001 "Coordinates" 5)
        ∷ [];
  };
  random_values = [];
}

is_subscribed :
    subscribe settings database from_string serialize
      (pos 5)
      "Coordinates"
      (no_events, some (some (busy_server, cache)))
    ≡ returns (listening, some (some (subscribed_server, cache)))
unfolding subscribe manager_send_subscribe_request send_subscribe_request find_destination Map.find
    generate_transaction_code draw_again code_parked enqueue MessageQueue.push MessageQueue.size
    register_new_event_handler to_service_identifier make_subscription_request_message insert
is_subscribed = refl

coordinates-subscribe_example :
    (cache' : CoordinatesCache) × (handle_receive
        (validate unpack)
        (run unpack)
        parse
        listening.events_cache
        false
        (4 ∷ [])
        ((subscribed_server, cache), [])
      ≡ returns ((subscribed_server, cache), cache'))
    × ((j : ℕ)
        → Map.find j cache'
          ≡ (if 0x2a000007 == j then some (record { x = 4; y = 4 }) else Map.find j []))
coordinates-subscribe_example =
    coordinates-subscribe settings database from_string serialize parse unpack (pos 5) "Coordinates"
      no_events listening (some (some (busy_server, cache)))
      (some (some (subscribed_server, cache))) (4 ∷ []) (coordinates_request 4) service_header 4
      (record { identifier = 0x2a000007; coordinates = record { x = 4; y = 4 } }) subscribed_server
      cache [] refl refl is_subscribed refl refl refl refl refl

handle_receive-register_new_event_handler_example :
    handle_receive
      (validate unpack)
      (run unpack)
      parse
      (register_new_event_handler coordinates_service
        (record { callback = some coordinates_update })
        listening).events_cache
      false
      (4 ∷ [])
      ((busy_server, cache), [])
    ≡ (do
      w₁ ←
          offers
            (validate unpack)
            (run unpack)
            4
            (registered coordinates_service listening.events_cache)
            []
      w₂ ← offer (validate unpack) (run unpack) 4 (record { callback = some coordinates_update }) w₁
      returns ((busy_server, cache), w₂))
handle_receive-register_new_event_handler_example =
    handle_receive-register_new_event_handler (validate unpack) (run unpack) parse listening
      (record { callback = some coordinates_update }) (4 ∷ []) (coordinates_request 4)
      service_header 4 busy_server cache [] refl (tt, tt) refl refl refl
