-- ===== src/ExampleModules.antt =====
-- Tests/ExampleModuleTests: a module that sends its coordinates to a service, and a module that
-- subscribes to them and keeps the last ones of each sender. Generated code, and parameters here:
-- the packing of coordinates into protobuf's `Any` and their unpacking, `none` if it `Is` another
-- message. The lock of the cache is shared also while it is updated; one call at a time is
-- modelled.
use Prim.Native.String.{String}
use process_manager_module.Base.{
  ℕ, ◌+◌, ◌%◌, ◌^◌, ◌≡◌, refl, ◌∙◌, Bool, true, false, List, [], ◌∷◌, Option, none, some, Outcome,
  returns, ◌>>=◌, arith, >>=-eq-returns, if◌then◌else◌, ◌==◌,
}
use process_manager_module.Base.Int.{ℤ, pos, signed32}
use process_manager_module.Containers.Map
use process_manager_module.Containers.Order.{int_order}
use process_manager_module.Containers.Multimap.{with_key}
use process_manager_module.Identifier.{to_service_identifier}
use process_manager_module.Messages.{Message, Header}
use process_manager_module.Services.{Instance}
use process_manager_module.EventsCache.{Event, EventManager, register_new_event_handler}
use process_manager_module.EventsCache.Dispatch.{registered, offer}
use process_manager_module.Server.State.{Settings, Server, Cache}
use process_manager_module.Server.Receiving.{handle_receive}
use process_manager_module.Server.Handlers.{handle_receive-register_new_event_handler}
use process_manager_module.ModuleManager.{
  Manager, manager_send_request, manager_send_subscribe_request,
}

-- `std::pair<int32_t, int32_t>`, as bit patterns.
pub record Coordinates : Type 0 where
  pub x : ℕ
  pub y : ℕ

-- `GpsCoordinatesCache::coordinatesCache`
abbrev pub CoordinatesCache : Type 0
CoordinatesCache = List (ℕ × Coordinates)

unfoldable pub update : ℕ → Coordinates → CoordinatesCache → CoordinatesCache
update identifier cords [] = (identifier, cords) ∷ []
update identifier cords ((j, old) ∷ m) =
    if j == identifier then (j, cords) ∷ m else (j, old) ∷ update identifier cords m

-- `GPS::SubscribeIdentifierRequest` and `GPS::CoordinatesUpdateRequest`
pub record CoordinatesMessage : Type 0 where
  pub identifier : ℕ
  pub coordinates : Coordinates

pub data SubscriptionHandler : Type 0 where
  coordinates_update : SubscriptionHandler

-- The service that the subscribing module expects requests from, 872415233.
abbrev pub coordinates_service : ℤ
coordinates_service = pos 0x34000001

module _ {Any : Type 0} (unpack : Any → Option CoordinatesMessage) where
  unfoldable pub validate : SubscriptionHandler → Any → Bool
  validate coordinates_update any = elim (unpack any) [ none ↦ false | some request ↦ true ]

  -- A message of another type is unpacked to one with zeros.
  unfoldable pub run : SubscriptionHandler → Any → CoordinatesCache → Outcome CoordinatesCache
  unfolding update
  run coordinates_update any cache = elim (unpack any) [
    | none ↦ returns (update 0 (record { x = 0; y = 0 }) cache)
    | some request ↦ returns (update request.identifier request.coordinates cache)
  ]

module _ {Any Address : Type 0} (settings : Settings) (database : Instance)
    (from_string : String → Option Address) (serialize_to_string : Message Any → List ℕ) where
  -- `ModuleUserProcess::main` of the subscribing module, up to its loop, which prints the cache.
  unfoldable pub subscribe :
      ℤ
      → String
      → EventManager SubscriptionHandler × Manager Any Address
      → Outcome (EventManager SubscriptionHandler × Manager Any Address)
  subscribe now type_name (events, manager) = do
    let new_event : Event SubscriptionHandler = record { callback = some coordinates_update }
    let events' = register_new_event_handler coordinates_service new_event events
    (manager', sent) ←
        manager_send_subscribe_request settings database from_string serialize_to_string now
          (to_service_identifier 1) type_name manager
    returns (events', manager')

  -- One round of the loop of the sending module; the new coordinates are those of the next round.
  unfoldable pub send_coordinates :
      (CoordinatesMessage → Any) → ℤ → ℕ × Manager Any Address → Outcome (ℕ × Manager Any Address)
  send_coordinates pack now (new_coordinates, manager) = do
    let any = pack (record {
      identifier = settings.module_identifier;
      coordinates = record { x = new_coordinates; y = new_coordinates };
    })
    (manager', sent) ←
        manager_send_request settings database from_string serialize_to_string now
          (to_service_identifier 1) any manager
    returns ((new_coordinates + 1) % 2 ^ 32, manager')

find-update :
    (i j : ℕ) (cords : Coordinates) (m : CoordinatesCache)
    → Map.find j (update i cords m) ≡ (if i == j then some cords else Map.find j m)
unfolding update Map.find
find-update i j cords [] = refl
find-update i j cords ((k, old) ∷ m) = ground (arith, find-update i j cords m)

module _ {Any Address : Type 0} (settings : Settings) (database : Instance)
    (from_string : String → Option Address) (serialize_to_string : Message Any → List ℕ)
    (parse_from_string : List ℕ → Option (Message Any))
    (unpack : Any → Option CoordinatesMessage) where
  abbrev new_event : Event SubscriptionHandler
  new_event = record { callback = some coordinates_update }

  subscribe-events :
      (now : ℤ) (type_name : String) (events events' : EventManager SubscriptionHandler)
      (manager manager' : Manager Any Address)
      → subscribe settings database from_string serialize_to_string now type_name (events, manager)
        ≡ returns (events', manager')
      → events' ≡ register_new_event_handler coordinates_service new_event events
  unfolding subscribe
  subscribe-events now type_name events events' manager manager' h =
      let (sent, e, f) =
        >>=-eq-returns
          (manager_send_subscribe_request settings database from_string serialize_to_string now
            (to_service_identifier 1) type_name manager)
          _ h in
      ground arith

  offer-new_event :
      (any : Any) (coordinates : CoordinatesMessage) (cache : CoordinatesCache)
      → unpack any ≡ some coordinates
      → offer (validate unpack) (run unpack) any new_event cache
        ≡ returns (update coordinates.identifier coordinates.coordinates cache)
  unfolding validate run
  offer-new_event any coordinates cache e = ground arith

  -- Once the subscribing module has subscribed, with an event manager that is initialized and has no
  -- events, a request with coordinates that it receives from the service sets the coordinates of the
  -- sender that the request names, and those of no other; the server goes on reading.
  pub coordinates-subscribe :
      (now : ℤ) (type_name : String) (events events' : EventManager SubscriptionHandler)
      (manager manager' : Manager Any Address) (bytes : List ℕ) (message : Message Any)
      (header : Header) (any : Any) (coordinates : CoordinatesMessage) (s : Server Any Address)
      (c : Cache Any Address) (cache : CoordinatesCache)
      → events.initialized ≡ true
      → events.events_cache ≡ []
      → subscribe settings database from_string serialize_to_string now type_name (events, manager)
        ≡ returns (events', manager')
      → parse_from_string bytes ≡ some message
      → message.header ≡ some header
      → signed32 header.sender_identifier ≡ coordinates_service
      → message.request ≡ some any
      → unpack any ≡ some coordinates
      → (cache' : CoordinatesCache) × (handle_receive
            (validate unpack)
            (run unpack)
            parse_from_string
            events'.events_cache
            false
            bytes
            ((s, c), cache)
          ≡ returns ((record s { reading = true }, c), cache'))
        × ((j : ℕ)
            → Map.find j cache' ≡ (
                if coordinates.identifier == j
                then some coordinates.coordinates
                else Map.find j cache))
  unfolding registered with_key
  coordinates-subscribe now type_name events events' manager manager' bytes message header any
        coordinates s c cache ready none_yet subscribed p h sender r unpacked =
      let e = subscribe-events now type_name events events' manager manager' subscribed in
      let k =
        handle_receive-register_new_event_handler (validate unpack) (run unpack) parse_from_string
          events new_event bytes message header any s c cache ready (rw none_yet tt) p h r in
      (
        update coordinates.identifier coordinates.coordinates cache,
        rw (e, ← sender) (k ∙ rw (none_yet, offer-new_event any coordinates cache unpacked)),
        λ j. find-update coordinates.identifier j coordinates.coordinates cache,
      )
