-- ===== src/Server/Destinations.antt =====
-- Where the requests of a module go.
use Prim.Native.String.{String}
use process_manager_module.Base.{
  ℕ, ◌≡◌, ap, List, [], Option, none, some, Outcome, returns, throws, invalid_address, ◌>>=◌, arith,
  Outcome-cases, Option-cases, inl, inr,
}
use process_manager_module.Containers.Map
use process_manager_module.Messages.{Message}
use process_manager_module.Services.{Instance, ServiceRecord, get_client, get_service}
use process_manager_module.Server.State.{
  Destination, Endpoint, Server, Settings, Cache, State, new_server,
}
use process_manager_module.Server.Requests.{find_destination, database_destination}
use process_manager_module.Server.Steps.{Reach, Reach-aside}

module _ {Any Address : Type 0} (settings : Settings) (database : Instance)
    (from_string : String → Option Address) (serialize_to_string : Message Any → List ℕ) where
  -- What the database answers about a service.
  abbrev pub database_answer : ℕ → Outcome (Option ServiceRecord)
  database_answer identifier = do client ← get_client database; get_service client identifier

  -- Where the database says that a service is: at the address and the port of its record. There is
  -- no destination without a record, and a fault if the address is none or the database throws.
  abbrev pub known_destination : ℕ → Outcome (Option (Destination Address))
  known_destination identifier = do
    record_found ← database_answer identifier
    elim record_found [
      | none ↦ returns none
      | some service ↦ elim (from_string service.ip_address) [
        | none ↦ throws invalid_address
        | some address ↦ returns (
            some (record {
              service_identifier = identifier;
              endpoint = record { address = address; port = service.port };
            }))
      ]
    ]

  pub find_destination_local :
      (s : Server Any Address) (identifier : ℕ) (endpoint : Endpoint Address)
      → Map.find identifier s.services_endpoints_map ≡ some endpoint
      → find_destination database from_string identifier s
        ≡ returns (some (record { service_identifier = identifier; endpoint = endpoint }))
  unfolding find_destination
  find_destination_local s identifier endpoint there = ground arith

  -- A service that is not in the map is looked for in the database.
  pub find_destination_known :
      (s : Server Any Address) (identifier : ℕ)
      → Map.find identifier s.services_endpoints_map ≡ none
      → find_destination database from_string identifier s ≡ known_destination identifier
  unfolding find_destination database_destination
  find_destination_known s identifier absent = elim (Outcome-cases (get_client database)) [
    | inr (inl (f, e)) ↦ ground arith
    | inr (inr e) ↦ ground arith
    | inl (client, e) ↦ elim (Outcome-cases (get_service client identifier)) [
      | inr (inl (f, g)) ↦ ground arith
      | inr (inr g) ↦ ground arith
      | inl (none, g) ↦ ground arith
      | inl (some service, g) ↦ elim (Option-cases (from_string service.ip_address)) [
        | inl a ↦ ground arith
        | inr (address, a) ↦ ground arith
      ]
    ]
  ]

  -- A server that begins with an empty map of endpoints, as that of a module does, asks the database
  -- about every request, in every state that it reaches: the destination is the address and the port
  -- of the service's record, there is none if there is no record, and the call throws if the address
  -- is none or the database throws.
  pub find_destination-Reach :
      (random : List ℕ) (c : Cache Any Address) (y : State Any Address) (identifier : ℕ)
      → Reach settings database from_string serialize_to_string (new_server [] random, c) y
      → find_destination database from_string identifier y.0 ≡ known_destination identifier
  unfolding new_server Map.find
  find_destination-Reach random c y identifier r =
      let nothing_local =
        ap (λ a. a.endpoints) (Reach-aside settings database from_string serialize_to_string r) in
      find_destination_known y.0 identifier (rw nothing_local)
