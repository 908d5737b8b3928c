-- ===== src/ModuleTests/Fixture.antt =====
-- The fixture of Tests/ModuleServerTests/ModuleServerTests.cpp: the document of the database, and the
-- ten services of the map.
use Prim.Native.String.{String}
use process_manager_module.Base.{
  ℕ, zero, suc, ◌^◌, ◌≤◌, ◌<◌, ◌≡◌, refl, ap, ◌∙◌, true, false, List, [], Option, none, some,
  Outcome, returns, throws, invalid_address, ◌>>=◌, if◌then◌else◌, ◌==◌, ltb, arith, same_text,
  Bool-cases, inl, inr,
}
use process_manager_module.Containers.Map
use process_manager_module.Containers.Map.{find-emplace}
use process_manager_module.Identifier.{to_service_identifier}
use process_manager_module.Identifier.Laws.{to_service_identifier_lem}
use process_manager_module.TimersCache.{new_cache}
use process_manager_module.Services.{View, unset, k_int32, k_utf8}
use process_manager_module.Server.State.{Endpoint, State, new_server}

-- The document that the fixture inserts.
abbrev pub example_service : View
example_service key =
    if same_text key "ServiceIdentifier"
    then k_int32 (to_service_identifier 100)
    else if same_text key "IpAddress"
    then k_utf8 "127.0.0.1"
    else if same_text key "Port"
    then k_int32 101
    else if same_text key "Name"
    then k_utf8 "ExampleService"
    else unset

same_service :
    (i n : ℕ)
    → i < 2 ^ 24
    → n < 2 ^ 24
    → (to_service_identifier i == to_service_identifier n) ≡ (i == n)
same_service i n h k =
    let (e, _a, _b, _c) = to_service_identifier_lem i (omega arith) in
    let (f, _d, _e, _f) = to_service_identifier_lem n (omega arith) in ground arith

module _ {Address : Type 0} (address : Address) where
  abbrev pub endpoint_of : ℕ → Endpoint Address
  endpoint_of i = record { address = address; port = i }

  -- The service with the number `n` is in the map if its number is below `count`, and only then.
  abbrev pub FoundBelow : ℕ → ℕ → List (ℕ × Endpoint Address) → Type 0
  FoundBelow n count m =
      Map.find (to_service_identifier n) m ≡ (if ltb n count then some (endpoint_of n) else none)

module _ {Address : Type 0} (from_string : String → Option Address) where
  -- The loop that fills the map; the first `n` services.
  unfoldable pub services_endpoints_map : ℕ → Outcome (List (ℕ × Endpoint Address))
  services_endpoints_map zero = returns []
  services_endpoints_map (suc i) = do
    services ← services_endpoints_map i
    elim (from_string "127.0.0.1") [
      | none ↦ throws invalid_address
      | some address ↦
          returns (
            Map.emplace (to_service_identifier i) (record { address = address; port = i }) services)
    ]

  module _ (address : Address) (known : from_string "127.0.0.1" ≡ some address) (n : ℕ)
      (small : n < 2 ^ 24) where
    FoundBelow-emplace :
        (i : ℕ) (m : List (ℕ × Endpoint Address))
        → i < 2 ^ 24
        → FoundBelow address n i m
        → FoundBelow address n
            (suc i)
            (Map.emplace (to_service_identifier i) (endpoint_of address i) m)
    FoundBelow-emplace i m h f =
        let entered =
          find-emplace (to_service_identifier i) (to_service_identifier n) (endpoint_of address i)
            m in
        let keys = same_service i n h small in
        elim (Bool-cases (i == n)) [
          | inl hit ↦
              let same : i ≡ n = ground arith in
              let above : ltb n i ≡ false = ground arith in
              let below : ltb n (suc i) ≡ true = ground arith in
              let absent : Map.find (to_service_identifier i) m ≡ none = rw same (rw above at f) in
              entered ∙ rw (keys, hit, absent, below) (ap (λ z. some (endpoint_of address z)) same)
          | inr miss ↦
              let next : ltb n (suc i) ≡ ltb n i = ground arith in entered ∙ rw (keys, miss, next) f
        ]

    pub map_found :
        (count : ℕ)
        → count ≤ 2 ^ 24
        → (m : List (ℕ × Endpoint Address)) × (services_endpoints_map count ≡ returns m)
          × FoundBelow address n count m
    unfolding services_endpoints_map Map.find
    map_found zero h = ([], refl, ground arith)
    map_found (suc i) h =
        let (m, e, f) = map_found i (omega arith) in
        (
          Map.emplace (to_service_identifier i) (endpoint_of address i) m,
          rw (e, known),
          FoundBelow-emplace i m (omega arith) f,
        )

module _ {Any Address : Type 0} (from_string : String → Option Address) (random : List ℕ) where
  -- The server and the cache that each section begins with.
  unfoldable pub fixture : Outcome (State Any Address)
  unfolding services_endpoints_map
  fixture = do
    services ← services_endpoints_map from_string 10
    returns (new_server services random, new_cache)
