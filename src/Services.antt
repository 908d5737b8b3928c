-- ===== src/Services.antt =====
-- Source/src/MongoServicesCollection.cpp and Source/src/MongoDbEnvironment.cpp: the services that
-- the database knows. The database is a parameter: `find_one`, from a query to the document that is
-- found. The element of a document under a key may be unset; the driver throws when its type is
-- asked for.
pub mod Records
use Prim.Native.String.{String}
use process_manager_module.Base.{
  ℕ, ◌%◌, ◌^◌, ◌≡◌, refl, Bool, true, false, Option, none, some, Outcome, returns, throws,
  unset_element, null_dereference, ◌>>=◌, if◌then◌else◌,
}

pub record ServiceRecord : Type 0 where
  pub port : ℕ  -- uint16_t
  pub identifier : ℕ  -- int32_t, as a bit pattern
  pub ip_address : String
  pub name : String

pub data Element : Type 0 where
  unset : Element
  k_int32 : ℕ → Element  -- as a bit pattern
  k_utf8 : String → Element
  other_type : Element

abbrev pub View : Type 0
View = String → Element

pub data Query : Type 0 where
  by_service_identifier : ℕ → Query
  by_name : String → Query

-- `element.type() != bsoncxx::type::k_int32` and the value behind it: `none` for another type.
abbrev pub as_int32 : Element → Outcome (Option ℕ)
as_int32 unset = throws unset_element
as_int32 (k_int32 n) = returns (some n)
as_int32 (k_utf8 s) = returns none
as_int32 other_type = returns none

abbrev pub as_utf8 : Element → Outcome (Option String)
as_utf8 unset = throws unset_element
as_utf8 (k_int32 n) = returns none
as_utf8 (k_utf8 s) = returns (some s)
as_utf8 other_type = returns none

-- The tests are made one after the other, and the first that fails ends them.
abbrev pub or_no_record {ℓ} :
    {A : Type ℓ} → Option A → (A → Outcome (Option ServiceRecord)) → Outcome (Option ServiceRecord)
or_no_record none f = returns none
or_no_record (some a) f = f a

unfoldable pub view_to_service_record : View → Outcome (Option ServiceRecord)
view_to_service_record view = do
  service_identifier ← as_int32 (view "ServiceIdentifier")
  or_no_record service_identifier λ i. do
    ip_address ← as_utf8 (view "IpAddress")
    or_no_record ip_address λ a. do
      port ← as_int32 (view "Port")
      or_no_record port λ p. do
        name ← as_utf8 (view "Name")
        or_no_record name λ n.
            returns (some (record { port = p % 2 ^ 16; identifier = i; ip_address = a; name = n }))

abbrev pub Collection : Type 0
Collection = Query → Option View

abbrev record_of : Option View → Outcome (Option ServiceRecord)
record_of none = returns none
record_of (some view) = view_to_service_record view

unfoldable pub get_service : Collection → ℕ → Outcome (Option ServiceRecord)
unfolding view_to_service_record
get_service find_one service_identifier =
    record_of (find_one (by_service_identifier service_identifier))

unfoldable pub get_service_by_name : Collection → String → Outcome (Option ServiceRecord)
unfolding view_to_service_record
get_service_by_name find_one name = record_of (find_one (by_name name))

-- `DbEnvironment::instance`, `none` before `initialize`. The address is taken only by the first call
-- that succeeds; `connect` is the constructor, `none` if it throws.
abbrev pub Instance : Type 0
Instance = Option Collection

unfoldable pub initialize : Option Collection → Instance → Instance × Bool
initialize connect (some collection) = (some collection, true)
initialize none none = (none, false)
initialize (some collection) none = (some collection, true)

-- `DbEnvironment::getInstance()->getClient()`
unfoldable pub get_client : Instance → Outcome Collection
get_client none = throws null_dereference
get_client (some collection) = returns collection

-- `isConnected`: what the driver makes of the command is a parameter, `none` if it throws or its
-- answer is no double, and else whether the answer is 1.
unfoldable pub is_connected : (Collection → Option Bool) → Instance → Outcome Bool
unfolding get_client
is_connected run_command database = do
  client ← get_client database
  elim (run_command client) [ none ↦ returns false | some ok ↦ returns ok ]

-- `drop`, for the tests: no document is left.
unfoldable pub drop : Collection → Collection
drop find_one query = none

-- A service that was there is not found any more.
pub get_service-drop :
    (find_one : Collection) (identifier : ℕ) (name : String)
    → (get_service (drop find_one) identifier ≡ returns none)
      × (get_service_by_name (drop find_one) name ≡ returns none)
unfolding get_service get_service_by_name drop
get_service-drop find_one identifier name = (refl, refl)
