-- ===== src/Examples/Services.antt =====
-- Identifiers, a document and events, and the theorems at them.
use process_manager_module.Base.{
  same_text, ℕ, ◌%◌, ◌^◌, ◌≡◌, ◌↔◌, Bool, true, false, List, [], ◌∷◌, ◌++◌, some, Outcome, returns,
  if◌then◌else◌, arith,
}
use process_manager_module.Base.Int.{pos}
use process_manager_module.Containers.Order.{int_order}
use process_manager_module.Identifier.{
  is_service_identifier, to_module_identifier, to_service_identifier, can_be_module_identifier,
  can_be_service_identifier,
}
use process_manager_module.Identifier.Laws.{
  can_be_module_identifier_accepts_unfit, can_be_service_identifier_refuses_fit,
}
use process_manager_module.Services.{ServiceRecord, k_int32, k_utf8, View, view_to_service_record}
use process_manager_module.Services.Records.{view_to_service_record_iff}
use process_manager_module.EventsCache.{Event, EventsCache}

can_be_module_identifier_example : can_be_module_identifier 0x35000000 ≡ true
unfolding to_module_identifier
can_be_module_identifier_example =
    can_be_module_identifier_accepts_unfit 0x35000000 (ground arith) (ground arith)

can_be_service_identifier_example :
    (can_be_service_identifier 7 ≡ is_service_identifier 7) × (can_be_service_identifier 7 ≡ false)
unfolding to_service_identifier
can_be_service_identifier_example =
    can_be_service_identifier_refuses_fit 7 (ground arith) (ground arith)

abbrev document : View
document key =
    if same_text key "ServiceIdentifier"
    then k_int32 0x34000001
    else if same_text key "Port"
    then k_int32 70000
    else if same_text key "IpAddress"
    then k_utf8 "127.0.0.1"
    else k_utf8 "gps"

abbrev gps_record : ServiceRecord
gps_record = record { port = 4464; identifier = 0x34000001; ip_address = "127.0.0.1"; name = "gps" }

view_to_service_record_iff_example :
    (view_to_service_record document ≡ returns (some gps_record)) ↔ (
      (p : ℕ) × (document "ServiceIdentifier" ≡ k_int32 gps_record.identifier)
      × (document "IpAddress" ≡ k_utf8 gps_record.ip_address)
      × (document "Port" ≡ k_int32 p)
      × (document "Name" ≡ k_utf8 gps_record.name)
      × (gps_record.port ≡ p % 2 ^ 16))
view_to_service_record_iff_example = view_to_service_record_iff document gps_record

abbrev event : ℕ → Event ℕ
event n = record { callback = some n }

abbrev events : EventsCache ℕ
events = (pos 2, event 5) ∷ (pos 4, event 6) ∷ []

abbrev accepts : ℕ → ℕ → Bool
accepts callback any = true

abbrev log_call : ℕ → ℕ → List ℕ → Outcome (List ℕ)
log_call callback any w = returns (w ++ callback ∷ [])
