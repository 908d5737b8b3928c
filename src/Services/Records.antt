-- ===== src/Services/Records.antt =====
-- Reading a document of the services collection.
use process_manager_module.Base.{ℕ, ◌%◌, ◌^◌, ◌≡◌, ◌↔◌, some, returns, arith}
use process_manager_module.Services.{
  ServiceRecord, Element, k_int32, k_utf8, View, view_to_service_record,
}

int32_value : Element → ℕ
int32_value (k_int32 n) = n
int32_value _ = 0

-- A document gives a record exactly if its four elements are there with their types, and the record
-- holds their values, the port cut to 16 bits.
pub view_to_service_record_iff :
    (view : View) (r : ServiceRecord)
    → (view_to_service_record view ≡ returns (some r)) ↔ (
        (p : ℕ) × (view "ServiceIdentifier" ≡ k_int32 r.identifier)
        × (view "IpAddress" ≡ k_utf8 r.ip_address)
        × (view "Port" ≡ k_int32 p)
        × (view "Name" ≡ k_utf8 r.name)
        × (r.port ≡ p % 2 ^ 16))
unfolding view_to_service_record int32_value
view_to_service_record_iff view r = (
  λ h. (
    int32_value (view "Port"),
    ground arith,
    ground arith,
    ground arith,
    ground arith,
    ground arith,
  ),
  λ (p, i, a, q, n, e). ground arith,
)
