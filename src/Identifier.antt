-- ===== src/Identifier.antt =====
-- Source/include/Types.hpp and Source/src/Types.cpp: identifiers of modules and services. An
-- `Identifier` (an `int32_t`) is its bit pattern, a number below 2 ^ 32; the union with four bytes
-- is read with the most significant byte last (a little-endian machine).
pub mod Laws
use process_manager_module.Base.{
  ℕ, ◌+◌, ◌-◌, ◌*◌, ◌/◌, ◌%◌, ◌^◌, Bool, true, false, if◌then◌else◌, ◌==◌,
}

-- `ModuleIdentifierCode` and `ServiceIdentifierCode`.
abbrev pub module_identifier_code : ℕ
module_identifier_code = 0x2a

abbrev pub service_identifier_code : ℕ
service_identifier_code = 0x34

-- `bytes[3]` of the union, read and written.
abbrev pub byte_3 : ℕ → ℕ
byte_3 identifier = identifier / 2 ^ 24 % 256

abbrev pub set_byte_3 : ℕ → ℕ → ℕ
set_byte_3 identifier b = identifier % 2 ^ 24 + b * 2 ^ 24

-- The pattern of -1.
abbrev pub minus_one : ℕ
minus_one = 2 ^ 32 - 1

pub minimal_module_identifier : ℕ
minimal_module_identifier = set_byte_3 0 module_identifier_code

pub is_module_identifier : ℕ → Bool
is_module_identifier identifier = byte_3 identifier == module_identifier_code

unfoldable pub to_module_identifier : ℕ → ℕ
to_module_identifier identifier =
    if byte_3 identifier == 0 then set_byte_3 identifier module_identifier_code else minus_one

-- The test assigns 0 to the byte, and reads the 0 as false.
pub can_be_module_identifier : ℕ → Bool
can_be_module_identifier identifier =
    let assigned = set_byte_3 identifier 0 in if byte_3 assigned == 0 then true else false

pub can_be_service_identifier : ℕ → Bool
can_be_service_identifier identifier = byte_3 identifier == service_identifier_code

pub is_service_identifier : ℕ → Bool
is_service_identifier identifier = byte_3 identifier == service_identifier_code

unfoldable pub to_service_identifier : ℕ → ℕ
to_service_identifier identifier =
    if byte_3 identifier == 0 then set_byte_3 identifier service_identifier_code else minus_one
