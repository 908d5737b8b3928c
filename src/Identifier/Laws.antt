-- ===== src/Identifier/Laws.antt =====
-- Making and recognising identifiers.
use process_manager_module.Base.{
  ℕ, ◌+◌, ◌^◌, ◌≤◌, ◌<◌, ◌≡◌, ◌≢◌, true, false, ◌↔◌, arith, if◌then◌else◌, ltb,
}
use process_manager_module.Identifier.{
  minus_one, minimal_module_identifier, is_module_identifier, to_module_identifier,
  can_be_module_identifier, can_be_service_identifier, is_service_identifier, to_service_identifier,
}

-- For every 32-bit pattern: one below 2 ^ 24 becomes a module identifier whose low 24 bits are the
-- pattern, any other becomes -1; the result is a module identifier exactly in the first case, is
-- never a service identifier, and is again a 32-bit pattern.
pub to_module_identifier_lem :
    (identifier : ℕ)
    → identifier < 2 ^ 32
    → let made = to_module_identifier identifier in
      let raw = ltb identifier (2 ^ 24) in
      (made ≡ (if raw then identifier + minimal_module_identifier else minus_one))
      × (is_module_identifier made ≡ raw)
      × (is_service_identifier made ≡ false)
      × (made < 2 ^ 32)
unfolding to_module_identifier is_module_identifier is_service_identifier minimal_module_identifier
to_module_identifier_lem identifier h = ground arith

-- For every 32-bit pattern: one below 2 ^ 24 becomes a service identifier, the pattern behind the top
-- byte 0x34, any other becomes -1; the result is a service identifier exactly in the first case, is
-- never a module identifier, and is again a 32-bit pattern.
pub to_service_identifier_lem :
    (identifier : ℕ)
    → identifier < 2 ^ 32
    → let made = to_service_identifier identifier in
      let raw = ltb identifier (2 ^ 24) in
      (made ≡ (if raw then identifier + 0x34000000 else minus_one))
      × (is_service_identifier made ≡ raw)
      × (is_module_identifier made ≡ false)
      × (made < 2 ^ 32)
unfolding to_service_identifier is_module_identifier is_service_identifier
to_service_identifier_lem identifier h = ground arith

-- The module identifiers are exactly the patterns from the minimal one to the last with its top byte.
pub is_module_identifier_iff :
    (identifier : ℕ)
    → identifier < 2 ^ 32
    → (is_module_identifier identifier ≡ true) ↔ (
        (minimal_module_identifier ≤ identifier)
        × (identifier < minimal_module_identifier + 2 ^ 24))
unfolding is_module_identifier minimal_module_identifier
is_module_identifier_iff identifier h = ground arith

-- `canBeModuleIdentifier` also accepts every identifier of which `toModuleIdentifier` makes -1.
pub can_be_module_identifier_accepts_unfit :
    (identifier : ℕ)
    → identifier < 2 ^ 32
    → to_module_identifier identifier ≡ minus_one
    → can_be_module_identifier identifier ≡ true
unfolding can_be_module_identifier to_module_identifier
can_be_module_identifier_accepts_unfit identifier h k = ground arith

-- `canBeServiceIdentifier` answers what `isServiceIdentifier` does, so it accepts no identifier that
-- `toServiceIdentifier` can make a service identifier of.
pub can_be_service_identifier_refuses_fit :
    (identifier : ℕ)
    → identifier < 2 ^ 32
    → to_service_identifier identifier ≢ minus_one
    → (can_be_service_identifier identifier ≡ is_service_identifier identifier)
      × (can_be_service_identifier identifier ≡ false)
unfolding can_be_service_identifier is_service_identifier to_service_identifier
can_be_service_identifier_refuses_fit identifier h k = ground arith
