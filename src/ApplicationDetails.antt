-- ===== src/ApplicationDetails.antt =====
-- Source/src/ApplicationDetails.cpp: the length of the identifiers of modules as texts. A text is the
-- list of its characters' numbers.
use process_manager_module.Base.{
  ℕ, ◌≡◌, ◌≤◌, Bool, true, false, List, length, ltb, if◌then◌else◌, arith,
}

abbrev pub module_identifier_length : ℕ
module_identifier_length = 16

unfoldable pub is_module_identifier_type : List ℕ → Bool
is_module_identifier_type module_identifier =
    if ltb module_identifier_length (length module_identifier) then true else false

-- The test is met by no text that fits into the array of `ModuleIdentifier`.
pub is_module_identifier_type_too_long :
    (text : List ℕ)
    → length text ≤ module_identifier_length
    → is_module_identifier_type text ≡ false
unfolding is_module_identifier_type
is_module_identifier_type_too_long text h = ground arith
