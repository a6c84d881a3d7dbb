-- ===== src/Domain/Names/Acceptance.antt =====
-- What the name constructors accept. The database layer parses what it stored once more, so an
-- accepted name has to be accepted again, unchanged.
use proto_radar.Prelude.{
  String, len, ◌≡◌, ◌≢◌, true, ◌≤◌, eq_iff, arith, trim_space, trim_space_idem, all_codes,
}
use proto_radar.Domain.Errors.{ok}
use proto_radar.Domain.Names.{
  is_module_name_char, new_module_name, new_version, is_runtime_name_char, new_runtime_service_name,
  new_runtime_environment, max_runtime_service_name_length, max_runtime_environment_length,
}

-- An accepted module name is the trimmed input, is not empty, has only the allowed characters, and
-- is accepted again unchanged.
pub new_module_name_sound :
    (value name : String)
    → new_module_name value ≡ ok name
    → (name ≡ trim_space value)
      × (name ≢ "")
      × (all_codes is_module_name_char name ≡ true)
      × (new_module_name name ≡ ok name)
unfolding new_module_name
new_module_name_sound value name h =
    ground (arith, trim_space_idem value, eq_iff (trim_space value) "", eq_iff name "")

-- An accepted version is the trimmed input, is not empty, and is accepted again unchanged.
pub new_version_sound :
    (value version : String)
    → new_version value ≡ ok version
    → (version ≡ trim_space value) × (version ≢ "") × (new_version version ≡ ok version)
unfolding new_version
new_version_sound value version h =
    ground (arith, trim_space_idem value, eq_iff (trim_space value) "", eq_iff version "")

-- An accepted environment is the trimmed input, has between 1 and 64 bytes and only the allowed
-- characters, and is accepted again unchanged.
pub new_runtime_environment_sound :
    (value environment : String)
    → new_runtime_environment value ≡ ok environment
    → (environment ≡ trim_space value)
      × (environment ≢ "")
      × (len environment ≤ max_runtime_environment_length)
      × (all_codes is_runtime_name_char environment ≡ true)
      × (new_runtime_environment environment ≡ ok environment)
unfolding new_runtime_environment
new_runtime_environment_sound value environment h =
    ground (arith, trim_space_idem value, eq_iff (trim_space value) "", eq_iff environment "")

-- The same for a service name, with at most 128 bytes.
pub new_runtime_service_name_sound :
    (value name : String)
    → new_runtime_service_name value ≡ ok name
    → (name ≡ trim_space value)
      × (name ≢ "")
      × (len name ≤ max_runtime_service_name_length)
      × (all_codes is_runtime_name_char name ≡ true)
      × (new_runtime_service_name name ≡ ok name)
unfolding new_runtime_service_name
new_runtime_service_name_sound value name h =
    ground (arith, trim_space_idem value, eq_iff (trim_space value) "", eq_iff name "")
