-- ===== src/Domain/Names.antt =====
-- internal/domain/module_name.go, version.go and the names of runtime_inventory.go: texts that a
-- constructor trims and checks.
pub mod Acceptance
use proto_radar.Prelude.{
  ℕ, String, len, Bool, not, ◌&&◌, ◌||◌, ◌==◌, leb, ltb, eqb, if◌then◌else◌, trim_space, all_codes,
}
use proto_radar.Domain.Errors.{Result, ok, err, DomainError, Err}
use proto_radar.Domain.Errors.{domain}

-- `'a'..'z'`, `'0'..'9'`, `-` and `_`
unfoldable pub is_module_name_char : ℕ → Bool
is_module_name_char ch =
    (leb 97 ch && leb ch 122) || (leb 48 ch && leb ch 57) || (eqb ch 45 || eqb ch 95)

unfoldable pub new_module_name : String → Result String
new_module_name value =
    let name = trim_space value in
    if name == ""
    then err (domain DomainError.invalid_module_name)
    else if all_codes is_module_name_char name
    then ok name
    else err (domain DomainError.invalid_module_name)

unfoldable pub new_version : String → Result String
new_version value =
    let version = trim_space value in
    if version == "" then err (domain DomainError.invalid_version) else ok version

-- `'a'..'z'`, `'A'..'Z'`, `'0'..'9'`, `-`, `_`, `/` and `.`
unfoldable pub is_runtime_name_char : ℕ → Bool
is_runtime_name_char ch =
    if leb 97 ch && leb ch 122
    then Bool.true
    else if leb 65 ch && leb ch 90
    then Bool.true
    else if leb 48 ch && leb ch 57
    then Bool.true
    else eqb ch 45 || eqb ch 95 || eqb ch 47 || eqb ch 46

abbrev pub max_runtime_service_name_length : ℕ
max_runtime_service_name_length = 128

abbrev pub max_runtime_environment_length : ℕ
max_runtime_environment_length = 64

abbrev pub max_runtime_git_commit_length : ℕ
max_runtime_git_commit_length = 128

abbrev pub max_runtime_build_version_length : ℕ
max_runtime_build_version_length = 128

unfoldable pub new_runtime_service_name : String → Result String
new_runtime_service_name value =
    let name = trim_space value in
    if name == "" || ltb max_runtime_service_name_length (len name)
    then err (domain DomainError.invalid_runtime_service_name)
    else if all_codes is_runtime_name_char name
    then ok name
    else err (domain DomainError.invalid_runtime_service_name)

unfoldable pub new_runtime_environment : String → Result String
new_runtime_environment value =
    let environment = trim_space value in
    if environment == "" || ltb max_runtime_environment_length (len environment)
    then err (domain DomainError.invalid_runtime_environment)
    else if all_codes is_runtime_name_char environment
    then ok environment
    else err (domain DomainError.invalid_runtime_environment)

-- strings.ContainsAny(value, " \t\n\r"): no character of the value is one of the four.
abbrev not_blank : ℕ → Bool
not_blank c = not (eqb c 32 || eqb c 9 || eqb c 10 || eqb c 13)

-- strings.ContainsAny(value, "\t\n\r")
abbrev not_control : ℕ → Bool
not_control c = not (eqb c 9 || eqb c 10 || eqb c 13)

unfoldable pub validate_runtime_git_commit : String → Result (Unit {0})
validate_runtime_git_commit value =
    let commit = trim_space value in
    if commit == ""
      || ltb max_runtime_git_commit_length (len commit)
      || not (all_codes not_blank commit)
    then err (domain DomainError.invalid_runtime_git_commit)
    else ok tt

unfoldable pub validate_runtime_build_version : String → Result (Unit {0})
validate_runtime_build_version value =
    let version = trim_space value in
    if version == ""
      || ltb max_runtime_build_version_length (len version)
      || not (all_codes not_control version)
    then err (domain DomainError.invalid_runtime_build_version)
    else ok tt
