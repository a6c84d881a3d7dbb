-- ===== src/Domain/Errors.antt =====
-- internal/domain/errors.go, internal/usecase/governance/errors.go and the sentinel errors of the
-- other packages. An `error` is a value of `Err`; `errors.Is` on a sentinel is a test on it.
use proto_radar.Prelude.{ℕ, Bool, true, false, ◌≡◌, refl, ◌⊎◌, inl, inr}

-- The sentinels of package domain that the modelled code returns or tests for.
pub data DomainError : Type 0 where
  invalid_module_name invalid_version : DomainError
  invalid_runtime_service_name invalid_runtime_environment : DomainError
  invalid_runtime_git_commit invalid_runtime_build_version : DomainError
  invalid_runtime_drift_status : DomainError
  invalid_governance_subject_type invalid_governance_subject : DomainError
  invalid_module_owner_role invalid_approval_request_status : DomainError
  invalid_approval_requirement_type invalid_approval_requirement_status : DomainError
  invalid_approval_decision invalid_approval_actor : DomainError
  invalid_governance_audit_event_type approval_decision_comment_too_long : DomainError
  duplicate not_found : DomainError

-- The sentinels of package governance.
pub data GovernanceError : Type 0 where
  invalid_module_name module_not_found invalid_subject_type : GovernanceError
  invalid_subject invalid_module_owner_role invalid_module_owner_id : GovernanceError
  module_owner_not_found module_owner_already_exists : GovernanceError
  invalid_breaking_report_id breaking_report_not_found : GovernanceError
  approval_request_not_found invalid_requirement_id : GovernanceError
  approval_requirement_not_found invalid_approval_actor : GovernanceError
  approval_decision_comment_too_long approval_request_conflict : GovernanceError
  approval_requirement_conflict approval_actor_forbidden : GovernanceError
  governance_actor_override_forbidden : GovernanceError

-- `driver` is any error of the database driver, the random source or the context, told apart by a
-- number.
pub data Err : Type 0 where
  domain : DomainError → Err
  governance : GovernanceError → Err
  payload_too_large : Err
  runtime_modules_required : Err
  unauthenticated forbidden : Err
  driver : ℕ → Err

-- errors.Is(err, domain.ErrNotFound)
abbrev pub is_not_found : Err → Bool
is_not_found (domain DomainError.not_found) = true
is_not_found _ = false

-- errors.Is(err, domain.ErrDuplicate)
abbrev pub is_duplicate : Err → Bool
is_duplicate (domain DomainError.duplicate) = true
is_duplicate _ = false

pub data Result {ℓ} (T : Type ℓ) : Type ℓ where
  ok : T → Result T
  err : Err → Result T

infixl 5 ◌>>=◌ ◌>>◌
-- `value, err := m; if err != nil { return err }`
abbrev pub ◌>>=◌ {ℓ κ} : {T : Type ℓ} {U : Type κ} → Result T → (T → Result U) → Result U
err failure >>= next = err failure
ok value >>= next = next value

abbrev pub ◌>>◌ {ℓ} : {U : Type ℓ} → Result (Unit {0}) → Result U → Result U
m >> next = m >>= λ _. next

-- `if !test { return failure }`
abbrev pub guard : Bool → Err → Result (Unit {0})
guard false failure = err failure
guard true failure = ok tt

-- `if err != nil { return f(err) }`
abbrev pub map_err {ℓ} : {T : Type ℓ} → (Err → Err) → Result T → Result T
map_err f (err failure) = err (f failure)
map_err f (ok value) = ok value

pub Result-cases {ℓ} :
    {T : Type ℓ} (outcome : Result T)
    → ((value : T) × (outcome ≡ ok value)) ⊎ ((failure : Err) × (outcome ≡ err failure))
Result-cases (err failure) = inr (failure, refl)
Result-cases (ok value) = inl (value, refl)

-- A chain that ends well had a first step that ended well.
pub >>=-eq-ok {ℓ κ} :
    {T : Type ℓ} {U : Type κ} (m : Result T) (next : T → Result U) {last : U}
    → (m >>= next) ≡ ok last
    → (value : T) × (m ≡ ok value) × (next value ≡ ok last)
>>=-eq-ok (err failure) next h = cc
>>=-eq-ok (ok value) next h = (value, refl, h)
