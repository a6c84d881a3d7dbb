-- ===== src/Store/Db.antt =====
-- The tables that the repositories of internal/repository/postgres read and write, as migrations/ makes
-- them: 000001_registry, 000003_breaking_reports, 000005_dependency_graph, 000006_runtime_inventory,
-- 000007_governance, 000008_outbox_lifecycle and 000009_module_version_deprecation. A column with a CHECK on its values has the enumeration's
-- type. A name of a module that a row holds went through `NewModuleName`, which accepts it again
-- unchanged, and an identifier is the text that Postgres prints for a uuid.
use proto_radar.Prelude.{ℕ, String, Option, none, some, List, ◌≡◌, arith, Option-cases, inl, inr}
use proto_radar.Domain.Errors.{Err, Result, ok, err, driver}
use proto_radar.Domain.Enums.{ApprovalRequestStatus, GovernanceAuditEventType}
use proto_radar.Domain.Records.{
  Time, Module, ModuleOwner, BreakingReport, ApprovalRequirement, ApprovalDecision,
}
use proto_radar.Domain.Enums.{RuntimeDriftStatus}
use proto_radar.Domain.Versions.{ModuleVersion, ApiToken}
use proto_radar.Domain.Runtime.{RuntimeService}
use proto_radar.Domain.Dependencies.{
  DependencySource, DependencyResolutionReason, UnresolvedDependencyReason,
}
use proto_radar.Outbox.Table.{Table}

-- A row of approval_requests.
pub record RequestRow : Type 0 where
  pub id : String
  pub module_id : String
  pub breaking_report_id : Option String
  pub target_ref : String
  pub status : ApprovalRequestStatus
  pub required_approvals : ℕ
  pub received_approvals : ℕ
  pub created_at : Time
  pub updated_at : Time

-- `domain.GovernanceAuditEvent`, a row of governance_audit_events.
pub record GovernanceAuditEvent : Type 0 where
  pub id : String
  pub event_type : GovernanceAuditEventType
  pub actor : String
  pub module_id : Option String
  pub module_name : String
  pub approval_request_id : Option String
  pub breaking_report_id : Option String
  pub payload_json : String
  pub created_at : Time

-- A row of runtime_deployments, of runtime_module_usages, of module_dependencies and of
-- unresolved_proto_dependencies.
pub record DeploymentRow : Type 0 where
  pub id : String
  pub service_id : String
  pub environment : String
  pub git_commit : String
  pub build_version : String
  pub reported_at : Time
  pub created_at : Time

pub record UsageRow : Type 0 where
  pub id : String
  pub deployment_id : String
  pub module_id : Option String
  pub module_name : String
  pub module_version_id : Option String
  pub version : String
  pub drift_status : RuntimeDriftStatus
  pub drift_reason : String
  pub created_at : Time

pub record DependencyRow : Type 0 where
  pub id : String
  pub consumer_module_id : String
  pub consumer_module_version_id : String
  pub provider_module_id : String
  pub provider_module_version_id : String
  pub source : DependencySource
  pub reason : DependencyResolutionReason
  pub import_path : String
  pub referenced_package : String
  pub referenced_symbol : String
  pub created_at : Time

pub record UnresolvedRow : Type 0 where
  pub id : String
  pub module_id : String
  pub module_version_id : String
  pub source : DependencySource
  pub import_path : String
  pub referenced_package : String
  pub referenced_symbol : String
  pub reason : UnresolvedDependencyReason
  pub created_at : Time

pub record Db : Type 0 where
  pub modules : List Module
  pub versions : List ModuleVersion
  pub tokens : List ApiToken
  pub services : List RuntimeService
  pub deployments : List DeploymentRow
  pub usages : List UsageRow
  pub dependencies : List DependencyRow
  pub unresolved : List UnresolvedRow
  pub reports : List BreakingReport
  pub owners : List ModuleOwner
  pub requests : List RequestRow
  pub requirements : List ApprovalRequirement
  pub decisions : List ApprovalDecision
  pub audit : List GovernanceAuditEvent
  pub outbox : Table

-- What Postgres does with a text for a uuid column: none if it is no uuid, else the text that it
-- prints for it, which stands for itself and has no spaces around it. `rfc3339` is the text of a time
-- in a JSON document.
pub record Platform : Type 0 where
  pub uuid : String → Option String
  pub uuid_printed : (s c : String) → uuid s ≡ some c → uuid c ≡ some c
  pub rfc3339 : Time → String

-- invalid_text_representation, foreign_key_violation: errors that `mapError` leaves alone.
abbrev pub invalid_text : Err
invalid_text = driver 1

abbrev pub foreign_key : Err
foreign_key = driver 2

-- A statement with a uuid argument.
abbrev pub with_uuid {ℓ} : {A : Type ℓ} → Platform → String → (String → Result A) → Result A
with_uuid platform id statement = elim (platform.uuid id) [
  | none ↦ err invalid_text
  | some c ↦ statement c
]

-- A nullable uuid argument.
abbrev pub with_nullable_uuid {ℓ} :
    {A : Type ℓ} → Platform → Option String → (Option String → Result A) → Result A
with_nullable_uuid platform none statement = statement none
with_nullable_uuid platform (some id) statement = with_uuid platform id λ c. statement (some c)

-- A nullable uuid as Postgres prints it.
abbrev pub IsPrintedAs : Platform → Option String → Option String → Type 0
IsPrintedAs platform none none = Unit {0}
IsPrintedAs platform none (some c) = ⊥
IsPrintedAs platform (some id) none = ⊥
IsPrintedAs platform (some id) (some c) = platform.uuid id ≡ some c

-- A statement that succeeded had uuids for its arguments.
pub with_uuid-eq-ok :
    {A : Type 0} (platform : Platform) (id : String) (statement : String → Result A) (a : A)
    → with_uuid platform id statement ≡ ok a
    → (c : String) × (platform.uuid id ≡ some c) × (statement c ≡ ok a)
with_uuid-eq-ok platform id statement a h = elim (Option-cases (platform.uuid id)) [
  | inl bad ↦ ground (arith, bad, h)
  | inr (c, printed) ↦ (c, printed, ground (arith, printed, h))
]

pub with_nullable_uuid-eq-ok :
    {A : Type 0} (platform : Platform) (id : Option String) (statement : Option String → Result A)
    (a : A)
    → with_nullable_uuid platform id statement ≡ ok a
    → (c : Option String) × IsPrintedAs platform id c × (statement c ≡ ok a)
with_nullable_uuid-eq-ok platform none statement a h = (none, tt, h)
with_nullable_uuid-eq-ok platform (some id) statement a h =
    let (c, printed, e) = with_uuid-eq-ok platform id (λ c. statement (some c)) a h in
    (some c, printed, e)
