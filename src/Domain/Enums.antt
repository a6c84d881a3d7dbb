-- ===== src/Domain/Enums.antt =====
-- internal/domain/governance.go, breaking_report.go and runtime_inventory.go: the enumerations. In Go
-- each is a string type with a list of its values; here it is a data type with the text of each
-- value, so that a value is always one of the list, as every constructor of the source ensures.
pub mod Parsing
use proto_radar.Prelude.{
  String, ◌==◌, Option, none, some, Bool, true, false, List, [], ◌∷◌, find, trim_space,
}
use proto_radar.Domain.Errors.{Result, ok, err, Err, DomainError, domain}

-- The value of the list whose text is the trimmed input: `IsValid` after `TrimSpace`.
unfoldable pub of_text {ℓ} : {A : Type ℓ} → (A → String) → List A → String → Option A
of_text text values value = find (λ a. trim_space value == text a) values

abbrev pub or_invalid {ℓ} : {A : Type ℓ} → DomainError → Option A → Result A
or_invalid e none = err (domain e)
or_invalid e (some a) = ok a

pub data GovernanceSubjectType : Type 0 where
  user team : GovernanceSubjectType

abbrev pub governance_subject_type_text : GovernanceSubjectType → String
governance_subject_type_text GovernanceSubjectType.user = "user"
governance_subject_type_text GovernanceSubjectType.team = "team"

abbrev pub governance_subject_types : List GovernanceSubjectType
governance_subject_types = GovernanceSubjectType.user ∷ GovernanceSubjectType.team ∷ []

unfoldable pub new_governance_subject_type : String → Result GovernanceSubjectType
unfolding of_text
new_governance_subject_type value =
    or_invalid DomainError.invalid_governance_subject_type
      (of_text governance_subject_type_text governance_subject_types value)

pub data ModuleOwnerRole : Type 0 where
  owner maintainer : ModuleOwnerRole

abbrev pub module_owner_role_text : ModuleOwnerRole → String
module_owner_role_text ModuleOwnerRole.owner = "owner"
module_owner_role_text ModuleOwnerRole.maintainer = "maintainer"

abbrev pub module_owner_roles : List ModuleOwnerRole
module_owner_roles = ModuleOwnerRole.owner ∷ ModuleOwnerRole.maintainer ∷ []

unfoldable pub new_module_owner_role : String → Result ModuleOwnerRole
unfolding of_text
new_module_owner_role value =
    or_invalid DomainError.invalid_module_owner_role
      (of_text module_owner_role_text module_owner_roles value)

pub data ApprovalRequestStatus : Type 0 where
  pending approved rejected cancelled not_required : ApprovalRequestStatus

abbrev pub approval_request_status_text : ApprovalRequestStatus → String
approval_request_status_text ApprovalRequestStatus.pending = "pending"
approval_request_status_text ApprovalRequestStatus.approved = "approved"
approval_request_status_text ApprovalRequestStatus.rejected = "rejected"
approval_request_status_text ApprovalRequestStatus.cancelled = "cancelled"
approval_request_status_text ApprovalRequestStatus.not_required = "not_required"

abbrev pub approval_request_statuses : List ApprovalRequestStatus
approval_request_statuses =
    ApprovalRequestStatus.pending ∷ ApprovalRequestStatus.approved ∷ ApprovalRequestStatus.rejected
    ∷ ApprovalRequestStatus.cancelled ∷ ApprovalRequestStatus.not_required ∷ []

unfoldable pub new_approval_request_status : String → Result ApprovalRequestStatus
unfolding of_text
new_approval_request_status value =
    or_invalid DomainError.invalid_approval_request_status
      (of_text approval_request_status_text approval_request_statuses value)

pub data ApprovalRequirementType : Type 0 where
  module_owner_approval affected_consumer_approval : ApprovalRequirementType

abbrev pub approval_requirement_type_text : ApprovalRequirementType → String
approval_requirement_type_text ApprovalRequirementType.module_owner_approval =
    "module_owner_approval"
approval_requirement_type_text ApprovalRequirementType.affected_consumer_approval =
    "affected_consumer_approval"

abbrev pub approval_requirement_types : List ApprovalRequirementType
approval_requirement_types =
    ApprovalRequirementType.module_owner_approval
    ∷ ApprovalRequirementType.affected_consumer_approval ∷ []

unfoldable pub new_approval_requirement_type : String → Result ApprovalRequirementType
unfolding of_text
new_approval_requirement_type value =
    or_invalid DomainError.invalid_approval_requirement_type
      (of_text approval_requirement_type_text approval_requirement_types value)

pub data ApprovalRequirementStatus : Type 0 where
  pending approved rejected not_required : ApprovalRequirementStatus

abbrev pub approval_requirement_status_text : ApprovalRequirementStatus → String
approval_requirement_status_text ApprovalRequirementStatus.pending = "pending"
approval_requirement_status_text ApprovalRequirementStatus.approved = "approved"
approval_requirement_status_text ApprovalRequirementStatus.rejected = "rejected"
approval_requirement_status_text ApprovalRequirementStatus.not_required = "not_required"

abbrev pub approval_requirement_statuses : List ApprovalRequirementStatus
approval_requirement_statuses =
    ApprovalRequirementStatus.pending ∷ ApprovalRequirementStatus.approved
    ∷ ApprovalRequirementStatus.rejected ∷ ApprovalRequirementStatus.not_required ∷ []

unfoldable pub new_approval_requirement_status : String → Result ApprovalRequirementStatus
unfolding of_text
new_approval_requirement_status value =
    or_invalid DomainError.invalid_approval_requirement_status
      (of_text approval_requirement_status_text approval_requirement_statuses value)

pub data ApprovalDecisionValue : Type 0 where
  approved rejected : ApprovalDecisionValue

abbrev pub approval_decision_value_text : ApprovalDecisionValue → String
approval_decision_value_text ApprovalDecisionValue.approved = "approved"
approval_decision_value_text ApprovalDecisionValue.rejected = "rejected"

abbrev pub approval_decision_values : List ApprovalDecisionValue
approval_decision_values = ApprovalDecisionValue.approved ∷ ApprovalDecisionValue.rejected ∷ []

unfoldable pub new_approval_decision_value : String → Result ApprovalDecisionValue
unfolding of_text
new_approval_decision_value value =
    or_invalid DomainError.invalid_approval_decision
      (of_text approval_decision_value_text approval_decision_values value)

pub data GovernanceAuditEventType : Type 0 where
  module_owner_added module_owner_removed approval_request_created approval_decision_recorded
        approval_request_status_changed policy_evaluated :
      GovernanceAuditEventType

abbrev pub governance_audit_event_type_text : GovernanceAuditEventType → String
governance_audit_event_type_text GovernanceAuditEventType.module_owner_added = "module_owner_added"
governance_audit_event_type_text GovernanceAuditEventType.module_owner_removed =
    "module_owner_removed"
governance_audit_event_type_text GovernanceAuditEventType.approval_request_created =
    "approval_request_created"
governance_audit_event_type_text GovernanceAuditEventType.approval_decision_recorded =
    "approval_decision_recorded"
governance_audit_event_type_text GovernanceAuditEventType.approval_request_status_changed =
    "approval_request_status_changed"
governance_audit_event_type_text GovernanceAuditEventType.policy_evaluated = "policy_evaluated"

abbrev pub governance_audit_event_types : List GovernanceAuditEventType
governance_audit_event_types =
    GovernanceAuditEventType.module_owner_added ∷ GovernanceAuditEventType.module_owner_removed
    ∷ GovernanceAuditEventType.approval_request_created
    ∷ GovernanceAuditEventType.approval_decision_recorded
    ∷ GovernanceAuditEventType.approval_request_status_changed
    ∷ GovernanceAuditEventType.policy_evaluated ∷ []

unfoldable pub new_governance_audit_event_type : String → Result GovernanceAuditEventType
unfolding of_text
new_governance_audit_event_type value =
    or_invalid DomainError.invalid_governance_audit_event_type
      (of_text governance_audit_event_type_text governance_audit_event_types value)

pub data BreakingReportStatus : Type 0 where
  passed breaking failed : BreakingReportStatus

pub data RuntimeDriftStatus : Type 0 where
  up_to_date behind_latest unknown_version deprecated_version : RuntimeDriftStatus

abbrev pub runtime_drift_status_text : RuntimeDriftStatus → String
runtime_drift_status_text RuntimeDriftStatus.up_to_date = "up_to_date"
runtime_drift_status_text RuntimeDriftStatus.behind_latest = "behind_latest"
runtime_drift_status_text RuntimeDriftStatus.unknown_version = "unknown_version"
runtime_drift_status_text RuntimeDriftStatus.deprecated_version = "deprecated_version"

abbrev pub runtime_drift_statuses : List RuntimeDriftStatus
runtime_drift_statuses =
    RuntimeDriftStatus.up_to_date ∷ RuntimeDriftStatus.behind_latest
    ∷ RuntimeDriftStatus.unknown_version ∷ RuntimeDriftStatus.deprecated_version ∷ []

unfoldable pub new_runtime_drift_status : String → Result RuntimeDriftStatus
unfolding of_text
new_runtime_drift_status value =
    or_invalid DomainError.invalid_runtime_drift_status
      (of_text runtime_drift_status_text runtime_drift_statuses value)

-- `role == ModuleOwnerRoleOwner` and the like.
abbrev pub is_owner : ModuleOwnerRole → Bool
is_owner ModuleOwnerRole.owner = true
is_owner ModuleOwnerRole.maintainer = false

abbrev pub role_eq : ModuleOwnerRole → ModuleOwnerRole → Bool
role_eq ModuleOwnerRole.owner ModuleOwnerRole.owner = true
role_eq ModuleOwnerRole.maintainer ModuleOwnerRole.maintainer = true
role_eq _ _ = false

abbrev pub subject_type_eq : GovernanceSubjectType → GovernanceSubjectType → Bool
subject_type_eq GovernanceSubjectType.user GovernanceSubjectType.user = true
subject_type_eq GovernanceSubjectType.team GovernanceSubjectType.team = true
subject_type_eq _ _ = false

abbrev pub is_pending_request : ApprovalRequestStatus → Bool
is_pending_request ApprovalRequestStatus.pending = true
is_pending_request _ = false

abbrev pub is_pending_requirement : ApprovalRequirementStatus → Bool
is_pending_requirement ApprovalRequirementStatus.pending = true
is_pending_requirement _ = false

abbrev pub is_approved_requirement : ApprovalRequirementStatus → Bool
is_approved_requirement ApprovalRequirementStatus.approved = true
is_approved_requirement _ = false

abbrev pub is_rejected_requirement : ApprovalRequirementStatus → Bool
is_rejected_requirement ApprovalRequirementStatus.rejected = true
is_rejected_requirement _ = false

-- Approved or not required: what does not hold a request back.
abbrev pub is_settled_requirement : ApprovalRequirementStatus → Bool
is_settled_requirement ApprovalRequirementStatus.approved = true
is_settled_requirement ApprovalRequirementStatus.not_required = true
is_settled_requirement _ = false

abbrev pub is_breaking : BreakingReportStatus → Bool
is_breaking BreakingReportStatus.breaking = true
is_breaking _ = false
