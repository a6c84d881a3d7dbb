-- ===== src/Domain/Records.antt =====
-- The records of internal/domain that the modelled packages pass around. An identifier is a text; a
-- Go pointer to one is an `Option`; a `time.Time` is a number, 0 for the zero time.
use proto_radar.Prelude.{ℕ, String, len, Option, List, ◌==◌, ltb, if◌then◌else◌, trim_space}
use proto_radar.Domain.Errors.{Result, ok, err, domain, DomainError}
use proto_radar.Domain.Enums.{
  GovernanceSubjectType, ModuleOwnerRole, ApprovalRequestStatus, ApprovalRequirementType,
  ApprovalRequirementStatus, ApprovalDecisionValue, BreakingReportStatus, RuntimeDriftStatus,
}

abbrev pub Time : Type 0
Time = ℕ

pub record Module : Type 0 where
  pub id : String
  pub name : String
  pub description : String
  pub repository_url : String
  pub created_at : Time
  pub updated_at : Time

pub record ModuleOwner : Type 0 where
  pub id : String
  pub module_id : String
  pub module_name : String
  pub subject_type : GovernanceSubjectType
  pub subject : String
  pub role : ModuleOwnerRole
  pub created_at : Time
  pub updated_at : Time

-- `BreakingReport`, less the output of buf that no modelled code reads.
pub record BreakingReport : Type 0 where
  pub id : String
  pub module_id : String
  pub module_name : String
  pub base_version_id : String
  pub target_ref : String
  pub status : BreakingReportStatus

pub record ApprovalRequirement : Type 0 where
  pub id : String
  pub approval_request_id : String
  pub requirement_type : ApprovalRequirementType
  pub target_module_id : Option String
  pub target_module_name : String
  pub required_role : ModuleOwnerRole
  pub status : ApprovalRequirementStatus
  pub reason : String
  pub created_at : Time
  pub updated_at : Time

pub record ApprovalDecision : Type 0 where
  pub id : String
  pub approval_request_id : String
  pub requirement_id : String
  pub decision : ApprovalDecisionValue
  pub decided_by : String
  pub comment : String
  pub created_at : Time

pub record ApprovalRequest : Type 0 where
  pub id : String
  pub module_id : String
  pub module_name : String
  pub breaking_report_id : Option String
  pub target_ref : String
  pub status : ApprovalRequestStatus
  pub required_approvals : ℕ
  pub received_approvals : ℕ
  pub requirements : List ApprovalRequirement
  pub decisions : List ApprovalDecision
  pub created_at : Time
  pub updated_at : Time

-- `RuntimeImpact`, less the fields that only the pages and reports print.
pub record RuntimeImpact : Type 0 where
  pub service_name : String
  pub environment : String
  pub used_module : String
  pub used_version : String
  pub reported_at : Time
  pub drift_status : RuntimeDriftStatus

-- `AffectedModule`, less its version, sources and reasons.
pub record AffectedModule : Type 0 where
  pub module_name : String

abbrev pub max_approval_decision_comment_length : ℕ
max_approval_decision_comment_length = 2000

-- `ModuleOwner.Validate`. The tests of the subject type and the role cannot fail on a value of the
-- enumerations.
unfoldable pub validate_owner : ModuleOwner → Result (Unit {0})
validate_owner owner =
    if trim_space owner.subject == ""
    then err (domain DomainError.invalid_governance_subject)
    else ok tt

-- `ApprovalDecision.Validate`, with the same remark.
unfoldable pub validate_decision : ApprovalDecision → Result (Unit {0})
validate_decision decision =
    if trim_space decision.decided_by == ""
    then err (domain DomainError.invalid_approval_actor)
    else if ltb max_approval_decision_comment_length (len decision.comment)
    then err (domain DomainError.approval_decision_comment_too_long)
    else ok tt
