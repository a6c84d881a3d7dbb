-- ===== src/Governance/Types.antt =====
-- internal/usecase/governance/types.go: what the policy answers.
use proto_radar.Prelude.{ℕ, String, ◌==◌, Bool, Option, List}
use proto_radar.Domain.Enums.{
  ModuleOwnerRole, ApprovalRequestStatus, ApprovalRequirementType, ApprovalRequirementStatus,
}

pub data GovernancePolicyReason : Type 0 where
  governance_disabled no_breaking_changes breaking_changes : GovernancePolicyReason
  module_owner_required affected_consumer_required : GovernancePolicyReason
  missing_module_owner production_runtime_consumer : GovernancePolicyReason

-- `existing == reason`, by the text of the reasons.
abbrev pub reason_string : GovernancePolicyReason → String
reason_string governance_disabled = "governance_disabled"
reason_string no_breaking_changes = "no_breaking_changes"
reason_string breaking_changes = "breaking_changes"
reason_string module_owner_required = "module_owner_required"
reason_string affected_consumer_required = "affected_consumer_required"
reason_string missing_module_owner = "missing_module_owner"
reason_string production_runtime_consumer = "production_runtime_consumer"

abbrev pub reason_eq : GovernancePolicyReason → GovernancePolicyReason → Bool
reason_eq a b = reason_string a == reason_string b

pub record GovernancePolicyWarning : Type 0 where
  pub requirement_type : ApprovalRequirementType
  pub target_module_id : Option String
  pub target_module_name : String
  pub reason : GovernancePolicyReason
  pub message : String

pub record GovernanceRequirementPlan : Type 0 where
  pub requirement_type : ApprovalRequirementType
  pub target_module_id : Option String
  pub target_module_name : String
  pub required_role : ModuleOwnerRole
  pub allowed_roles : List ModuleOwnerRole
  pub status : ApprovalRequirementStatus
  pub reason : GovernancePolicyReason
  pub reason_text : String
  pub warnings : List GovernancePolicyWarning

pub record GovernancePolicyResult : Type 0 where
  pub approval_required : Bool
  pub status : ApprovalRequestStatus
  pub required_approvals : ℕ
  pub requirements : List GovernanceRequirementPlan
  pub reasons : List GovernancePolicyReason
  pub reason_text : String
  pub warnings : List GovernancePolicyWarning
