-- ===== src/Domain/Enums/Parsing.antt =====
-- Parsing of the enumerations: exactly the text of a value, with spaces around it, is that value.
use proto_radar.Prelude.{String, eq_iff, ◌≡◌, ◌↔◌, arith, trim_space}
use proto_radar.Domain.Errors.{ok}
use proto_radar.Domain.Enums.{
  ApprovalRequestStatus, approval_request_status_text, new_approval_request_status, ModuleOwnerRole,
  module_owner_role_text, new_module_owner_role, GovernanceSubjectType,
  governance_subject_type_text, new_governance_subject_type,
}

-- A text parses as an approval request status exactly if, trimmed, it is the text of that status.
pub new_approval_request_status_iff :
    (value : String) (s : ApprovalRequestStatus)
    → (new_approval_request_status value ≡ ok s)
      ↔ (trim_space value ≡ approval_request_status_text s)
unfolding new_approval_request_status
new_approval_request_status_iff value s = (
  λ h. ground (
    arith,
    eq_iff (trim_space value) "pending",
    eq_iff (trim_space value) "approved",
    eq_iff (trim_space value) "rejected",
    eq_iff (trim_space value) "cancelled",
    eq_iff (trim_space value) "not_required",
  ),
  back s,
)
  where
    back :
        (t : ApprovalRequestStatus)
        → trim_space value ≡ approval_request_status_text t
        → new_approval_request_status value ≡ ok t
    back ApprovalRequestStatus.pending h = rw h
    back ApprovalRequestStatus.approved h = rw h
    back ApprovalRequestStatus.rejected h = rw h
    back ApprovalRequestStatus.cancelled h = rw h
    back ApprovalRequestStatus.not_required h = rw h

pub new_module_owner_role_iff :
    (value : String) (r : ModuleOwnerRole)
    → (new_module_owner_role value ≡ ok r) ↔ (trim_space value ≡ module_owner_role_text r)
unfolding new_module_owner_role
new_module_owner_role_iff value r = (
  λ h. ground (arith, eq_iff (trim_space value) "owner", eq_iff (trim_space value) "maintainer"),
  back r,
)
  where
    back :
        (t : ModuleOwnerRole)
        → trim_space value ≡ module_owner_role_text t
        → new_module_owner_role value ≡ ok t
    back ModuleOwnerRole.owner h = rw h
    back ModuleOwnerRole.maintainer h = rw h

pub new_governance_subject_type_iff :
    (value : String) (r : GovernanceSubjectType)
    → (new_governance_subject_type value ≡ ok r)
      ↔ (trim_space value ≡ governance_subject_type_text r)
unfolding new_governance_subject_type
new_governance_subject_type_iff value r = (
  λ h. ground (arith, eq_iff (trim_space value) "user", eq_iff (trim_space value) "team"),
  back r,
)
  where
    back :
        (t : GovernanceSubjectType)
        → trim_space value ≡ governance_subject_type_text t
        → new_governance_subject_type value ≡ ok t
    back GovernanceSubjectType.user h = rw h
    back GovernanceSubjectType.team h = rw h
