-- ===== src/Governance/Approvals/Commit.antt =====
-- internal/usecase/governance/approval_service.go: the transaction of `recordDecision`, and the whole.
use proto_radar.Prelude.{
  String, ◌==◌, false, Option, none, some, List, [], ◌∷◌, length, trim_space, if◌then◌else◌,
}
use proto_radar.Prelude.Json.{word, field, optional, marshal}
use proto_radar.Domain.Errors.{Err, governance, GovernanceError, is_duplicate}
use proto_radar.Domain.Ids.{new_governance_audit_event_id}
use proto_radar.Domain.Enums.{
  ApprovalDecisionValue, approval_decision_value_text, ApprovalRequestStatus,
  approval_request_status_text, ApprovalRequirementStatus, GovernanceAuditEventType,
  governance_audit_event_type_text,
}
use proto_radar.Domain.Records.{Time, ApprovalRequest, ApprovalDecision}
use proto_radar.Store.Db.{Platform}
use proto_radar.Store.World.{M, ◌>>=◌, ◌>>◌, done, map_fault, random_hex, within_transaction}
use proto_radar.Store.Approvals.{
  get_request_by_id, add_decision, update_requirement_status, update_request_status,
}
use proto_radar.Store.OutboxWriter.{write_event}
use proto_radar.Audit.{AuditResource, AuditEvent, record_audit}
use proto_radar.Events.{new_approval_decision_recorded}
use proto_radar.Governance.Policy.{PolicyConfig}
use proto_radar.Governance.Approvals.Prepare.{
  ApprovalDecisionInput, Prepared, prepare_decision, all_requirements_approved_after,
  received_approvals_after,
}

abbrev pub new_requirement_status : ApprovalDecisionValue → ApprovalRequirementStatus
new_requirement_status ApprovalDecisionValue.approved = ApprovalRequirementStatus.approved
new_requirement_status ApprovalDecisionValue.rejected = ApprovalRequirementStatus.rejected

unfoldable pub new_request_status : Prepared → ApprovalRequestStatus
unfolding all_requirements_approved_after
new_request_status p = elim p.decision.decision [
  | ApprovalDecisionValue.rejected ↦ ApprovalRequestStatus.rejected
  | ApprovalDecisionValue.approved ↦
      if all_requirements_approved_after p.request.requirements p.requirement.id
      then ApprovalRequestStatus.approved
      else ApprovalRequestStatus.pending
]

abbrev report_resource : Option String → List AuditResource
report_resource none = []
report_resource (some id) = record { kind = "breaking_report"; id = id; name = "" } ∷ []

unfoldable pub approval_audit_event :
    GovernanceAuditEventType → ApprovalRequest → String → String → Time → String → AuditEvent
approval_audit_event event_type request actor payload occurred_at id = record {
  id = new_governance_audit_event_id id;
  kind = governance_audit_event_type_text event_type;
  actor = actor;
  action = governance_audit_event_type_text event_type;
  outcome = "success";
  resource = record { kind = "approval_request"; id = request.id; name = "" };
  related_resources =
      record { kind = "module"; id = request.module_id; name = request.module_name }
      ∷ report_resource request.breaking_report_id;
  payload = payload;
  occurred_at = occurred_at;
}

unfoldable pub append_approval_audit :
    Platform → GovernanceAuditEventType → ApprovalRequest → String → String → Time → M (Unit {0})
unfolding record_audit random_hex approval_audit_event
append_approval_audit platform event_type request actor payload occurred_at = do
  id ← random_hex
  record_audit platform (approval_audit_event event_type request actor payload occurred_at id)

-- `approvalDecisionAuditPayload` and `approvalStatusChangedAuditPayload` as JSON.
unfoldable pub decision_payload : ApprovalDecision → String
decision_payload d = marshal (
    field "decision_id" (word d.id) (
      field "requirement_id" (word d.requirement_id) (
        field "decision" (word (approval_decision_value_text d.decision))
          (field "decided_by" (word d.decided_by) (optional "comment" d.comment [])))))

unfoldable pub status_changed_payload : ApprovalRequestStatus → ApprovalRequestStatus → String
status_changed_payload before after = marshal (
    field "from_status" (word (approval_request_status_text before))
      (field "to_status" (word (approval_request_status_text after)) []))

unfoldable pub append_decision_audit : Platform → Prepared → Time → M (Unit {0})
unfolding append_approval_audit decision_payload
append_decision_audit platform p now =
    append_approval_audit platform GovernanceAuditEventType.approval_decision_recorded p.request
      (trim_space p.decision.decided_by) (decision_payload p.decision) now

unfoldable pub append_status_changed_audit :
    Platform → Prepared → ApprovalRequestStatus → Time → M (Unit {0})
unfolding append_approval_audit status_changed_payload
append_status_changed_audit platform p status now =
    append_approval_audit platform GovernanceAuditEventType.approval_request_status_changed
      p.request (trim_space p.decision.decided_by) (status_changed_payload p.request.status status)
      now

abbrev map_decision_error : Err → Err
map_decision_error e =
    if is_duplicate e then governance GovernanceError.approval_requirement_conflict else e

-- The three statements on the approval tables.
unfoldable pub write_decision : Platform → Prepared → Time → M (Unit {0})
unfolding add_decision update_requirement_status update_request_status new_request_status
    received_approvals_after
write_decision platform p now =
    let requirement_status = new_requirement_status p.decision.decision in
    do
      map_fault map_decision_error (add_decision platform p.decision)
      update_requirement_status platform p.requirement.id requirement_status now
      update_request_status platform p.request.id (new_request_status p)
          (length p.request.requirements)
          (received_approvals_after p.request.requirements p.requirement.id requirement_status) now

-- What is told of the decision: the audit events and the outbox event.
unfoldable pub announce_decision : Platform → Prepared → Time → M (Unit {0})
unfolding append_decision_audit append_status_changed_audit write_event new_request_status
announce_decision platform p now = do
  append_decision_audit platform p now
  if approval_request_status_text p.request.status
        == approval_request_status_text (new_request_status p)
      then done tt
      else append_status_changed_audit platform p (new_request_status p) now
  write_event now (
      new_approval_decision_recorded platform (record {
        decision = p.decision;
        module_id = p.request.module_id;
        module_name = p.request.module_name;
        breaking_report_id = p.request.breaking_report_id;
        occurred_at = now;
      }))

unfoldable pub commit_decision : Platform → Prepared → Time → M (Unit {0})
unfolding write_decision announce_decision within_transaction
commit_decision platform p now =
    within_transaction false λ _. do write_decision platform p now; announce_decision platform p now

unfoldable pub record_decision :
    Platform
    → PolicyConfig
    → ApprovalDecisionInput
    → ApprovalDecisionValue
    → Time
    → M ApprovalRequest
unfolding prepare_decision commit_decision get_request_by_id
record_decision platform config input value now = do
  p ← prepare_decision platform config input value now
  commit_decision platform p now
  get_request_by_id platform p.request.id

unfoldable pub approve_requirement :
    Platform → PolicyConfig → ApprovalDecisionInput → Time → M ApprovalRequest
unfolding record_decision
approve_requirement platform config input now =
    record_decision platform config input ApprovalDecisionValue.approved now

unfoldable pub reject_requirement :
    Platform → PolicyConfig → ApprovalDecisionInput → Time → M ApprovalRequest
unfolding record_decision
reject_requirement platform config input now =
    record_decision platform config input ApprovalDecisionValue.rejected now
