-- ===== src/Events.antt =====
-- internal/integration/protoradarevents: the outbox events of the governance use cases.
pub mod Runtime
use Prim.Native.String.{◌++◌ as append}
use proto_radar.Prelude.{String, Option, none, some, [], eqb, if◌then◌else◌}
use proto_radar.Prelude.Json.{word, number, field, optional, marshal}
use proto_radar.Domain.Enums.{
  approval_decision_value_text, approval_request_status_text, governance_subject_type_text,
  module_owner_role_text,
}
use proto_radar.Domain.Records.{Time, ApprovalDecision, ApprovalRequest, ModuleOwner}
use proto_radar.Outbox.Record.{Event}
use proto_radar.Store.Db.{Platform}

unfoldable pub breaking_report_id_string : Option String → String
breaking_report_id_string none = ""
breaking_report_id_string (some id) = id

-- The zero time stands for the time of what happened.
abbrev at_or : Time → Time → Time
at_or t created = if eqb t 0 then created else t

pub record ApprovalDecisionRecorded : Type 0 where
  pub decision : ApprovalDecision
  pub module_id : String
  pub module_name : String
  pub breaking_report_id : Option String
  pub occurred_at : Time

unfoldable pub new_approval_decision_recorded : Platform → ApprovalDecisionRecorded → Event
unfolding breaking_report_id_string
new_approval_decision_recorded platform event =
    let occurred_at = at_or event.occurred_at event.decision.created_at in
    record {
      aggregate_type = "approval_request";
      aggregate_id = event.decision.approval_request_id;
      event_type = "protoradar.approval_decision.recorded";
      dedup_key = append "approval-decision:" (append event.decision.id ":recorded");
      payload = marshal (
          field "approval_decision_id" (word event.decision.id) (
            field "approval_request_id" (word event.decision.approval_request_id) (
              field "requirement_id" (word event.decision.requirement_id) (
                field "decision" (word (approval_decision_value_text event.decision.decision)) (
                  field "decided_by" (word event.decision.decided_by) (
                    optional "module_id" event.module_id (
                      optional "module_name" event.module_name (
                        optional "breaking_report_id"
                          (breaking_report_id_string event.breaking_report_id)
                          (field "occurred_at" (word (platform.rfc3339 occurred_at)) [])))))))));
      occurred_at = occurred_at;
    }

pub record ApprovalRequestCreated : Type 0 where
  pub request : ApprovalRequest
  pub actor : String
  pub occurred_at : Time

unfoldable pub new_approval_request_created : Platform → ApprovalRequestCreated → Event
unfolding breaking_report_id_string
new_approval_request_created platform event =
    let occurred_at = at_or event.occurred_at event.request.created_at in
    record {
      aggregate_type = "approval_request";
      aggregate_id = event.request.id;
      event_type = "protoradar.approval_request.created";
      dedup_key = append "approval-request:" (append event.request.id ":created");
      payload = marshal (
          field "approval_request_id" (word event.request.id) (
            field "module_id" (word event.request.module_id) (
              field "module_name" (word event.request.module_name) (
                optional "breaking_report_id"
                  (breaking_report_id_string event.request.breaking_report_id)
                  (field "target_ref" (word event.request.target_ref) (
                    field "status" (word (approval_request_status_text event.request.status)) (
                      field "required_approvals" (number event.request.required_approvals) (
                        field "received_approvals" (number event.request.received_approvals) (
                          optional "actor" event.actor
                            (field "occurred_at" (word (platform.rfc3339 occurred_at)) []))))))))));
      occurred_at = occurred_at;
    }

-- `ModuleOwnerAdded` and `ModuleOwnerRemoved`.
pub record ModuleOwnerChanged : Type 0 where
  pub owner : ModuleOwner
  pub actor : String
  pub occurred_at : Time

owner_event : Platform → String → String → Time → ModuleOwnerChanged → Event
owner_event platform event_type verb occurred_at event = record {
  aggregate_type = "module";
  aggregate_id = event.owner.module_id;
  event_type = event_type;
  dedup_key =
      append "module:"
        (append event.owner.module_id (append ":owner:" (append event.owner.id (append ":" verb))));
  payload = marshal (
      field "owner_id" (word event.owner.id) (
        field "module_id" (word event.owner.module_id) (
          field "module_name" (word event.owner.module_name) (
            field "subject_type" (word (governance_subject_type_text event.owner.subject_type)) (
              field "subject" (word event.owner.subject) (
                field "role" (word (module_owner_role_text event.owner.role)) (
                  optional "actor" event.actor
                    (field "occurred_at" (word (platform.rfc3339 occurred_at)) []))))))));
  occurred_at = occurred_at;
}

unfoldable pub new_module_owner_added : Platform → ModuleOwnerChanged → Event
unfolding owner_event
new_module_owner_added platform event =
    owner_event platform "protoradar.module_owner.added" "added"
      (at_or event.occurred_at event.owner.created_at) event

unfoldable pub new_module_owner_removed : Platform → ModuleOwnerChanged → Event
unfolding owner_event
new_module_owner_removed platform event =
    owner_event platform "protoradar.module_owner.removed" "removed"
      (at_or event.occurred_at event.owner.updated_at) event
