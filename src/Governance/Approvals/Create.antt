-- ===== src/Governance/Approvals/Create.antt =====
-- internal/usecase/governance/approval_service.go: the creation of the approval request of a breaking
-- report, and what is read of it.
use proto_radar.Prelude.{
  ℕ, String, ◌==◌, Bool, true, false, not, none, some, List, [], map, length, trim_space,
  if◌then◌else◌,
}
use proto_radar.Prelude.Json.{texts, number, flag, field, marshal}
use proto_radar.Prelude.Int.{ℤ, nonpos, to_ℕ}
use proto_radar.Domain.Errors.{Err, Result, ok, err, governance, GovernanceError, is_duplicate}
use proto_radar.Domain.Ids.{new_breaking_report_id, new_approval_request_id}
use proto_radar.Domain.Enums.{GovernanceAuditEventType}
use proto_radar.Domain.Records.{Time, ApprovalRequest}
use proto_radar.Store.Db.{Platform, GovernanceAuditEvent}
use proto_radar.Store.World.{
  World, M, ◌>>=◌, ◌>>◌, done, lift, require, map_fault, within_transaction, find_row,
}
use proto_radar.Store.Modules.{get_breaking_report}
use proto_radar.Store.Approvals.{
  create_request, get_request_by_id, get_request_by_breaking_report_id,
}
use proto_radar.Store.AuditEvents.{list_by_approval_request}
use proto_radar.Store.OutboxWriter.{write_event}
use proto_radar.Events.{new_approval_request_created}
use proto_radar.Governance.Actor.{effective_actor_subject}
use proto_radar.Governance.Owners.{when_not_found}
use proto_radar.Governance.Types.{reason_string, GovernancePolicyResult}
use proto_radar.Governance.Policy.{PolicyConfig, evaluate_policy}
use proto_radar.Governance.Approvals.Commit.{append_approval_audit}
use proto_radar.Governance.Approvals.Context.{
  Providers, default_approval_list_limit, approval_policy_context_for_report,
  build_approval_request,
}

abbrev pub map_create_error : Err → Err
map_create_error e =
    if is_duplicate e then governance GovernanceError.approval_request_conflict else e

unfoldable pub append_created_audit :
    Platform → ApprovalRequest → String → GovernancePolicyResult → Time → M (Unit {0})
unfolding append_approval_audit
append_created_audit platform request actor policy_result occurred_at =
    append_approval_audit platform GovernanceAuditEventType.approval_request_created request
      (trim_space actor)
      (marshal (
        field "policy_reasons" (texts (map reason_string policy_result.reasons)) (
          field "requirement_count" (number (length request.requirements))
            (field "approval_required" (flag policy_result.approval_required) []))))
      occurred_at

unfoldable pub store_request :
    Platform → ApprovalRequest → String → GovernancePolicyResult → Time → M (Unit {0})
unfolding create_request append_created_audit write_event within_transaction
store_request platform request actor policy_result occurred_at = within_transaction false λ in_tx.
    do
      map_fault map_create_error (create_request platform in_tx request)
      append_created_audit platform request actor policy_result occurred_at
      write_event occurred_at (
          new_approval_request_created platform
            (record { request = request; actor = actor; occurred_at = occurred_at }))

abbrev pub is_request_conflict : Err → Bool
is_request_conflict (governance GovernanceError.approval_request_conflict) = true
is_request_conflict _ = false

-- The answer after the transaction: on a conflict, the request that is there.
unfoldable pub answer_on :
    Platform → String → ApprovalRequest → Result (Unit {0}) × World → Result ApprovalRequest × World
unfolding get_request_by_breaking_report_id
answer_on platform report_id request (ok _, w) = (ok request, w)
answer_on platform report_id request (err e, w) =
    if is_request_conflict e
    then (let (existing, after) = get_request_by_breaking_report_id platform report_id w in
        elim existing [ ok found ↦ (ok found, after) | err _ ↦ (err e, after) ])
    else (err e, w)

pub record CreateApprovalRequestInput : Type 0 where
  pub breaking_report_id : String
  pub actor : String
  pub target_ref : String

-- What follows when the report has no request yet.
unfoldable pub create_new_request :
    Platform → Providers → PolicyConfig → String → String → String → Time → M ApprovalRequest
unfolding approval_policy_context_for_report evaluate_policy build_approval_request store_request
    answer_on
create_new_request platform providers config report_id actor target_ref now = do
  context ← approval_policy_context_for_report platform providers report_id
  let policy_result = evaluate_policy (record {
    report = context.report;
    module_owners = context.module_owners;
    affected_modules = context.affected_modules;
    runtime_impact = context.runtime_impact;
    config = config;
  })
  request ← build_approval_request context target_ref policy_result now
  λ w.
      answer_on platform report_id request
        (store_request platform request actor policy_result now w)

unfoldable pub create_approval_request_for_breaking_report :
    Platform → Providers → PolicyConfig → CreateApprovalRequestInput → Time → M ApprovalRequest
unfolding require lift create_new_request get_request_by_breaking_report_id effective_actor_subject
create_approval_request_for_breaking_report platform providers config input now = do
  let report_id = new_breaking_report_id input.breaking_report_id
  require (not (report_id == "")) (governance GovernanceError.invalid_breaking_report_id)
  actor ← lift (effective_actor_subject input.actor)
  existing ← find_row (get_request_by_breaking_report_id platform report_id)
  elim existing [
    | some request ↦ done request
    | none ↦ create_new_request platform providers config report_id actor input.target_ref now
  ]

unfoldable pub get_approval_status_for_breaking_report : Platform → String → M ApprovalRequest
unfolding require get_breaking_report get_request_by_breaking_report_id
get_approval_status_for_breaking_report platform breaking_report_id = do
  let report_id = new_breaking_report_id breaking_report_id
  require (not (report_id == "")) (governance GovernanceError.invalid_breaking_report_id)
  _ ←
      map_fault (when_not_found GovernanceError.breaking_report_not_found)
        (get_breaking_report platform report_id)
  map_fault (when_not_found GovernanceError.approval_request_not_found)
      (get_request_by_breaking_report_id platform report_id)

unfoldable pub list_approval_request_audit :
    Platform → String → ℤ → ℕ → M (List GovernanceAuditEvent)
unfolding require get_request_by_id list_by_approval_request
list_approval_request_audit platform id limit offset = do
  let request_id = new_approval_request_id id
  require (not (request_id == "")) (governance GovernanceError.approval_request_not_found)
  _ ←
      map_fault (when_not_found GovernanceError.approval_request_not_found)
        (get_request_by_id platform request_id)
  list_by_approval_request platform request_id
      (if nonpos limit then default_approval_list_limit else to_ℕ limit) offset
