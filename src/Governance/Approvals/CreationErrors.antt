-- ===== src/Governance/Approvals/CreationErrors.antt =====
-- CreateApprovalRequestForBreakingReport when it returns an error.
use proto_radar.Prelude.{String, ◌≡◌, refl, inl, inr, Bool-cases}
use proto_radar.Domain.Errors.{Err, Result, ok, err}
use proto_radar.Domain.Records.{Time, ApprovalRequest}
use proto_radar.Store.Db.{Db, Platform}
use proto_radar.Store.World.{World, ◌>>◌, done, map_fault}
use proto_radar.Store.Approvals.{create_request, get_request_by_breaking_report_id}
use proto_radar.Store.Triples.{
  Outcome, outcome_err, holds_then, then_require, then_lift, Keeps-done,
}
use proto_radar.Store.OutboxWriter.{write_event}
use proto_radar.Events.{new_approval_request_created}
use proto_radar.Governance.Types.{GovernancePolicyResult}
use proto_radar.Governance.Actor.{effective_actor_subject}
use proto_radar.Governance.Policy.{PolicyConfig, evaluate_policy}
use proto_radar.Governance.Policy.Pending.{evaluate_policy_pending}
use proto_radar.Governance.Approvals.Context.{Providers}
use proto_radar.Governance.Approvals.Create.{
  map_create_error, append_created_audit, answer_on, is_request_conflict, store_request,
  CreateApprovalRequestInput, create_new_request, create_approval_request_for_breaking_report,
}
use proto_radar.Governance.Approvals.Built.{build_approval_request-IsFresh}
use proto_radar.Store.Triples.Lookups.{
  found, Undone, Keeps-Undone, optional-Undone, transaction-Undone,
}
use proto_radar.Governance.Approvals.Reads.{ReadOnly, existing-Keeps, context-Keeps}
use proto_radar.Governance.Approvals.Creation.{policy_input}

module _ (platform : Platform) (before : Db) where
  store_request-Undone :
      (request : ApprovalRequest) (actor : String) (result : GovernancePolicyResult) (now : Time)
      → Undone before (store_request platform request actor result now)
  unfolding store_request
  store_request-Undone request actor result now = transaction-Undone before (λ in_tx.
      map_fault map_create_error (create_request platform in_tx request)
      >> (append_created_audit platform request actor result now
          >> write_event now (
              new_approval_request_created platform
                (record { request = request; actor = actor; occurred_at = now }))))

  answer_undone :
      (report_id : String) (request : ApprovalRequest) (r : Result (Unit {0}) × World)
      → Outcome (λ _ _. Unit) (λ db. db ≡ before) r
      → Outcome (λ _ _. Unit) (λ db. db ≡ before) (answer_on platform report_id request r)
  unfolding answer_on
  answer_undone report_id request (ok _, w) h = tt
  answer_undone report_id request (err e, w) h = elim (Bool-cases (is_request_conflict e)) [
    | inl conflict ↦ rw conflict (
        existing_answer (get_request_by_breaking_report_id platform report_id w)
          ((existing-Keeps (λ db. db ≡ before) platform report_id).runs w h))
    | inr other ↦ rw other h
  ]
    where
      existing_answer :
          (found : Result ApprovalRequest × World)
          → Outcome (λ _ db. db ≡ before) (λ db. db ≡ before) found
          → Outcome {A = ApprovalRequest}
              (λ _ _. Unit)
              (λ db. db ≡ before)
              (elim found.0 [ ok request ↦ (ok request, found.1) | err _ ↦ (err e, found.1) ])
      existing_answer (ok request, w) k = tt
      existing_answer (err f, w) k = k

  module _ (providers : Providers) (config : PolicyConfig) (reads_only : ReadOnly providers) where
    create_new_request-Undone :
        (report_id actor target_ref : String) (now : Time)
        → Undone before
            (create_new_request platform providers config report_id actor target_ref now)
    unfolding create_new_request
    create_new_request-Undone report_id actor target_ref now =
        holds_then (context-Keeps (λ db. db ≡ before) platform providers report_id reads_only)
          (λ context.
            holds_then
              (build_approval_request-IsFresh context target_ref
                (evaluate_policy (policy_input context config)) now
                (evaluate_policy_pending (policy_input context config)))
              (λ request. record {
                runs = λ w q. answer_undone report_id request _ (
                    (store_request-Undone request actor
                        (evaluate_policy (policy_input context config)) now).runs
                      w q.0);
              }))

    creation-Undone :
        (input : CreateApprovalRequestInput) (now : Time)
        → Undone before
            (create_approval_request_for_breaking_report platform providers config input now)
    unfolding create_approval_request_for_breaking_report
    creation-Undone input now =
        then_require _ _ _ (λ db c. c)
          (λ _.
            then_lift (effective_actor_subject input.actor) _ (λ db c. c)
              (λ actor _.
                holds_then
                  (found (λ db. db ≡ before) (existing-Keeps (λ db. db ≡ before) platform _))
                  (λ row.
                    optional-Undone before row _ done
                      (create_new_request-Undone _ actor input.target_ref now)
                      (λ request. Keeps-Undone before (Keeps-done request)))))

-- If the providers only read and the creation of an approval request returns an error, whatever failed,
-- the whole database is as it was: no request, requirement, audit event or outbox record is left.
pub create_approval_request_error :
    (platform : Platform) (providers : Providers) (config : PolicyConfig)
    (input : CreateApprovalRequestInput) (now : Time) (w : World) (e : Err)
    → ReadOnly providers
    → (create_approval_request_for_breaking_report platform providers config input now w).0 ≡ err e
    → (create_approval_request_for_breaking_report platform providers config input now w).1.db
      ≡ w.db
create_approval_request_error platform providers config input now w e reads_only h =
    outcome_err {A = ApprovalRequest} (λ _ _. Unit) (λ db. db ≡ w.db)
      (create_approval_request_for_breaking_report platform providers config input now w) e
      ((creation-Undone platform w.db providers config reads_only input now).runs w refl) h
