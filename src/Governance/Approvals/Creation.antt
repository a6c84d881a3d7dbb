-- ===== src/Governance/Approvals/Creation.antt =====
-- CreateApprovalRequestForBreakingReport, from the first check to the last read, and the invariant of
-- the approval tables.
use proto_radar.Prelude.{String, inl, inr, Bool-cases}
use proto_radar.Domain.Errors.{Result, ok, err}
use proto_radar.Domain.Records.{Time, ApprovalRequest}
use proto_radar.Store.Db.{Db, Platform}
use proto_radar.Store.World.{World, done}
use proto_radar.Store.Approvals.{get_request_by_breaking_report_id}
use proto_radar.Store.Triples.{
  Outcome, outcome_both, Keeps, holds_then, holds_given, then_require, then_lift, Keeps-done,
}
use proto_radar.Governance.Actor.{effective_actor_subject}
use proto_radar.Governance.Policy.{PolicyConfig, EvaluatePolicyInput, evaluate_policy}
use proto_radar.Governance.Policy.Pending.{evaluate_policy_pending}
use proto_radar.Governance.Approvals.Consistency.{IsConsistent}
use proto_radar.Governance.Approvals.Context.{Providers, ApprovalPolicyContext}
use proto_radar.Governance.Approvals.Create.{
  answer_on, is_request_conflict, CreateApprovalRequestInput, create_new_request,
  create_approval_request_for_breaking_report,
}
use proto_radar.Governance.Approvals.Built.{build_approval_request-IsFresh}
use proto_radar.Governance.Approvals.Created.{Consistent, store_request-Keeps}
use proto_radar.Store.Triples.Lookups.{found, optional-Keeps}
use proto_radar.Governance.Approvals.Reads.{ReadOnly, existing-Keeps, context-Keeps}

-- What the policy is asked about a report.
abbrev pub policy_input : ApprovalPolicyContext → PolicyConfig → EvaluatePolicyInput
policy_input context config = record {
  report = context.report;
  module_owners = context.module_owners;
  affected_modules = context.affected_modules;
  runtime_impact = context.runtime_impact;
  config = config;
}

module _ (platform : Platform) where
  answer_keeps :
      (P : Db → Type 0) (report_id : String) (request : ApprovalRequest)
      (r : Result (Unit {0}) × World)
      → Outcome (λ _. P) P r
      → Outcome (λ _. P) P (answer_on platform report_id request r)
  unfolding answer_on
  answer_keeps P report_id request (ok _, w) h = h
  answer_keeps P report_id request (err e, w) h = elim (Bool-cases (is_request_conflict e)) [
    | inl conflict ↦ rw conflict (
        existing_answer (get_request_by_breaking_report_id platform report_id w)
          ((existing-Keeps P platform report_id).runs w h))
    | inr other ↦ rw other h
  ]
    where
      existing_answer :
          (found : Result ApprovalRequest × World)
          → Outcome (λ _. P) P found
          → Outcome {A = ApprovalRequest}
              (λ _. P)
              P
              (elim found.0 [ ok request ↦ (ok request, found.1) | err _ ↦ (err e, found.1) ])
      existing_answer (ok request, w) k = k
      existing_answer (err f, w) k = k

  module _ (providers : Providers) (config : PolicyConfig) (reads_only : ReadOnly providers) where
    create_new_request-Keeps :
        (report_id actor target_ref : String) (now : Time)
        → Keeps
            (Consistent platform)
            (create_new_request platform providers config report_id actor target_ref now)
    unfolding create_new_request
    create_new_request-Keeps report_id actor target_ref now =
        holds_then (context-Keeps (Consistent platform) platform providers report_id reads_only)
          (λ context.
            holds_then
              (build_approval_request-IsFresh context target_ref
                (evaluate_policy (policy_input context config)) now
                (evaluate_policy_pending (policy_input context config)))
              (λ request. holds_given (λ fresh. record {
                runs = λ w c. answer_keeps (Consistent platform) report_id request _ (
                    (store_request-Keeps platform request actor
                        (evaluate_policy (policy_input context config)) now fresh).runs
                      w c);
              })))

    creation-Keeps :
        (input : CreateApprovalRequestInput) (now : Time)
        → Keeps
            (Consistent platform)
            (create_approval_request_for_breaking_report platform providers config input now)
    unfolding create_approval_request_for_breaking_report
    creation-Keeps input now =
        then_require _ _ _ (λ db c. c)
          (λ _.
            then_lift (effective_actor_subject input.actor) _ (λ db c. c)
              (λ actor _.
                holds_then
                  (found (Consistent platform) (existing-Keeps (Consistent platform) platform _))
                  (λ row.
                    optional-Keeps (Consistent platform) row _ done
                      (create_new_request-Keeps _ actor input.target_ref now)
                      (λ request. Keeps-done request))))

-- If the approval tables are consistent and the providers only read, the tables are consistent after the
-- creation of an approval request, whatever its result and whatever failed on the way.
pub create_approval_request-IsConsistent :
    (platform : Platform) (providers : Providers) (config : PolicyConfig)
    (input : CreateApprovalRequestInput) (now : Time) (w : World)
    → ReadOnly providers
    → IsConsistent platform w.db.requests w.db.requirements
    → IsConsistent platform
        (create_approval_request_for_breaking_report platform providers config input now
          w).1.db.requests
        (create_approval_request_for_breaking_report platform providers config input now
          w).1.db.requirements
create_approval_request-IsConsistent platform providers config input now w reads_only c =
    outcome_both (Consistent platform)
      (create_approval_request_for_breaking_report platform providers config input now w)
      ((creation-Keeps platform providers config reads_only input now).runs w c)
