-- ===== src/Governance/Approvals/Interleavings.antt =====
-- Decisions that do not run one after the other, and identifiers that are not in printed form.
use proto_radar.Prelude.{
  String, ◌==◌, ◌≡◌, ◌≢◌, refl, sym, ap, ◌∙◌, true, false, some, List, [], ◌∷◌, find, arith, eq_iff,
}
use proto_radar.Prelude.Sort.{sort_by}
use proto_radar.Domain.Errors.{ok}
use proto_radar.Domain.Enums.{ApprovalDecisionValue, ApprovalRequestStatus, is_pending_requirement}
use proto_radar.Domain.Ids.{new_approval_requirement_id}
use proto_radar.Domain.Records.{Time, ApprovalRequest, ApprovalRequirement}
use proto_radar.Store.Db.{Db, Platform}
use proto_radar.Store.Approvals.{requirements_of, requirement_le}
use proto_radar.Store.World.{World}
use proto_radar.Governance.Policy.{PolicyConfig}
use proto_radar.Governance.Approvals.Prepare.{
  ApprovalDecisionInput, Prepared, all_requirements_approved_after,
}
use proto_radar.Governance.Approvals.Commit.{new_request_status, commit_decision, record_decision}
use proto_radar.Governance.Approvals.Consistency.{IsConsistent}
use proto_radar.Governance.Approvals.Writes.{snapshot_requirement, printed_requirement}
use proto_radar.Governance.Approvals.Committed.{
  IsHeldBack, committed, printed_decided, printed_asked, both_committed,
}
use proto_radar.Governance.Approvals.Admitted.{IsAdmitted}
use proto_radar.Governance.Approvals.Integrity.{admitted-IsReady, record_decision_effect}

-- Another requirement that is pending holds the request back.
held_back :
    (id other : String) (rs : List ApprovalRequirement) (r : ApprovalRequirement)
    → find (λ (x : ApprovalRequirement). x.id == other) rs ≡ some r
    → is_pending_requirement r.status ≡ true
    → (other == id) ≡ false
    → all_requirements_approved_after rs id ≡ false
unfolding all_requirements_approved_after
held_back id other [] r h e n = cc
held_back id other (x ∷ rest) r h e n =
    ground (arith, held_back id other rest r, eq_iff x.id other, eq_iff x.id id)

same_requirements :
    (platform : Platform) (config : PolicyConfig) (input input' : ApprovalDecisionInput)
    (value value' : ApprovalDecisionValue) (p q : Prepared) (db : Db)
    → IsAdmitted platform config input value p db
    → IsAdmitted platform config input' value' q db
    → p.request.id ≡ q.request.id
    → p.request.requirements ≡ q.request.requirements
same_requirements platform config input input' value value' p q db a b same =
    let key : a.loaded.key ≡ b.loaded.key =
      ground (arith, a.loaded.printed, b.loaded.printed, same) in
    a.loaded.requirements
    ∙ (ap (λ k. sort_by requirement_le (requirements_of k db.requirements)) key
        ∙ sym b.loaded.requirements)

waits :
    (platform : Platform) (config : PolicyConfig) (input input' : ApprovalDecisionInput)
    (value : ApprovalDecisionValue) (p q : Prepared) (db : Db)
    → IsAdmitted platform config input ApprovalDecisionValue.approved p db
    → IsAdmitted platform config input' value q db
    → p.request.id ≡ q.request.id
    → q.requirement.id ≢ p.requirement.id
    → new_request_status p ≡ ApprovalRequestStatus.pending
unfolding new_request_status
waits platform config input input' value p q db a b same different =
    let held : all_requirements_approved_after p.request.requirements p.requirement.id ≡ false =
      ap (λ rs. all_requirements_approved_after rs p.requirement.id)
        (same_requirements platform config input input' ApprovalDecisionValue.approved value p q db
          a b same)
      ∙ held_back p.requirement.id q.requirement.id q.request.requirements q.requirement
          b.requirement b.open_requirement
          (ground (arith, eq_iff q.requirement.id p.requirement.id)) in
    rw (a.decides, held) refl

-- Two approvals of different requirements of one request that passed their checks on one database, which
-- was consistent: if both are committed, one after the other, then the requirements are both approved,
-- and the request is still pending, even if these were its last two requirements.
pub concurrent_approvals_pending :
    (platform : Platform) (config : PolicyConfig) (input input' : ApprovalDecisionInput)
    (p q : Prepared) (now later : Time) (w : World)
    → IsConsistent platform w.db.requests w.db.requirements
    → IsAdmitted platform config input ApprovalDecisionValue.approved p w.db
    → IsAdmitted platform config input' ApprovalDecisionValue.approved q w.db
    → p.request.id ≡ q.request.id
    → p.requirement.id ≢ q.requirement.id
    → (commit_decision platform p now w).0 ≡ ok tt
    → (commit_decision platform q later (commit_decision platform p now w).1).0 ≡ ok tt
    → IsHeldBack p q (commit_decision platform q later (commit_decision platform p now w).1).1.db
concurrent_approvals_pending platform config input input' p q now later w c a b same different h k =
    let ready = admitted-IsReady platform config input ApprovalDecisionValue.approved p w.db c a in
    let ready' =
      admitted-IsReady platform config input' ApprovalDecisionValue.approved q w.db c b in
    let first =
      committed platform p now w (printed_decided platform p w.db ready)
        (printed_asked platform p w.db ready) h in
    let second =
      committed platform q later (commit_decision platform p now w).1
        (printed_decided platform q w.db ready') (printed_asked platform q w.db ready') k in
    both_committed p q now later w.db (commit_decision platform p now w).1.db
      (commit_decision platform q later (commit_decision platform p now w).1).1.db first second
      a.loaded.row.row a.loaded.row.found same (λ e. different e)
      (snapshot_requirement p w.db.requests w.db.requirements ready.1)
      (snapshot_requirement q w.db.requests w.db.requirements ready'.1) a.decides b.decides
      (waits platform config input' input ApprovalDecisionValue.approved q p w.db b a (sym same)
        different)

-- If the approval tables are consistent, and the identifier of the requirement is one that Postgres prints
-- in another form, then a decision returns no request.
pub unprinted_requirement_refused :
    (platform : Platform) (config : PolicyConfig) (input : ApprovalDecisionInput)
    (value : ApprovalDecisionValue) (now : Time) (w : World) (printed : String)
    (request : ApprovalRequest)
    → IsConsistent platform w.db.requests w.db.requirements
    → platform.uuid (new_approval_requirement_id input.requirement_id) ≡ some printed
    → printed ≢ new_approval_requirement_id input.requirement_id
    → (record_decision platform config input value now w).0 ≢ ok request
unprinted_requirement_refused platform config input value now w printed request c e different h =
    let (p, a, written) = record_decision_effect platform config input value now w request c h in
    let ready = admitted-IsReady platform config input value p w.db c a in
    let own : platform.uuid p.requirement.id ≡ some p.requirement.id =
      printed_requirement platform p.requirement.id w.db.requirements c.printed_requirements
        (snapshot_requirement p w.db.requests w.db.requirements ready.1) in
    different (ground (arith, own, a.named, e))
