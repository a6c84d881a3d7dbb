-- ===== src/Governance/Approvals/Committed.antt =====
-- Decisions that are committed one after the other although they were prepared together: what the tables
-- say in the end.
use proto_radar.Prelude.{
  ℕ, String, ◌==◌, ◌≡◌, ◌≢◌, refl, sym, ap, subst, ◌∙◌, true, false, Option, some, List, [], ◌∷◌,
  find, arith, eq_iff, Bool-cases, inl, inr,
}
use proto_radar.Domain.Errors.{ok}
use proto_radar.Domain.Enums.{
  ApprovalDecisionValue, ApprovalRequestStatus, ApprovalRequirementStatus,
}
use proto_radar.Domain.Records.{Time, ApprovalRequirement}
use proto_radar.Store.Db.{Db, RequestRow, Platform}
use proto_radar.Store.Approvals.{
  set_requirement, set_request, add_decision, update_requirement_status, update_request_status,
  request_with_id,
}
use proto_radar.Store.World.{World, ◌>>◌}
use proto_radar.Store.Triples.{
  Holds, holds_then, holds_imp, holds_statement, holds_map_fault, holds_within_transaction,
  outcome_ok,
}
use proto_radar.Governance.Approvals.Prepare.{Prepared}
use proto_radar.Governance.Approvals.Commit.{
  new_requirement_status, new_request_status, write_decision, announce_decision, commit_decision,
}
use proto_radar.Governance.Approvals.Tally.{has_requirement}
use proto_radar.Governance.Approvals.Consistency.{decided_table}
use proto_radar.Governance.Approvals.Decided.{decided_requests}
use proto_radar.Governance.Approvals.Writes.{
  IsReady, insert_decision_frame, put_requirement_status_ok, put_request_status_ok,
  printed_requirement, printed_request, snapshot_requirement,
}
use proto_radar.Governance.Approvals.Announced.{Assertion, OfDb, announce_decision-Keeps}

-- The requirement and the request of p as the tables hold them.
abbrev pub requirement_in : Prepared → Db → Option ApprovalRequirement
requirement_in p db = find (λ (r : ApprovalRequirement). r.id == p.requirement.id) db.requirements

pub record IsHeldBack (p q : Prepared) (db : Db) : Type 0 where
  pub row : RequestRow
  pub found : find (λ (row : RequestRow). row.id == p.request.id) db.requests ≡ some row
  pub pending : row.status ≡ ApprovalRequestStatus.pending
  pub first : ApprovalRequirement
  pub first_found : requirement_in p db ≡ some first
  pub first_approved : first.status ≡ ApprovalRequirementStatus.approved
  pub second : ApprovalRequirement
  pub second_found : requirement_in q db ≡ some second
  pub second_approved : second.status ≡ ApprovalRequirementStatus.approved

-- What a commit writes on the two tables, whatever they held.
abbrev pub Decides : Prepared → Time → Db → Assertion
Decides p now before requests table decisions =
    (table ≡ decided_table p now before.requirements)
    × (requests ≡ decided_requests p now before.requirements before.requests)

module _ (platform : Platform) (p : Prepared) (now : Time)
    (printed : platform.uuid p.requirement.id ≡ some p.requirement.id)
    (asked : platform.uuid p.request.id ≡ some p.request.id) (before : Db) where
  written :
      Holds
        (λ db. db ≡ before)
        (write_decision platform p now)
        (λ _. OfDb (Decides p now before))
        (λ _. Unit)
  unfolding write_decision add_decision update_requirement_status update_request_status
  written =
      holds_then
        (holds_map_fault _ (
          holds_imp {Q = λ _. _} (λ db e. e)
            (λ _ after (db, same, e).
              let f = insert_decision_frame platform p.decision db after e in
              (f.0 ∙ ap (λ (x : Db). x.requests) same, f.1 ∙ ap (λ (x : Db). x.requirements) same))
            (λ db e. tt) (holds_statement _)))
        (λ _.
          holds_then
            (holds_imp
              {P' = λ db. (db.requests ≡ before.requests) × (db.requirements ≡ before.requirements)}
              (λ db e. e)
              (λ _ after (db, same, e).
                let f =
                  put_requirement_status_ok platform p.requirement.id _ now db after e printed in
                (
                  f.0 ∙ same.0,
                  f.1
                      ∙ ap
                          (set_requirement p.requirement.id
                            (new_requirement_status p.decision.decision) now)
                          same.1,
                ))
              (λ db e. tt) (holds_statement _))
            (λ _.
              holds_imp
                {P' = λ db.
                  (db.requests ≡ before.requests)
                  × (db.requirements ≡ decided_table p now before.requirements)}
                (λ db e. e)
                (λ _ after (db, same, e).
                  let f = put_request_status_ok platform p.request.id _ _ _ now db after e asked in
                  (f.1 ∙ same.1, f.0 ∙ ap (decided_requests p now before.requirements) same.0))
                (λ db e. tt) (holds_statement _)))

  commits :
      Holds
        (λ db. db ≡ before)
        (commit_decision platform p now)
        (λ _. OfDb (Decides p now before))
        (λ db. db ≡ before)
  unfolding commit_decision
  commits =
      holds_within_transaction
        (λ _. write_decision platform p now >> announce_decision platform p now)
        (holds_then written (λ _.
          holds_imp (λ db e. e) (λ _ db e. e) (λ db e. tt)
            (announce_decision-Keeps (Decides p now before) platform p now)))

pub committed :
    (platform : Platform) (p : Prepared) (now : Time) (w : World)
    → platform.uuid p.requirement.id ≡ some p.requirement.id
    → platform.uuid p.request.id ≡ some p.request.id
    → (commit_decision platform p now w).0 ≡ ok tt
    → OfDb (Decides p now w.db) (commit_decision platform p now w).1.db
committed platform p now w printed asked h =
    outcome_ok (λ _. OfDb (Decides p now w.db)) (λ db. db ≡ w.db) (commit_decision platform p now w)
      tt ((commits platform p now printed asked w.db).runs w refl) h

module _ (platform : Platform) (p : Prepared) (db : Db) (ready : IsReady platform p db) where
  pub printed_decided : platform.uuid p.requirement.id ≡ some p.requirement.id
  printed_decided =
      printed_requirement platform p.requirement.id db.requirements ready.0.printed_requirements
        (snapshot_requirement p db.requests db.requirements ready.1)

  pub printed_asked : platform.uuid p.request.id ≡ some p.request.id
  printed_asked =
      printed_request platform p.request.id db.requests ready.0.printed_requests ready.1.pending

-- Lookups in a table that was written.
find-set_request :
    (id : String) (status : ApprovalRequestStatus) (required received : ℕ) (now : Time)
    (rows : List RequestRow) (row : RequestRow)
    → find (λ (r : RequestRow). r.id == id) rows ≡ some row
    → (new : RequestRow) × (find
          (λ (r : RequestRow). r.id == id)
          (set_request id status required received now rows)
        ≡ some new)
      × (new.status ≡ status)
unfolding set_request
find-set_request id status required received now [] row h = cc
find-set_request id status required received now (x ∷ rest) row h = elim (Bool-cases (x.id == id)) [
  | inl same ↦ (
    record x {
      status = status;
      required_approvals = required;
      received_approvals = received;
      updated_at = now;
    },
    ground (arith, same),
    refl,
  )
  | inr other ↦
      let (new, found, e) =
        find-set_request id status required received now rest row (ground (arith, h, other)) in
      (new, ground (arith, other, found), e)
]

find-set_requirement :
    (id : String) (status : ApprovalRequirementStatus) (now : Time)
    (table : List ApprovalRequirement)
    → has_requirement id table ≡ true
    → (new : ApprovalRequirement) × (find
          (λ (r : ApprovalRequirement). r.id == id)
          (set_requirement id status now table)
        ≡ some new)
      × (new.status ≡ status)
unfolding set_requirement
find-set_requirement id status now [] h = cc
find-set_requirement id status now (x ∷ rest) h = elim (Bool-cases (x.id == id)) [
  | inl same ↦ (record x { status = status; updated_at = now }, ground (arith, same), refl)
  | inr other ↦
      let (new, found, e) = find-set_requirement id status now rest (ground (arith, h, other)) in
      (new, ground (arith, other, found), e)
]

find-set_other :
    (id other : String) (status : ApprovalRequirementStatus) (now : Time)
    (table : List ApprovalRequirement)
    → (other == id) ≡ false
    → find (λ (r : ApprovalRequirement). r.id == other) (set_requirement id status now table)
      ≡ find (λ (r : ApprovalRequirement). r.id == other) table
unfolding set_requirement
find-set_other id other status now [] h = refl
find-set_other id other status now (x ∷ rest) h = ground (
  arith,
  h,
  eq_iff x.id id,
  eq_iff x.id other,
  eq_iff other id,
  find-set_other id other status now rest h,
)

has_requirement-set :
    (id other : String) (status : ApprovalRequirementStatus) (now : Time)
    (table : List ApprovalRequirement)
    → has_requirement other (set_requirement id status now table) ≡ has_requirement other table
unfolding set_requirement
has_requirement-set id other status now [] = refl
has_requirement-set id other status now (x ∷ rest) =
    ground (arith, has_requirement-set id other status now rest)

-- Both commits of approvals, of which the second was prepared to leave the request pending.
pub both_committed :
    (p q : Prepared) (now later : Time) (before between after : Db)
    → OfDb (Decides p now before) between
    → OfDb (Decides q later between) after
    → (row : RequestRow) → request_with_id p.request.id before ≡ some row
    → p.request.id ≡ q.request.id
    → p.requirement.id ≢ q.requirement.id
    → has_requirement p.requirement.id before.requirements ≡ true
    → has_requirement q.requirement.id before.requirements ≡ true
    → p.decision.decision ≡ ApprovalDecisionValue.approved
    → q.decision.decision ≡ ApprovalDecisionValue.approved
    → new_request_status q ≡ ApprovalRequestStatus.pending
    → IsHeldBack p q after
both_committed p q now later before between after first second row found same different here there
      agreed also pending =
    let (row', found', _) = find-set_request p.request.id _ _ _ now before.requests row found in
    let (row'', found'', is_new) =
      find-set_request q.request.id (new_request_status q) _ _ later between.requests row' (
        subst (λ id. find (λ (r : RequestRow). r.id == id) between.requests ≡ some row') same
          (ap (find (λ (r : RequestRow). r.id == p.request.id)) first.1 ∙ found')) in
    let (x, x_found, x_new) =
      find-set_requirement p.requirement.id _ now before.requirements here in
    let (y, y_found, y_new) =
      find-set_requirement q.requirement.id (new_requirement_status q.decision.decision) later
        between.requirements
        (ap (has_requirement q.requirement.id) first.0
          ∙ (has_requirement-set p.requirement.id q.requirement.id _ now before.requirements
              ∙ there)) in
    record {
      row = row'';
      found =
          subst (λ id. find (λ (r : RequestRow). r.id == id) after.requests ≡ some row'') (sym same)
            (ap (find (λ (r : RequestRow). r.id == q.request.id)) second.1 ∙ found'');
      pending = is_new ∙ pending;
      first = x;
      first_found =
          ap (find (λ (r : ApprovalRequirement). r.id == p.requirement.id)) second.0
          ∙ (find-set_other q.requirement.id p.requirement.id _ later between.requirements
                (ground (arith, eq_iff p.requirement.id q.requirement.id, different))
              ∙ (ap (find (λ (r : ApprovalRequirement). r.id == p.requirement.id)) first.0
                  ∙ x_found));
      first_approved = x_new ∙ ap new_requirement_status agreed;
      second = y;
      second_found =
          ap (find (λ (r : ApprovalRequirement). r.id == q.requirement.id)) second.0 ∙ y_found;
      second_approved = y_new ∙ ap new_requirement_status also;
    }
