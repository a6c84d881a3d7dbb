-- ===== src/Governance/Approvals/Writes.antt =====
-- The statements of a decision, one by one: the invariant of the approval tables holds after them.
use proto_radar.Prelude.{
  ◌++◌, ℕ, String, ◌==◌, ◌≡◌, refl, sym, ap, ◌∙◌, true, some, List, [], ◌∷◌, any, length, All,
  arith, eq_iff, Option-cases, inl, inr, ◌&&◌,
}
use proto_radar.Prelude.Sort.{any-sort_by}
use proto_radar.Domain.Enums.{ApprovalRequestStatus, ApprovalRequirementStatus, is_pending_request}
use proto_radar.Domain.Records.{Time, ApprovalRequirement, ApprovalDecision}
use proto_radar.Domain.Errors.{ok}
use proto_radar.Store.Db.{Db, RequestRow, Platform}
use proto_radar.Store.Approvals.{
  requirements_of, requirement_le, set_requirement, set_request, insert_decision, add_decision,
  put_requirement_status, put_request_status, update_requirement_status, update_request_status,
}
use proto_radar.Store.Triples.{
  Holds, After, holds_then, holds_imp, holds_statement, holds_map_fault,
}
use proto_radar.Governance.Approvals.Prepare.{Prepared, received_approvals_after}
use proto_radar.Governance.Approvals.Commit.{
  new_requirement_status, new_request_status, write_decision,
}
use proto_radar.Governance.Approvals.Tally.{has_requirement, has_requirement_of}
use proto_radar.Governance.Approvals.Consistency.{IsConsistent, IsSnapshot, decided_table}
use proto_radar.Governance.Approvals.Decided.{decided_requests}

pub insert_decision_frame :
    (platform : Platform) (d : ApprovalDecision) (db after : Db)
    → insert_decision platform d db ≡ ok after
    → (after.requests ≡ db.requests) × (after.requirements ≡ db.requirements)
unfolding insert_decision
insert_decision_frame platform d db after h = ground arith

pub put_requirement_status_ok :
    (platform : Platform) (id : String) (s : ApprovalRequirementStatus) (now : Time) (db after : Db)
    → put_requirement_status platform id s now db ≡ ok after
    → platform.uuid id ≡ some id
    → (after.requests ≡ db.requests)
      × (after.requirements ≡ set_requirement id s now db.requirements)
      × (after.decisions ≡ db.decisions)
unfolding put_requirement_status
put_requirement_status_ok platform id s now db after h printed = ground arith

pub put_request_status_ok :
    (platform : Platform) (id : String) (s : ApprovalRequestStatus) (required received : ℕ)
    (now : Time) (db after : Db)
    → put_request_status platform id s required received now db ≡ ok after
    → platform.uuid id ≡ some id
    → (after.requests ≡ set_request id s required received now db.requests)
      × (after.requirements ≡ db.requirements)
      × (after.decisions ≡ db.decisions)
unfolding put_request_status
put_request_status_ok platform id s required received now db after h printed = ground arith

module _ (platform : Platform) where
  pub printed_requirement :
      (id : String) (table : List ApprovalRequirement)
      → All (λ (r : ApprovalRequirement). platform.uuid r.id ≡ some r.id) table
      → has_requirement id table ≡ true
      → platform.uuid id ≡ some id
  printed_requirement id [] h e = cc
  printed_requirement id (r ∷ rs) h e =
      ground (arith, printed_requirement id rs h.1, h.0, eq_iff r.id id)

  pub printed_request :
      (id : String) (requests : List RequestRow)
      → All (λ (row : RequestRow). platform.uuid row.id ≡ some row.id) requests
      → any (λ (row : RequestRow). row.id == id && is_pending_request row.status) requests ≡ true
      → platform.uuid id ≡ some id
  printed_request id [] h e = cc
  printed_request id (r ∷ rs) h e = ground (arith, printed_request id rs h.1, h.0, eq_iff r.id id)

-- The requirement that was read stands in its table.
pub snapshot_requirement :
    (p : Prepared) (requests : List RequestRow) (table : List ApprovalRequirement)
    → IsSnapshot p requests table
    → has_requirement p.requirement.id table ≡ true
snapshot_requirement p requests table s = has_requirement_of p.request.id p.requirement.id table (
    sym (any-sort_by requirement_le _ (requirements_of p.request.id table))
    ∙ (ap (has_requirement p.requirement.id) (sym s.requirements) ∙ s.requirement))

abbrev pub IsReady : Platform → Prepared → Db → Type 0
IsReady platform p db =
    IsConsistent platform db.requests db.requirements × IsSnapshot p db.requests db.requirements

-- One decision more than before: the one of p on its requirement.
pub record HasDecision (p : Prepared) (before after : Db) : Type 0 where
  pub stored : ApprovalDecision
  pub appended : after.decisions ≡ before.decisions ++ stored ∷ []
  pub on_requirement : stored.requirement_id ≡ p.requirement.id
  pub same_decision : stored.decision ≡ p.decision.decision
  pub same_actor : stored.decided_by ≡ p.decision.decided_by

-- What the writes of p leave: the decision, the status of its requirement, and the status and the
-- counters of its request.
pub record IsWritten (p : Prepared) (now : Time) (before after : Db) : Type 0 where
  pub decision : HasDecision p before after
  pub requirements : after.requirements ≡ decided_table p now before.requirements
  pub requests : after.requests ≡ decided_requests p now before.requirements before.requests

insert_decision_ok :
    (platform : Platform) (p : Prepared) (db after : Db)
    → insert_decision platform p.decision db ≡ ok after
    → p.decision.requirement_id ≡ p.requirement.id
    → platform.uuid p.requirement.id ≡ some p.requirement.id
    → HasDecision p db after
unfolding insert_decision
insert_decision_ok platform p db after h same printed =
    elim (Option-cases (platform.uuid p.decision.id)) [
      | inl bad ↦ ground arith
      | inr (c, id_printed) ↦ elim (Option-cases (platform.uuid p.decision.approval_request_id)) [
        | inl bad ↦ ground arith
        | inr (r, request_printed) ↦ record {
          stored = record p.decision {
            id = c;
            approval_request_id = r;
            requirement_id = p.requirement.id;
          };
          appended = ground arith;
          on_requirement = refl;
          same_decision = refl;
          same_actor = refl;
        }
      ]
    ]

module _ (platform : Platform) (p : Prepared) (now : Time) (before : Db) where
  abbrev IsStart : Db → Type 0
  IsStart db = (db ≡ before) × IsReady platform p before

  record IsAdded (db : Db) : Type 0 where
    ready : IsReady platform p before
    decision : HasDecision p before db
    requirements : db.requirements ≡ before.requirements
    requests : db.requests ≡ before.requests

  record IsHalfway (db : Db) : Type 0 where
    ready : IsReady platform p before
    decision : HasDecision p before db
    requirements : db.requirements ≡ decided_table p now before.requirements
    requests : db.requests ≡ before.requests

  printed_here : IsReady platform p before → platform.uuid p.requirement.id ≡ some p.requirement.id
  printed_here r =
      printed_requirement platform p.requirement.id before.requirements r.0.printed_requirements
        (snapshot_requirement p before.requests before.requirements r.1)

  added : (after : Db) → After IsStart (insert_decision platform p.decision) after → IsAdded after
  added after (db, s, e) =
      let e' : insert_decision platform p.decision before ≡ ok after =
        ap (insert_decision platform p.decision) (sym s.0) ∙ e in
      let f = insert_decision_frame platform p.decision before after e' in
      record {
        ready = s.1;
        decision = insert_decision_ok platform p before after e' s.1.1.decision (printed_here s.1);
        requirements = f.1;
        requests = f.0;
      }

  halfway :
      (after : Db)
      → After IsAdded
          (put_requirement_status platform p.requirement.id
            (new_requirement_status p.decision.decision)
            now)
          after
      → IsHalfway after
  halfway after (db, a, e) =
      let f =
        put_requirement_status_ok platform p.requirement.id _ now db after e
          (printed_here a.ready) in
      record {
        ready = a.ready;
        decision = record {
          stored = a.decision.stored;
          appended = f.2 ∙ a.decision.appended;
          on_requirement = a.decision.on_requirement;
          same_decision = a.decision.same_decision;
          same_actor = a.decision.same_actor;
        };
        requirements =
            f.1
            ∙ ap (set_requirement p.requirement.id (new_requirement_status p.decision.decision) now)
                a.requirements;
        requests = f.0 ∙ a.requests;
      }

  written :
      (after : Db)
      → After IsHalfway
          (put_request_status platform p.request.id
            (new_request_status p)
            (length p.request.requirements)
            (received_approvals_after p.request.requirements p.requirement.id
              (new_requirement_status p.decision.decision))
            now)
          after
      → IsWritten p now before after
  written after (db, h, e) =
      let f = put_request_status_ok platform p.request.id _ _ _ now db after e (
        printed_request platform p.request.id before.requests h.ready.0.printed_requests
          h.ready.1.pending) in
      record {
        decision = record {
          stored = h.decision.stored;
          appended = f.2 ∙ h.decision.appended;
          on_requirement = h.decision.on_requirement;
          same_decision = h.decision.same_decision;
          same_actor = h.decision.same_actor;
        };
        requirements = f.1 ∙ h.requirements;
        requests = f.0 ∙ ap (decided_requests p now before.requirements) h.requests;
      }

  pub write_decision-IsWritten :
      Holds IsStart (write_decision platform p now) (λ _. IsWritten p now before) (λ _. Unit)
  unfolding write_decision add_decision update_requirement_status update_request_status
  write_decision-IsWritten =
      holds_then
        (holds_map_fault _ (holds_imp (λ db r. r) (λ _. added) (λ db e. tt) (holds_statement _)))
        (λ _.
          holds_then (holds_imp (λ db r. r) (λ _. halfway) (λ db e. tt) (holds_statement _))
            (λ _. holds_imp (λ db r. r) (λ _. written) (λ db e. tt) (holds_statement _)))
