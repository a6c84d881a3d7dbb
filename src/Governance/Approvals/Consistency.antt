-- ===== src/Governance/Approvals/Consistency.antt =====
-- The invariant of the approval tables, and that the writes of one decision keep it.
use proto_radar.Prelude.{
  Bool, String, ◌==◌, ◌≡◌, refl, sym, ap, ◌∙◌, ◌⊎◌, true, false, ◌&&◌, some, List, [], ◌∷◌, any,
  length, All, Distinct, arith, eq_iff, inl, inr,
}
use proto_radar.Prelude.Sort.{
  sort_by, any-sort_by, all-sort_by, length-sort_by, length-filter-sort_by,
}
use proto_radar.Domain.Enums.{ApprovalDecisionValue, ApprovalRequirementStatus, is_pending_request}
use proto_radar.Domain.Records.{Time, ApprovalRequirement}
use proto_radar.Store.Db.{RequestRow, Platform}
use proto_radar.Store.Approvals.{requirements_of, requirement_le, set_requirement}
use proto_radar.Governance.Approvals.Prepare.{
  Prepared, all_requirements_approved_after, received_approvals_after,
}
use proto_radar.Governance.Approvals.Commit.{new_requirement_status, new_request_status}
use proto_radar.Governance.Approvals.Tally.{
  IsTallied, status_of, some_rejected, count_approved, has_requirement, requirement_ids,
  status_of-set_approved, status_of-set_rejected, count_approved-set, length-set,
  set_requirement_absent, requirements_of-set, has_requirement_other,
}

abbrev pub has_row : String → List RequestRow → Bool
has_row id = any λ (row : RequestRow). row.id == id

-- Every request has the status and the counters that its requirements stand for, and every requirement
-- has its request; identifiers are as Postgres prints them, and those of requirements are unique.
pub record IsConsistent (platform : Platform) (requests : List RequestRow)
    (table : List ApprovalRequirement) : Type 0 where
  pub unique_ids : Distinct (requirement_ids table)
  pub printed_requests : All (λ (row : RequestRow). platform.uuid row.id ≡ some row.id) requests
  pub printed_requirements : All (λ (r : ApprovalRequirement). platform.uuid r.id ≡ some r.id) table
  pub owned : All (λ (r : ApprovalRequirement). has_row r.approval_request_id requests ≡ true) table
  pub tallied : All (IsTallied table) requests

-- What was read for a decision is what the tables hold.
pub record IsSnapshot (p : Prepared) (requests : List RequestRow) (table : List ApprovalRequirement)
    : Type 0 where
  pub pending :
      any (λ (row : RequestRow). row.id == p.request.id && is_pending_request row.status) requests
      ≡ true
  pub requirements :
      p.request.requirements ≡ sort_by requirement_le (requirements_of p.request.id table)
  pub requirement : has_requirement p.requirement.id p.request.requirements ≡ true
  pub decision : p.decision.requirement_id ≡ p.requirement.id

-- A pending request has no rejected requirement.
pub pending_unrejected :
    (id : String) (requirements : List ApprovalRequirement) (requests : List RequestRow)
    → All (IsTallied requirements) requests
    → any (λ (row : RequestRow). row.id == id && is_pending_request row.status) requests ≡ true
    → some_rejected (requirements_of id requirements) ≡ false
pending_unrejected id requirements [] h e = cc
pending_unrejected id requirements (row ∷ rest) h e =
    ground (arith, h.0.status, eq_iff row.id id, pending_unrejected id requirements rest h.1)

-- The same, of what was read: sorting changes nothing that counts.
all_approved_after-sort :
    (id : String) (rs : List ApprovalRequirement)
    → all_requirements_approved_after (sort_by requirement_le rs) id
      ≡ all_requirements_approved_after rs id
unfolding all_requirements_approved_after
all_approved_after-sort id rs = all-sort_by requirement_le _ rs

received_after-sort :
    (id : String) (status : ApprovalRequirementStatus) (rs : List ApprovalRequirement)
    → received_approvals_after (sort_by requirement_le rs) id status
      ≡ received_approvals_after rs id status
unfolding received_approvals_after
received_after-sort id status rs = length-filter-sort_by requirement_le _ rs

decision_cases :
    (v : ApprovalDecisionValue)
    → (v ≡ ApprovalDecisionValue.approved) ⊎ (v ≡ ApprovalDecisionValue.rejected)
decision_cases ApprovalDecisionValue.approved = inl refl
decision_cases ApprovalDecisionValue.rejected = inr refl

-- The status that a decision gives its request is that of the requirements after it.
new_status_tallies :
    (p : Prepared) (now : Time) (rs : List ApprovalRequirement)
    → p.request.requirements ≡ sort_by requirement_le rs
    → has_requirement p.requirement.id p.request.requirements ≡ true
    → some_rejected rs ≡ false
    → new_request_status p
      ≡ status_of
          (set_requirement p.requirement.id (new_requirement_status p.decision.decision) now rs)
unfolding new_request_status
new_status_tallies p now rs e h clean = elim (decision_cases p.decision.decision) [
  | inl approved ↦
      rw
        (
          approved,
          e,
          all_approved_after-sort p.requirement.id rs,
          status_of-set_approved p.requirement.id now rs clean,
        )
        refl
  | inr rejected ↦
      rw
        (
          rejected,
          status_of-set_rejected p.requirement.id now rs (
              sym (any-sort_by requirement_le _ rs)
              ∙ (ap (has_requirement p.requirement.id) (sym e) ∙ h)),
        )
        refl
]

-- The row of the decided request, and any other.
module _ (p : Prepared) (now : Time) (table : List ApprovalRequirement) where
  abbrev pub status : ApprovalRequirementStatus
  status = new_requirement_status p.decision.decision

  abbrev pub decided_table : List ApprovalRequirement
  decided_table = set_requirement p.requirement.id status now table

  abbrev pub decided_row : RequestRow → RequestRow
  decided_row row = record row {
    status = new_request_status p;
    required_approvals = length p.request.requirements;
    received_approvals = received_approvals_after p.request.requirements p.requirement.id status;
    updated_at = now;
  }

  pub decided-IsTallied :
      (row : RequestRow)
      → row.id ≡ p.request.id
      → p.request.requirements ≡ sort_by requirement_le (requirements_of p.request.id table)
      → has_requirement p.requirement.id p.request.requirements ≡ true
      → some_rejected (requirements_of p.request.id table) ≡ false
      → IsTallied decided_table (decided_row row)
  decided-IsTallied row same e h clean = record {
    status = λ _.
        rw (same, requirements_of-set p.request.id p.requirement.id status now table)
          (new_status_tallies p now _ e h clean);
    required =
        rw (same, requirements_of-set p.request.id p.requirement.id status now table, e)
          (length-sort_by requirement_le _ ∙ sym (length-set p.requirement.id status now _));
    received =
        rw (same, requirements_of-set p.request.id p.requirement.id status now table, e)
          (received_after-sort p.requirement.id status _
            ∙ sym (count_approved-set p.requirement.id status now _));
  }

  pub other-IsTallied :
      (row : RequestRow)
      → (p.request.id == row.id) ≡ false
      → Distinct (requirement_ids table)
      → has_requirement p.requirement.id (requirements_of p.request.id table) ≡ true
      → IsTallied table row
      → IsTallied decided_table row
  other-IsTallied row different distinct h t =
      let same : requirements_of row.id decided_table ≡ requirements_of row.id table =
        requirements_of-set row.id p.requirement.id status now table
        ∙ set_requirement_absent p.requirement.id status now _ (
            has_requirement_other p.request.id row.id p.requirement.id table distinct h
              different) in
      record {
        status = λ counted. t.status counted ∙ ap status_of (sym same);
        required = t.required ∙ ap length (sym same);
        received = t.received ∙ ap count_approved (sym same);
      }
