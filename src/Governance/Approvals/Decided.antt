-- ===== src/Governance/Approvals/Decided.antt =====
-- The writes of a decision keep the invariant of the approval tables.
use proto_radar.Prelude.{
  ℕ, String, [], ◌∷◌, refl, ◌==◌, ◌≡◌, sym, ap, ◌∙◌, subst, true, some, List, length, All, All-map,
  Distinct, arith, eq_iff, Bool-cases, inl, inr,
}
use proto_radar.Prelude.Sort.{any-sort_by}
use proto_radar.Domain.Enums.{ApprovalRequestStatus}
use proto_radar.Domain.Records.{Time, ApprovalRequirement}
use proto_radar.Store.Db.{RequestRow, Platform}
use proto_radar.Store.Approvals.{requirements_of, requirement_le, set_requirement, set_request}
use proto_radar.Governance.Approvals.Prepare.{Prepared, received_approvals_after}
use proto_radar.Governance.Approvals.Commit.{new_request_status}
use proto_radar.Governance.Approvals.Tally.{IsTallied, has_requirement, requirement_ids-set}
use proto_radar.Governance.Approvals.Consistency.{
  has_row, IsConsistent, IsSnapshot, pending_unrejected, status, decided_table, decided-IsTallied,
  other-IsTallied,
}

has_row-set_request :
    (id at : String) (s : ApprovalRequestStatus) (required received : ℕ) (now : Time)
    (requests : List RequestRow)
    → has_row id (set_request at s required received now requests) ≡ has_row id requests
unfolding set_request
has_row-set_request id at s required received now [] = refl
has_row-set_request id at s required received now (row ∷ rest) =
    ground (arith, has_row-set_request id at s required received now rest)

module _ (p : Prepared) (now : Time) (table : List ApprovalRequirement) where
  abbrev pub decided_requests : List RequestRow → List RequestRow
  decided_requests =
      set_request p.request.id (new_request_status p) (length p.request.requirements)
        (received_approvals_after p.request.requirements p.requirement.id (status p now table)) now

module _ (platform : Platform) (p : Prepared) (now : Time) (table : List ApprovalRequirement) where
  decided_requests-IsTallied :
      (requests : List RequestRow)
      → IsConsistent platform requests table
      → IsSnapshot p requests table
      → All (IsTallied (decided_table p now table)) (decided_requests p now table requests)
  unfolding set_request
  decided_requests-IsTallied requests c s =
      let present : has_requirement p.requirement.id (requirements_of p.request.id table) ≡ true =
        sym (any-sort_by requirement_le _ (requirements_of p.request.id table))
        ∙ (ap (has_requirement p.requirement.id) (sym s.requirements) ∙ s.requirement) in
      All-map (IsTallied table) (IsTallied (decided_table p now table)) _
        (λ row t. elim (Bool-cases (row.id == p.request.id)) [
          | inl same ↦ rw same (
              decided-IsTallied p now table row (ground (arith, eq_iff row.id p.request.id))
                s.requirements s.requirement
                (pending_unrejected p.request.id table requests c.tallied s.pending))
          | inr different ↦ rw different (
              other-IsTallied p now table row
                (ground (arith, eq_iff row.id p.request.id, eq_iff p.request.id row.id))
                c.unique_ids present t)
        ])
        requests c.tallied

  pub decided-IsConsistent :
      (requests : List RequestRow)
      → IsConsistent platform requests table
      → IsSnapshot p requests table
      → IsConsistent platform (decided_requests p now table requests) (decided_table p now table)
  unfolding set_request set_requirement
  decided-IsConsistent requests c s = record {
    unique_ids =
        subst Distinct (sym (requirement_ids-set p.requirement.id (status p now table) now table))
          c.unique_ids;
    printed_requests =
        All-map (λ (row : RequestRow). platform.uuid row.id ≡ some row.id) _ _
          (λ row e. elim (Bool-cases (row.id == p.request.id)) [
            | inl same ↦ rw same e
            | inr other ↦ rw other e
          ])
          requests c.printed_requests;
    printed_requirements =
        All-map (λ (r : ApprovalRequirement). platform.uuid r.id ≡ some r.id) _ _
          (λ r e. elim (Bool-cases (r.id == p.requirement.id)) [
            | inl same ↦ rw same e
            | inr other ↦ rw other e
          ])
          table c.printed_requirements;
    owned =
        All-map (λ (r : ApprovalRequirement). has_row r.approval_request_id requests ≡ true) _ _
          (λ r e. elim (Bool-cases (r.id == p.requirement.id)) [
            | inl same ↦
                rw same
                  (has_row-set_request r.approval_request_id p.request.id _ _ _ now requests ∙ e)
            | inr other ↦
                rw other
                  (has_row-set_request r.approval_request_id p.request.id _ _ _ now requests ∙ e)
          ])
          table c.owned;
    tallied = decided_requests-IsTallied requests c s;
  }
