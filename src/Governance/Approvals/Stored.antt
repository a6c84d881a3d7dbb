-- ===== src/Governance/Approvals/Stored.antt =====
-- The rows of a new request, and the invariant of the approval tables.
use proto_radar.Prelude.{
  ◌⊎◌, ℕ, suc, String, ◌==◌, ◌≡◌, refl, true, false, some, List, [], ◌∷◌, ◌++◌, length, All,
  Distinct, arith, eq_iff,
}
use proto_radar.Domain.Enums.{ApprovalRequestStatus, is_pending_requirement}
use proto_radar.Domain.Records.{ApprovalRequest, ApprovalRequirement}
use proto_radar.Store.Db.{RequestRow, Platform}
use proto_radar.Store.Approvals.{requirements_of}
use proto_radar.Governance.Approvals.Tally.{
  status_of, some_rejected, count_approved, requirement_ids,
}
use proto_radar.Governance.Approvals.Consistency.{has_row, IsConsistent}

-- A request as the policy makes it: nothing decided yet, and something to decide if it is pending.
pub record IsFresh (request : ApprovalRequest) : Type 0 where
  pub pending :
      All (λ (r : ApprovalRequirement). is_pending_requirement r.status ≡ true) request.requirements
  pub own :
      All (λ (r : ApprovalRequirement). r.approval_request_id ≡ request.id) request.requirements
  pub required : request.required_approvals ≡ length request.requirements
  pub received : request.received_approvals ≡ 0
  pub status :
      ((request.status ≡ ApprovalRequestStatus.pending)
        × ((n : ℕ) × (length request.requirements ≡ suc n)))
      ⊎ (request.status ≡ ApprovalRequestStatus.not_required)

-- The tables while the requirements of a request are being inserted: all is consistent but for the new row,
-- which is last, and the inserted requirements, which are last, are pending and belong to it.
pub record IsFilling (platform : Platform) (row : RequestRow) (count : ℕ)
    (requests : List RequestRow) (table : List ApprovalRequirement) : Type 0 where
  pub old_requests : List RequestRow
  pub old_table : List ApprovalRequirement
  pub added : List ApprovalRequirement
  pub is_requests : requests ≡ old_requests ++ row ∷ []
  pub is_table : table ≡ old_table ++ added
  pub consistent : IsConsistent platform old_requests old_table
  pub fresh_row : has_row row.id old_requests ≡ false
  pub printed_row : platform.uuid row.id ≡ some row.id
  pub unique_ids : Distinct (requirement_ids table)
  pub printed_added : All (λ (r : ApprovalRequirement). platform.uuid r.id ≡ some r.id) added
  pub own : All (λ (r : ApprovalRequirement). r.approval_request_id ≡ row.id) added
  pub pending : All (λ (r : ApprovalRequirement). is_pending_requirement r.status ≡ true) added
  pub counted : length added ≡ count

-- A request that is not there has no requirements.
pub requirements_of_unknown :
    (id : String) (requests : List RequestRow) (table : List ApprovalRequirement)
    → All (λ (r : ApprovalRequirement). has_row r.approval_request_id requests ≡ true) table
    → has_row id requests ≡ false
    → requirements_of id table ≡ []
requirements_of_unknown id requests [] h n = refl
requirements_of_unknown id requests (r ∷ rest) h n =
    ground
      (arith, requirements_of_unknown id requests rest h.1 n, h.0, eq_iff r.approval_request_id id)

pub requirements_of-append :
    (id : String) (xs ys : List ApprovalRequirement)
    → requirements_of id (xs ++ ys) ≡ requirements_of id xs ++ requirements_of id ys
requirements_of-append id [] ys = refl
requirements_of-append id (x ∷ xs) ys = ground (arith, requirements_of-append id xs ys)

pub requirements_of_own :
    (id : String) (added : List ApprovalRequirement)
    → All (λ (r : ApprovalRequirement). r.approval_request_id ≡ id) added
    → requirements_of id added ≡ added
requirements_of_own id [] h = refl
requirements_of_own id (r ∷ rest) h =
    ground (arith, requirements_of_own id rest h.1, h.0, eq_iff r.approval_request_id id)

pub requirements_of_other :
    (id other : String) (added : List ApprovalRequirement)
    → All (λ (r : ApprovalRequirement). r.approval_request_id ≡ id) added
    → (id == other) ≡ false
    → requirements_of other added ≡ []
requirements_of_other id other [] h n = refl
requirements_of_other id other (r ∷ rest) h n = ground (
  arith,
  requirements_of_other id other rest h.1 n,
  h.0,
  eq_iff id other,
  eq_iff r.approval_request_id other,
)

pub pending_counts :
    (rs : List ApprovalRequirement)
    → All (λ (r : ApprovalRequirement). is_pending_requirement r.status ≡ true) rs
    → (count_approved rs ≡ 0) × (some_rejected rs ≡ false)
pending_counts [] h = (refl, refl)
pending_counts (r ∷ rest) h = ground (arith, pending_counts rest h.1, h.0)

pub pending_status :
    (rs : List ApprovalRequirement) (n : ℕ)
    → All (λ (r : ApprovalRequirement). is_pending_requirement r.status ≡ true) rs
    → length rs ≡ suc n
    → status_of rs ≡ ApprovalRequestStatus.pending
pending_status [] n h e = absurd (omega (arith, e))
pending_status (r ∷ rest) n h e = ground (arith, pending_counts rest h.1, h.0)
