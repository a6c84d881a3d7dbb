-- ===== src/Governance/Approvals/Tally.antt =====
-- What the status and the counters of a request say of its requirements, and what a decision on one
-- requirement makes of them.
use proto_radar.Prelude.{
  ℕ, String, ◌==◌, ◌≡◌, refl, Bool, true, false, List, [], ◌∷◌, any, all, filter, map, length,
  length-map, mem_text-map, Distinct, if◌then◌else◌, arith, eq_iff,
}
use proto_radar.Domain.Enums.{
  ApprovalRequestStatus, ApprovalRequirementStatus, is_approved_requirement,
  is_rejected_requirement, is_settled_requirement,
}
use proto_radar.Domain.Records.{Time, ApprovalRequirement}
use proto_radar.Store.Db.{RequestRow}
use proto_radar.Store.Approvals.{requirements_of, set_requirement}
use proto_radar.Governance.Approvals.Prepare.{
  all_requirements_approved_after, received_approvals_after,
}

abbrev pub some_rejected : List ApprovalRequirement → Bool
some_rejected = any λ r. is_rejected_requirement r.status

abbrev pub all_settled : List ApprovalRequirement → Bool
all_settled = all λ r. is_settled_requirement r.status

abbrev pub count_approved : List ApprovalRequirement → ℕ
count_approved rs =
    length (filter (λ (r : ApprovalRequirement). is_approved_requirement r.status) rs)

-- The status that the requirements of a request stand for.
abbrev pub status_of : List ApprovalRequirement → ApprovalRequestStatus
status_of rs =
    if some_rejected rs
    then ApprovalRequestStatus.rejected
    else if all_settled rs
    then ApprovalRequestStatus.approved
    else ApprovalRequestStatus.pending

-- A request that was not dropped, and needed approvals to begin with.
abbrev pub is_counted : ApprovalRequestStatus → Bool
is_counted ApprovalRequestStatus.not_required = false
is_counted ApprovalRequestStatus.cancelled = false
is_counted _ = true

pub record IsTallied (requirements : List ApprovalRequirement) (row : RequestRow) : Type 0 where
  pub status :
      is_counted row.status ≡ true → row.status ≡ status_of (requirements_of row.id requirements)
  pub required : row.required_approvals ≡ length (requirements_of row.id requirements)
  pub received : row.received_approvals ≡ count_approved (requirements_of row.id requirements)

abbrev pub has_requirement : String → List ApprovalRequirement → Bool
has_requirement id = any λ r. r.id == id

some_rejected-set_approved :
    (id : String) (now : Time) (rs : List ApprovalRequirement)
    → some_rejected rs ≡ false
    → some_rejected (set_requirement id ApprovalRequirementStatus.approved now rs) ≡ false
unfolding set_requirement
some_rejected-set_approved id now [] h = refl
some_rejected-set_approved id now (r ∷ rs) h = ground (arith, some_rejected-set_approved id now rs)

all_settled-set_approved :
    (id : String) (now : Time) (rs : List ApprovalRequirement)
    → all_settled (set_requirement id ApprovalRequirementStatus.approved now rs)
      ≡ all_requirements_approved_after rs id
unfolding set_requirement all_requirements_approved_after
all_settled-set_approved id now [] = refl
all_settled-set_approved id now (r ∷ rs) = ground (arith, all_settled-set_approved id now rs)

some_rejected-set_rejected :
    (id : String) (now : Time) (rs : List ApprovalRequirement)
    → has_requirement id rs ≡ true
    → some_rejected (set_requirement id ApprovalRequirementStatus.rejected now rs) ≡ true
unfolding set_requirement
some_rejected-set_rejected id now [] h = cc
some_rejected-set_rejected id now (r ∷ rs) h = ground (arith, some_rejected-set_rejected id now rs)

-- The approval of one requirement of a request without rejections: the request is approved exactly if
-- all the others are settled.
pub status_of-set_approved :
    (id : String) (now : Time) (rs : List ApprovalRequirement)
    → some_rejected rs ≡ false
    → status_of (set_requirement id ApprovalRequirementStatus.approved now rs) ≡ (
        if all_requirements_approved_after rs id
        then ApprovalRequestStatus.approved
        else ApprovalRequestStatus.pending)
status_of-set_approved id now rs h =
    rw (some_rejected-set_approved id now rs h, all_settled-set_approved id now rs) refl

pub status_of-set_rejected :
    (id : String) (now : Time) (rs : List ApprovalRequirement)
    → has_requirement id rs ≡ true
    → status_of (set_requirement id ApprovalRequirementStatus.rejected now rs)
      ≡ ApprovalRequestStatus.rejected
status_of-set_rejected id now rs h = rw (some_rejected-set_rejected id now rs h) refl

pub count_approved-set :
    (id : String) (status : ApprovalRequirementStatus) (now : Time) (rs : List ApprovalRequirement)
    → count_approved (set_requirement id status now rs) ≡ received_approvals_after rs id status
unfolding set_requirement received_approvals_after
count_approved-set id status now [] = refl
count_approved-set id status now (r ∷ rs) = ground (arith, count_approved-set id status now rs)

pub length-set :
    (id : String) (status : ApprovalRequirementStatus) (now : Time) (rs : List ApprovalRequirement)
    → length (set_requirement id status now rs) ≡ length rs
unfolding set_requirement
length-set id status now rs = length-map _ rs

-- A decision on a requirement changes nothing for a request that does not have it.
pub set_requirement_absent :
    (id : String) (status : ApprovalRequirementStatus) (now : Time) (rs : List ApprovalRequirement)
    → has_requirement id rs ≡ false
    → set_requirement id status now rs ≡ rs
unfolding set_requirement
set_requirement_absent id status now [] h = refl
set_requirement_absent id status now (r ∷ rs) h =
    ground (arith, set_requirement_absent id status now rs)

pub requirements_of-set :
    (request id : String) (status : ApprovalRequirementStatus) (now : Time)
    (table : List ApprovalRequirement)
    → requirements_of request (set_requirement id status now table)
      ≡ set_requirement id status now (requirements_of request table)
unfolding set_requirement
requirements_of-set request id status now [] = refl
requirements_of-set request id status now (r ∷ rs) =
    ground (arith, requirements_of-set request id status now rs)

abbrev pub requirement_ids : List ApprovalRequirement → List String
requirement_ids = map λ r. r.id

pub requirement_ids-set :
    (id : String) (status : ApprovalRequirementStatus) (now : Time) (rs : List ApprovalRequirement)
    → requirement_ids (set_requirement id status now rs) ≡ requirement_ids rs
unfolding set_requirement
requirement_ids-set id status now [] = refl
requirement_ids-set id status now (r ∷ rs) = ground (arith, requirement_ids-set id status now rs)

pub has_requirement_of :
    (request id : String) (table : List ApprovalRequirement)
    → has_requirement id (requirements_of request table) ≡ true
    → has_requirement id table ≡ true
has_requirement_of request id [] h = h
has_requirement_of request id (r ∷ rs) h = ground (arith, has_requirement_of request id rs)

-- With unique identifiers, a requirement belongs to one request.
pub has_requirement_other :
    (request other id : String) (table : List ApprovalRequirement)
    → Distinct (requirement_ids table)
    → has_requirement id (requirements_of request table) ≡ true
    → (request == other) ≡ false
    → has_requirement id (requirements_of other table) ≡ false
has_requirement_other request other id [] d h n = refl
has_requirement_other request other id (r ∷ rs) d h n = ground (
  arith,
  has_requirement_of request id rs,
  has_requirement_of other id rs,
  mem_text-map (λ (x : ApprovalRequirement). x.id) r.id rs,
  d.0,
  eq_iff r.id id,
  eq_iff r.approval_request_id request,
  eq_iff r.approval_request_id other,
  eq_iff request other,
  has_requirement_other request other id rs d.1,
)
