-- ===== src/Governance/Approvals/Built.antt =====
-- buildApprovalRequestFromPolicyDecision: what the request has of the evaluation it is made of.
use proto_radar.Prelude.{
  ℕ, suc, String, ◌≡◌, refl, sym, ◌∙◌, Bool, true, false, ◌⊎◌, List, [], ◌∷◌, length, All, inl, inr,
  arith, if◌then◌else◌,
}
use proto_radar.Domain.Enums.{ApprovalRequestStatus, is_pending_requirement}
use proto_radar.Domain.Records.{Time, ApprovalRequirement}
use proto_radar.Store.Db.{Db}
use proto_radar.Store.Triples.{Holds, holds_then, holds_random_hex}
use proto_radar.Governance.Types.{GovernanceRequirementPlan, GovernancePolicyResult}
use proto_radar.Governance.Policy.Pending.{ArePending}
use proto_radar.Governance.Approvals.Context.{
  ApprovalPolicyContext, build_requirement, build_requirements, build_approval_request,
}
use proto_radar.Governance.Approvals.Stored.{IsFresh}

-- The requirements of a request, made of their plans.
record AreBuilt (id : String) (plans : List GovernanceRequirementPlan)
    (rs : List ApprovalRequirement) : Type 0 where
  pending : All (λ (r : ApprovalRequirement). is_pending_requirement r.status ≡ true) rs
  own : All (λ (r : ApprovalRequirement). r.approval_request_id ≡ id) rs
  counted : length rs ≡ length plans

-- An evaluation of which a fresh request can be made.
abbrev pub IsOpenResult : GovernancePolicyResult → Type 0
IsOpenResult result =
    ArePending result.requirements
    × (result.approval_required ≡ true → (n : ℕ) × (length result.requirements ≡ suc n))

built_more :
    (id hex : String) (now : Time) (plan : GovernanceRequirementPlan)
    (plans : List GovernanceRequirementPlan) (rs : List ApprovalRequirement)
    → is_pending_requirement plan.status ≡ true
    → AreBuilt id plans rs
    → AreBuilt id (plan ∷ plans) (build_requirement id now plan hex ∷ rs)
unfolding build_requirement
built_more id hex now plan plans rs h b = record {
  pending = (h, b.pending);
  own = (refl, b.own);
  counted = omega (arith, b.counted);
}

built_status :
    (required : Bool) (count : ℕ)
    → (required ≡ true → (n : ℕ) × (count ≡ suc n))
    → (((if required then ApprovalRequestStatus.pending else ApprovalRequestStatus.not_required)
          ≡ ApprovalRequestStatus.pending)
        × ((n : ℕ) × (count ≡ suc n)))
      ⊎ ((if required then ApprovalRequestStatus.pending else ApprovalRequestStatus.not_required)
          ≡ ApprovalRequestStatus.not_required)
built_status true count h = inl (refl, h refl)
built_status false count h = inr refl

module _ {P : Db → Type 0} where
  build_requirements-AreBuilt :
      (id : String) (now : Time) (plans : List GovernanceRequirementPlan)
      → ArePending plans
      → Holds P (build_requirements id now plans) (λ rs db. P db × AreBuilt id plans rs) P
  unfolding build_requirements
  build_requirements-AreBuilt id now [] h = record {
    runs = λ w p. (p, record { pending = tt; own = tt; counted = refl });
  }
  build_requirements-AreBuilt id now (plan ∷ plans) h = holds_then holds_random_hex (λ hex.
      holds_then (build_requirements-AreBuilt id now plans h.1)
        (λ more. record { runs = λ w q. (q.0, built_more id hex now plan plans more h.0 q.1) }))

  pub build_approval_request-IsFresh :
      (context : ApprovalPolicyContext) (target_ref : String) (result : GovernancePolicyResult)
      (now : Time)
      → IsOpenResult result
      → Holds P
          (build_approval_request context target_ref result now)
          (λ request db. P db × IsFresh request)
          P
  unfolding build_approval_request
  build_approval_request-IsFresh context target_ref result now h =
      holds_then holds_random_hex (λ hex.
        holds_then (build_requirements-AreBuilt _ now result.requirements h.0) (λ rs. record {
          runs = λ w q. (
            q.0,
            record {
              pending = q.1.pending;
              own = q.1.own;
              required = sym q.1.counted;
              received = refl;
              status =
                  built_status result.approval_required (length rs)
                    (λ r. let (n, e) = h.1 r in (n, q.1.counted ∙ e));
            },
          );
        }))
