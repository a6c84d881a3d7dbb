-- ===== src/Governance/Policy/Pending.antt =====
-- EvaluatePolicy: the statuses and the number of its requirements.
use proto_radar.Prelude.{
  ℕ, suc, String, ◌==◌, ◌≡◌, refl, sym, ◌∙◌, subst, true, List, [], ◌∷◌, ◌++◌, any, length, All,
  All-append, inl, inr, Bool-cases, arith, eq_refl,
}
use proto_radar.Domain.Enums.{is_breaking, is_pending_requirement}
use proto_radar.Domain.Records.{ModuleOwner}
use proto_radar.Governance.Types.{
  GovernanceRequirementPlan, GovernancePolicyReason, GovernancePolicyResult,
  affected_consumer_required, production_runtime_consumer,
}
use proto_radar.Governance.Policy.{
  PolicyConfig, EvaluatePolicyInput, PolicyAffectedModule, Evaluation, requirement_key, add_reason,
  add_requirement, warn_requirement, with_warning, owner_plan, consumer_plan, used_in_production,
  add_consumer, consume, add_consumers, initial, require_approvals, evaluate_policy, not_required,
  has_eligible_owner,
}
use proto_radar.Governance.Policy.Requirements.{
  effective, has_key, IsRequired, evaluate_policy_keys, requirements-evaluate_policy,
}

abbrev pub ArePending : List GovernanceRequirementPlan → Type 0
ArePending = All λ (r : GovernanceRequirementPlan). is_pending_requirement r.status ≡ true

requirements-warn_requirement :
    (result : GovernancePolicyResult) (r : GovernanceRequirementPlan)
    → (warn_requirement result r).requirements ≡ result.requirements ++ with_warning r ∷ []
unfolding warn_requirement add_reason
requirements-warn_requirement result r = ground arith

requirements-add_requirement :
    (e : Evaluation) (r : GovernanceRequirementPlan) (owners : List ModuleOwner)
    (config : PolicyConfig)
    → is_pending_requirement r.status ≡ true
    → ArePending e.result.requirements
    → ArePending (add_requirement e r owners config).result.requirements
unfolding add_requirement with_warning
requirements-add_requirement e r owners config open_status h =
    elim (Bool-cases (any (λ j. j == requirement_key r) e.seen)) [
      | inl old ↦ rw old h
      | inr new ↦ elim (Bool-cases (has_eligible_owner owners config)) [
        | inl eligible ↦
            rw (new, eligible) (All-append _ e.result.requirements (r ∷ []) h (open_status, tt))
        | inr missing ↦
            rw (new, missing, requirements-warn_requirement e.result r)
              (All-append _ e.result.requirements _ h (open_status, tt))
      ]
    ]

requirements-add_reason :
    (result : GovernancePolicyResult) (a b : GovernancePolicyReason)
    → (add_reason (add_reason result a) b).requirements ≡ result.requirements
unfolding add_reason
requirements-add_reason result a b = ground arith

module _ (production : List String) (config : PolicyConfig) where
  consume_pending :
      (e : Evaluation) (a : PolicyAffectedModule)
      → ArePending e.result.requirements
      → ArePending (consume production config e a).result.requirements
  unfolding consume add_consumer consumer_plan
  consume_pending e a h = elim (Bool-cases (used_in_production production a)) [
    | inl used ↦ rw used (
        requirements-add_requirement _ (consumer_plan a config) a.owners config refl (
          subst ArePending
            (sym (
              requirements-add_reason e.result affected_consumer_required
                production_runtime_consumer))
            h))
    | inr unused ↦ rw unused h
  ]

  add_consumers_pending :
      (e : Evaluation) (xs : List PolicyAffectedModule)
      → ArePending e.result.requirements
      → ArePending (add_consumers production config e xs).result.requirements
  unfolding add_consumers
  add_consumers_pending e [] h = h
  add_consumers_pending e (a ∷ xs) h =
      add_consumers_pending (consume production config e a) xs (consume_pending e a h)

require_approvals_pending :
    (input : EvaluatePolicyInput) (config : PolicyConfig)
    → ArePending (require_approvals input config).result.requirements
unfolding require_approvals initial owner_plan
require_approvals_pending input config = add_consumers_pending _ config _ input.affected_modules (
    requirements-add_requirement initial (owner_plan input config) input.module_owners config refl
      tt)

has_some :
    (k : String) (rs : List GovernanceRequirementPlan)
    → has_key k rs ≡ true
    → (n : ℕ) × (length rs ≡ suc n)
has_some k [] h = cc
has_some k (r ∷ rs) h = (length rs, omega (arith))

required_some :
    (input : EvaluatePolicyInput)
    → IsRequired input
    → (n : ℕ) × (length (evaluate_policy input).requirements ≡ suc n)
required_some input h =
    let k = requirement_key (owner_plan input (effective input)) in
    has_some k _ (evaluate_policy_keys input k h ∙ rw (eq_refl k) refl)

-- What an evaluation asks for is still to be decided, and it asks for something if approval is required.
pub evaluate_policy_pending :
    (input : EvaluatePolicyInput)
    → ArePending (evaluate_policy input).requirements
      × ((evaluate_policy input).approval_required ≡ true
          → (n : ℕ) × (length (evaluate_policy input).requirements ≡ suc n))
evaluate_policy_pending input = elim (Bool-cases (effective input).enabled) [
  | inr off ↦ unfold evaluate_policy not_required in rw off (tt, λ h. absurd (cc))
  | inl on ↦ elim (Bool-cases (is_breaking input.report.status)) [
    | inr passes ↦ unfold evaluate_policy not_required in rw (on, passes) (tt, λ h. absurd (cc))
    | inl breaks ↦ (
      subst ArePending (sym (requirements-evaluate_policy input (on, breaks)))
          (require_approvals_pending input (effective input)),
      λ _. required_some input (on, breaks),
    )
  ]
]
