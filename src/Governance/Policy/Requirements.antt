-- ===== src/Governance/Policy/Requirements.antt =====
-- The requirements of an evaluation: which keys they have, and that no key comes twice.
use proto_radar.Prelude.{
  String, ◌==◌, eq_iff, ◌≡◌, refl, ◌∙◌, Bool, true, false, ◌&&◌, ◌||◌, List, [], ◌∷◌, ◌⊎◌, ◌++◌,
  any, any-append, length, inl, inr, Bool-cases, arith,
}
use proto_radar.Domain.Enums.{is_breaking}
use proto_radar.Domain.Records.{ModuleOwner}
use proto_radar.Governance.Types.{
  GovernanceRequirementPlan, GovernancePolicyReason, GovernancePolicyResult,
  affected_consumer_required, production_runtime_consumer,
}
use proto_radar.Governance.Policy.{
  PolicyConfig, normalize_policy_config, EvaluatePolicyInput, PolicyAffectedModule, Evaluation,
  requirement_key, add_reason, add_requirement, warn_requirement, with_warning, owner_plan,
  consumer_plan, used_in_production, add_consumer, consume, add_consumers, initial,
  require_approvals, evaluate_policy, production_runtime_modules, has_eligible_owner,
}

abbrev pub has_key : String → List GovernanceRequirementPlan → Bool
has_key k = any λ requirement. requirement_key requirement == k

-- No two requirements of the list have one key.
abbrev pub DistinctKeys : List GovernanceRequirementPlan → Type 0
DistinctKeys [] = Unit
DistinctKeys (r ∷ rs) = (has_key (requirement_key r) rs ≡ false) × DistinctKeys rs

DistinctKeys-concat :
    (rs : List GovernanceRequirementPlan) (r : GovernanceRequirementPlan)
    → DistinctKeys rs
    → has_key (requirement_key r) rs ≡ false
    → DistinctKeys (rs ++ r ∷ [])
DistinctKeys-concat [] r d h = (refl, tt)
DistinctKeys-concat (x ∷ rs) r d h = (
  ground (
    arith,
    any-append (λ q. requirement_key q == requirement_key x) rs (r ∷ []),
    eq_iff (requirement_key r) (requirement_key x),
    eq_iff (requirement_key x) (requirement_key r),
  ),
  DistinctKeys-concat rs r d.1 (ground arith),
)

-- The map `seen` holds the keys of the requirements, and they are distinct.
pub record IsTracked (e : Evaluation) : Type 0 where
  pub seen_keys : (k : String) → any (λ j. j == k) e.seen ≡ has_key k e.result.requirements
  pub distinct : DistinctKeys e.result.requirements

initial-IsTracked : IsTracked initial
unfolding initial
initial-IsTracked = record { seen_keys = λ k. refl; distinct = tt }

requirements-add_reason :
    (result : GovernancePolicyResult) (reason : GovernancePolicyReason)
    → (add_reason result reason).requirements ≡ result.requirements
unfolding add_reason
requirements-add_reason result reason = ground arith

key_with_warnings :
    (result : GovernancePolicyResult) (r : GovernanceRequirementPlan)
    → (s : GovernanceRequirementPlan) × ((warn_requirement result r).requirements
        ≡ result.requirements ++ s ∷ [])
      × (requirement_key s ≡ requirement_key r)
unfolding warn_requirement requirement_key
key_with_warnings result r = (with_warning r, ground arith, refl)

-- A requirement is added at the end, as it is or with a warning, if its key is new.
pub add_requirement_cases :
    (e : Evaluation) (r : GovernanceRequirementPlan) (owners : List ModuleOwner)
    (config : PolicyConfig)
    → ((any (λ j. j == requirement_key r) e.seen ≡ true) × (add_requirement e r owners config ≡ e))
      ⊎ ((any (λ j. j == requirement_key r) e.seen ≡ false)
          × ((s : GovernanceRequirementPlan) × ((add_requirement e r owners
                  config).result.requirements
                ≡ e.result.requirements ++ s ∷ [])
              × (requirement_key s ≡ requirement_key r)
              × ((add_requirement e r owners config).seen ≡ requirement_key r ∷ e.seen)))
unfolding add_requirement
add_requirement_cases e r owners config =
    elim (Bool-cases (any (λ j. j == requirement_key r) e.seen)) [
      | inl old ↦ inl (old, ground arith)
      | inr new ↦ elim (Bool-cases (has_eligible_owner owners config)) [
        | inl eligible ↦ inr (new, (r, ground arith, refl, ground arith))
        | inr missing ↦
            let (s, added, key) = key_with_warnings e.result r in
            inr (new, (s, ground (arith, added), key, ground arith))
      ]
    ]

add_requirement-IsTracked :
    (e : Evaluation) (r : GovernanceRequirementPlan) (owners : List ModuleOwner)
    (config : PolicyConfig)
    → IsTracked e
    → IsTracked (add_requirement e r owners config)
add_requirement-IsTracked e r owners config t = elim (add_requirement_cases e r owners config) [
  | inl (old, same) ↦ rw same t
  | inr (new, (s, added, key, seen)) ↦ record {
    seen_keys = λ k. rw (seen, added) (rw (any-append _ _ _) (ground (arith, t.seen_keys k)));
    distinct = rw added (
        DistinctKeys-concat e.result.requirements s t.distinct
          (ground (arith, t.seen_keys (requirement_key r))));
  }
]

-- The keys after a requirement is added: those of before, and its own.
has_key-add_requirement :
    (e : Evaluation) (r : GovernanceRequirementPlan) (owners : List ModuleOwner)
    (config : PolicyConfig) (k : String)
    → IsTracked e
    → has_key k (add_requirement e r owners config).result.requirements
      ≡ (has_key k e.result.requirements || requirement_key r == k)
has_key-add_requirement e r owners config k t = elim (add_requirement_cases e r owners config) [
  | inl (old, same) ↦ rw same (ground (arith, t.seen_keys k, old, eq_iff (requirement_key r) k))
  | inr (new, (s, added, key, seen)) ↦ rw added (rw (any-append _ _ _) (ground arith))
]

-- Reasons do not touch the requirements.
reasoned-IsTracked :
    (e : Evaluation) (r s : GovernancePolicyReason)
    → IsTracked e
    → IsTracked (record e { result = add_reason (add_reason e.result r) s })
reasoned-IsTracked e r s t =
    let same : (add_reason (add_reason e.result r) s).requirements ≡ e.result.requirements =
      requirements-add_reason (add_reason e.result r) s ∙ requirements-add_reason e.result r in
    record { seen_keys = λ k. rw same (t.seen_keys k); distinct = rw same t.distinct }

add_consumer-IsTracked :
    (e : Evaluation) (affected : PolicyAffectedModule) (config : PolicyConfig)
    → IsTracked e
    → IsTracked (add_consumer e affected config)
unfolding add_consumer
add_consumer-IsTracked e affected config t =
    add_requirement-IsTracked _ (consumer_plan affected config) affected.owners config
      (reasoned-IsTracked e affected_consumer_required production_runtime_consumer t)

has_key-add_consumer :
    (e : Evaluation) (affected : PolicyAffectedModule) (config : PolicyConfig) (k : String)
    → IsTracked e
    → has_key k (add_consumer e affected config).result.requirements
      ≡ (has_key k e.result.requirements || requirement_key (consumer_plan affected config) == k)
unfolding add_consumer
has_key-add_consumer e affected config k t =
    has_key-add_requirement _ (consumer_plan affected config) affected.owners config k
      (reasoned-IsTracked e affected_consumer_required production_runtime_consumer t)
    ∙ rw (requirements-add_reason _ _) (rw (requirements-add_reason _ _) refl)

-- The key of an affected module that is used in production.
abbrev pub needs_key : List String → PolicyConfig → String → PolicyAffectedModule → Bool
needs_key production config k affected =
    used_in_production production affected && requirement_key (consumer_plan affected config) == k

module _ (production : List String) (config : PolicyConfig) where
  consume-IsTracked :
      (e : Evaluation) (a : PolicyAffectedModule)
      → IsTracked e
      → IsTracked (consume production config e a)
  unfolding consume
  consume-IsTracked e a t = elim (Bool-cases (used_in_production production a)) [
    | inl used ↦ rw used (add_consumer-IsTracked e a config t)
    | inr unused ↦ rw unused t
  ]

  has_key-consume :
      (e : Evaluation) (a : PolicyAffectedModule) (k : String)
      → IsTracked e
      → has_key k (consume production config e a).result.requirements
        ≡ (has_key k e.result.requirements || needs_key production config k a)
  unfolding consume
  has_key-consume e a k t = elim (Bool-cases (used_in_production production a)) [
    | inl used ↦ rw used (has_key-add_consumer e a config k t)
    | inr unused ↦ rw unused (ground arith)
  ]

  add_consumers-IsTracked :
      (e : Evaluation) (xs : List PolicyAffectedModule)
      → IsTracked e
      → IsTracked (add_consumers production config e xs)
  unfolding add_consumers
  add_consumers-IsTracked e [] t = t
  add_consumers-IsTracked e (a ∷ xs) t =
      add_consumers-IsTracked (consume production config e a) xs (consume-IsTracked e a t)

  has_key-add_consumers :
      (e : Evaluation) (xs : List PolicyAffectedModule) (k : String)
      → IsTracked e
      → has_key k (add_consumers production config e xs).result.requirements
        ≡ (has_key k e.result.requirements || any (needs_key production config k) xs)
  unfolding add_consumers
  has_key-add_consumers e [] k t = ground arith
  has_key-add_consumers e (a ∷ xs) k t =
      rw (has_key-add_consumers (consume production config e a) xs k (consume-IsTracked e a t))
        (rw (has_key-consume e a k t) (ground arith))

-- The configuration that the evaluation works with, and the production-used modules it sees.
abbrev pub effective : EvaluatePolicyInput → PolicyConfig
effective input = normalize_policy_config input.config

abbrev pub production_of : EvaluatePolicyInput → List String
production_of input =
    production_runtime_modules input.runtime_impact (effective input).production_environments

abbrev pub IsRequired : EvaluatePolicyInput → Type 0
IsRequired input = ((effective input).enabled ≡ true) × (is_breaking input.report.status ≡ true)

start-IsTracked :
    (input : EvaluatePolicyInput) (config : PolicyConfig)
    → IsTracked (add_requirement initial (owner_plan input config) input.module_owners config)
start-IsTracked input config = add_requirement-IsTracked _ _ _ _ initial-IsTracked

require_approvals-IsTracked :
    (input : EvaluatePolicyInput) → IsTracked (require_approvals input (effective input))
unfolding require_approvals
require_approvals-IsTracked input =
    add_consumers-IsTracked _ _ _ input.affected_modules (start-IsTracked input (effective input))

pub requirements-evaluate_policy :
    (input : EvaluatePolicyInput)
    → IsRequired input
    → (evaluate_policy input).requirements
      ≡ (require_approvals input (effective input)).result.requirements
unfolding evaluate_policy
requirements-evaluate_policy input h = rw (h.0, h.1)

-- For a breaking report under enabled governance, the keys of the requirements are exactly that of
-- the changed module's owners and those of the affected modules that are used in production.
pub evaluate_policy_keys :
    (input : EvaluatePolicyInput) (k : String)
    → IsRequired input
    → has_key k (evaluate_policy input).requirements ≡ (
        requirement_key (owner_plan input (effective input)) == k
        || any (needs_key (production_of input) (effective input) k) input.affected_modules)
evaluate_policy_keys input k h = rw (requirements-evaluate_policy input h) (
    unfold require_approvals in
    has_key-add_consumers _ _ _ input.affected_modules k (start-IsTracked input _)
    ∙ rw (has_key-add_requirement initial _ input.module_owners _ k initial-IsTracked) refl)

-- No two requirements have one key, and the number of required approvals is their number.
pub evaluate_policy_distinct :
    (input : EvaluatePolicyInput)
    → DistinctKeys (evaluate_policy input).requirements
      × ((evaluate_policy input).required_approvals ≡ length (evaluate_policy input).requirements)
unfolding evaluate_policy
evaluate_policy_distinct input = elim (Bool-cases (effective input).enabled) [
  | inr off ↦ rw off (tt, refl)
  | inl on ↦ elim (Bool-cases (is_breaking input.report.status)) [
    | inr passes ↦ rw (on, passes) (tt, refl)
    | inl breaks ↦ rw (on, breaks) ((require_approvals-IsTracked input).distinct, refl)
  ]
]
