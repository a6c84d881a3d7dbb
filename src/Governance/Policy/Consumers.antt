-- ===== src/Governance/Policy/Consumers.antt =====
-- When an affected consumer module needs an approval: `productionRuntimeModules` and the loop of
-- `EvaluatePolicy` over the affected modules.
use proto_radar.Prelude.{
  String, ◌==◌, eq_iff, ◌≡◌, ◌≢◌, refl, ap, ◌∙◌, Bool, false, ◌&&◌, ◌||◌, List, [], ◌∷◌, any, All,
  length, inl, inr, Bool-cases, arith, trim_space, to_lower, codes_eq,
}
use proto_radar.Domain.Records.{RuntimeImpact}
use proto_radar.Governance.Policy.{
  PolicyConfig, EvaluatePolicyInput, PolicyAffectedModule, Evaluation, owner_plan, requirement_key,
  add_requirement, used_in_production, consume, add_consumers, initial, require_approvals,
  evaluate_policy, production_names, production_runtime_modules,
}
use proto_radar.Governance.Policy.Requirements.{
  has_key, effective, IsRequired, requirements-evaluate_policy, evaluate_policy_distinct,
  add_requirement_cases,
}

-- The item was reported from one of the environments.
abbrev pub in_environments : List String → RuntimeImpact → Bool
in_environments environments item =
    any (codes_eq (to_lower (trim_space item.environment))) (production_names environments)

-- A module name is a key of the map exactly if some item from a production environment uses that
-- module.
pub any-production_runtime_modules :
    (impact : List RuntimeImpact) (environments : List String) (m : String)
    → any (λ name. name == m) (production_runtime_modules impact environments)
      ≡ any (λ item. in_environments environments item && item.used_module == m) impact
unfolding production_runtime_modules
any-production_runtime_modules [] environments m = refl
any-production_runtime_modules (item ∷ impact) environments m =
    elim (Bool-cases (in_environments environments item)) [
      | inl t ↦ rw t (
          ap (λ b. item.used_module == m || b)
            (any-production_runtime_modules impact environments m))
      | inr f ↦ rw f (any-production_runtime_modules impact environments m)
    ]

-- Nothing but the module of the report is used.
any-used_ne :
    (impact : List RuntimeImpact) (environments : List String) (own m : String)
    → All (λ (item : RuntimeImpact). item.used_module ≡ own) impact
    → m ≢ own
    → any (λ item. in_environments environments item && item.used_module == m) impact ≡ false
any-used_ne [] environments own m h ne = refl
any-used_ne (item ∷ impact) environments own m h ne =
    ground (arith, any-used_ne impact environments own m h.1 ne, eq_iff item.used_module m)

-- An affected module that is not marked already, and is not the changed module.
abbrev pub IsOther : String → PolicyAffectedModule → Type 0
IsOther own affected = (affected.production_used ≡ false) × (affected.module_name ≢ own)

module _ (impact : List RuntimeImpact) (environments : List String) (own : String)
    (only_own : All (λ (item : RuntimeImpact). item.used_module ≡ own) impact) where
  used_in_production-other :
      (a : PolicyAffectedModule)
      → IsOther own a
      → used_in_production (production_runtime_modules impact environments) a ≡ false
  unfolding used_in_production
  used_in_production-other a h =
      rw (any-production_runtime_modules impact environments a.module_name)
        (rw (any-used_ne impact environments own a.module_name only_own h.1, h.0))

  add_consumers-others :
      (config : PolicyConfig) (e : Evaluation) (xs : List PolicyAffectedModule)
      → All (IsOther own) xs
      → add_consumers (production_runtime_modules impact environments) config e xs ≡ e
  unfolding add_consumers consume
  add_consumers-others config e [] h = refl
  add_consumers-others config e (a ∷ xs) h =
      rw (used_in_production-other a h.0) (add_consumers-others config e xs h.1)

-- The owners' requirement is the only one that a fresh evaluation has.
owner_only :
    (input : EvaluatePolicyInput) (config : PolicyConfig)
    → let start = add_requirement initial (owner_plan input config) input.module_owners config in
      (length start.result.requirements ≡ 1)
      × ((k : String)
          → has_key k start.result.requirements ≡ (requirement_key (owner_plan input config) == k))
unfolding initial
owner_only input config =
    elim (add_requirement_cases initial (owner_plan input config) input.module_owners config) [
      | inl (old, _) ↦ cc
      | inr (_, (s, added, key, _)) ↦ (rw added refl, λ k. rw added (rw key (ground arith)))
    ]

-- If every runtime impact item names the changed module, and no affected module is the changed
-- module or is marked as used in production, then a breaking report needs exactly one approval, that
-- of the changed module's owners.
pub no_consumer_requirement :
    (input : EvaluatePolicyInput)
    → IsRequired input
    → All
        (λ (item : RuntimeImpact). item.used_module ≡ input.report.module_name)
        input.runtime_impact
    → All (IsOther input.report.module_name) input.affected_modules
    → ((evaluate_policy input).required_approvals ≡ 1)
      × ((k : String)
          → has_key k (evaluate_policy input).requirements
            ≡ (requirement_key (owner_plan input (effective input)) == k))
unfolding require_approvals
no_consumer_requirement input required only_own others =
    let environments = (effective input).production_environments in
    let only : (require_approvals input (effective input)).result.requirements
        ≡ (add_requirement initial (owner_plan input (effective input)) input.module_owners
            (effective input)).result.requirements =
      ap (λ (e : Evaluation). e.result.requirements)
        (add_consumers-others input.runtime_impact environments input.report.module_name only_own
          (effective input) _ input.affected_modules others) in
    let all_of = requirements-evaluate_policy input required ∙ only in
    let (count, keys) = owner_only input (effective input) in
    (
      (evaluate_policy_distinct input).1 ∙ ap length all_of ∙ count,
      λ k. ap (has_key k) all_of ∙ keys k,
    )
