-- ===== src/Governance/Policy.antt =====
-- internal/usecase/governance/policy.go: which approvals a breaking report needs.
pub mod Pending
pub mod Requirements
pub mod Asked
pub mod Consumers
use Prim.Native.String.{◌++◌ as append}
use proto_radar.Prelude.{
  ℕ, String, ◌==◌, Bool, true, false, not, ◌&&◌, ◌||◌, Option, none, some, List, [], ◌∷◌, ◌++◌, any,
  length, if◌then◌else◌, trim_space, to_lower, codes_eq,
}
use proto_radar.Domain.Enums.{
  ModuleOwnerRole, is_owner, ApprovalRequestStatus, ApprovalRequirementType,
  approval_requirement_type_text, ApprovalRequirementStatus, is_breaking,
}
use proto_radar.Domain.Records.{ModuleOwner, BreakingReport, RuntimeImpact}
use proto_radar.Governance.Types.{
  GovernancePolicyReason, governance_disabled, no_breaking_changes, breaking_changes,
  module_owner_required, affected_consumer_required, missing_module_owner,
  production_runtime_consumer, reason_eq, GovernancePolicyWarning, GovernanceRequirementPlan,
  GovernancePolicyResult,
}

abbrev pub text_no_breaking_changes : String
text_no_breaking_changes = "No breaking changes detected."

abbrev pub text_governance_disabled : String
text_governance_disabled = "Governance is disabled."

abbrev pub text_module_owner_approval : String
text_module_owner_approval = "Breaking changes require approval from module owner."

abbrev pub text_affected_consumer_approval : String
text_affected_consumer_approval =
    "Production usage requires approval from affected consumer module owner."

abbrev pub text_missing_owners : String
text_missing_owners = "No owners are configured for this module."

pub record PolicyConfig : Type 0 where
  pub enabled : Bool
  pub production_environments : List String
  pub allow_maintainer_approval : Bool

abbrev pub default_policy_config : PolicyConfig
default_policy_config = record {
  enabled = true;
  production_environments = "production" ∷ "prod" ∷ [];
  allow_maintainer_approval = true;
}

pub record PolicyAffectedModule : Type 0 where
  pub module_id : Option String
  pub module_name : String
  pub owners : List ModuleOwner
  pub production_used : Bool

pub record EvaluatePolicyInput : Type 0 where
  pub report : BreakingReport
  pub module_owners : List ModuleOwner
  pub affected_modules : List PolicyAffectedModule
  pub runtime_impact : List RuntimeImpact
  pub config : PolicyConfig

-- `normalizePolicyConfig`
unfoldable pub normalize_policy_config : PolicyConfig → PolicyConfig
normalize_policy_config config = elim config.production_environments [
  | [] ↦ record config { production_environments = default_policy_config.production_environments }
  | _ ∷ _ ↦ config
]

unfoldable pub add_reason : GovernancePolicyResult → GovernancePolicyReason → GovernancePolicyResult
add_reason result reason =
    if any (λ existing. reason_eq existing reason) result.reasons
    then result
    else record result { reasons = result.reasons ++ reason ∷ [] }

-- The target of a requirement: the module's identifier, else its name.
abbrev pub key_target : Option String → String → String
key_target none name = name
key_target (some id) name = if id == "" then name else id

unfoldable pub requirement_key : GovernanceRequirementPlan → String
requirement_key requirement =
    append (approval_requirement_type_text requirement.requirement_type)
      (append ":" (key_target requirement.target_module_id requirement.target_module_name))

unfoldable pub has_eligible_owner : List ModuleOwner → PolicyConfig → Bool
has_eligible_owner owners config =
    any
      (λ owner.
        is_owner owner.role || (config.allow_maintainer_approval && not (is_owner owner.role)))
      owners

unfoldable pub allowed_policy_roles : PolicyConfig → List ModuleOwnerRole
allowed_policy_roles config =
    if config.allow_maintainer_approval
    then ModuleOwnerRole.owner ∷ ModuleOwnerRole.maintainer ∷ []
    else ModuleOwnerRole.owner ∷ []

-- The lowered, trimmed names that are not empty: the keys of the map `production`.
unfoldable pub production_names : List String → List (List ℕ)
production_names [] = []
production_names (environment ∷ rest) = elim (to_lower (trim_space environment)) [
  | [] ↦ production_names rest
  | c ∷ cs ↦ (c ∷ cs) ∷ production_names rest
]

-- `productionRuntimeModules`, as the list of the keys of its map.
unfoldable pub production_runtime_modules : List RuntimeImpact → List String → List String
production_runtime_modules [] environments = []
production_runtime_modules (item ∷ impact) environments =
    let rest = production_runtime_modules impact environments in
    if any (codes_eq (to_lower (trim_space item.environment))) (production_names environments)
    then item.used_module ∷ rest
    else rest

-- The result under construction with the keys of its requirements, the map `seen`.
pub record Evaluation : Type 0 where
  pub result : GovernancePolicyResult
  pub seen : List String

warning_of : GovernanceRequirementPlan → GovernancePolicyWarning
warning_of requirement = record {
  requirement_type = requirement.requirement_type;
  target_module_id = requirement.target_module_id;
  target_module_name = requirement.target_module_name;
  reason = missing_module_owner;
  message = text_missing_owners;
}

-- `requirement.Warnings = append(requirement.Warnings, warning)`
unfoldable pub with_warning : GovernanceRequirementPlan → GovernanceRequirementPlan
unfolding warning_of
with_warning requirement = record requirement {
  warnings = requirement.warnings ++ warning_of requirement ∷ [];
}

-- A requirement for which no owner is eligible is kept, with a warning.
unfoldable pub warn_requirement :
    GovernancePolicyResult → GovernanceRequirementPlan → GovernancePolicyResult
unfolding add_reason warning_of with_warning
warn_requirement result requirement =
    let warned = record result { warnings = result.warnings ++ warning_of requirement ∷ [] } in
    let reasoned = add_reason warned missing_module_owner in
    record reasoned { requirements = reasoned.requirements ++ with_warning requirement ∷ [] }

unfoldable pub add_requirement :
    Evaluation → GovernanceRequirementPlan → List ModuleOwner → PolicyConfig → Evaluation
unfolding requirement_key has_eligible_owner warn_requirement
add_requirement e requirement owners config =
    let key = requirement_key requirement in
    if any (λ k. k == key) e.seen
    then e
    else if has_eligible_owner owners config
    then record {
      result = record (e.result) { requirements = e.result.requirements ++ requirement ∷ [] };
      seen = key ∷ e.seen;
    }
    else record { result = warn_requirement e.result requirement; seen = key ∷ e.seen }

pub owner_plan : EvaluatePolicyInput → PolicyConfig → GovernanceRequirementPlan
owner_plan input config = record {
  requirement_type = ApprovalRequirementType.module_owner_approval;
  target_module_id = some input.report.module_id;
  target_module_name = input.report.module_name;
  required_role = ModuleOwnerRole.owner;
  allowed_roles = allowed_policy_roles config;
  status = ApprovalRequirementStatus.pending;
  reason = module_owner_required;
  reason_text = text_module_owner_approval;
  warnings = [];
}

pub consumer_plan : PolicyAffectedModule → PolicyConfig → GovernanceRequirementPlan
consumer_plan affected config = record {
  requirement_type = ApprovalRequirementType.affected_consumer_approval;
  target_module_id = affected.module_id;
  target_module_name = affected.module_name;
  required_role = ModuleOwnerRole.owner;
  allowed_roles = allowed_policy_roles config;
  status = ApprovalRequirementStatus.pending;
  reason = production_runtime_consumer;
  reason_text = text_affected_consumer_approval;
  warnings = [];
}

-- `affected.ProductionUsed` as the loop updates it.
unfoldable pub used_in_production : List String → PolicyAffectedModule → Bool
used_in_production production affected =
    affected.production_used || any (λ name. name == affected.module_name) production

pub add_consumer : Evaluation → PolicyAffectedModule → PolicyConfig → Evaluation
unfolding add_reason add_requirement consumer_plan
add_consumer e affected config =
    let reasoned =
      add_reason (add_reason e.result affected_consumer_required) production_runtime_consumer in
    add_requirement (record e { result = reasoned }) (consumer_plan affected config) affected.owners
      config

-- One round of the loop over `input.AffectedModules`.
pub consume : List String → PolicyConfig → Evaluation → PolicyAffectedModule → Evaluation
unfolding used_in_production add_consumer
consume production config e affected =
    if used_in_production production affected then add_consumer e affected config else e

pub add_consumers : List String → PolicyConfig → Evaluation → List PolicyAffectedModule → Evaluation
unfolding consume
add_consumers production config e [] = e
add_consumers production config e (affected ∷ rest) =
    add_consumers production config (consume production config e affected) rest

not_required : GovernancePolicyReason → String → GovernancePolicyResult
not_required reason text = record {
  approval_required = false;
  status = ApprovalRequestStatus.not_required;
  required_approvals = 0;
  requirements = [];
  reasons = reason ∷ [];
  reason_text = text;
  warnings = [];
}

pub initial : Evaluation
initial = record {
  result = record {
    approval_required = true;
    status = ApprovalRequestStatus.pending;
    required_approvals = 0;
    requirements = [];
    reasons = breaking_changes ∷ module_owner_required ∷ [];
    reason_text = text_module_owner_approval;
    warnings = [];
  };
  seen = [];
}

-- The part of `EvaluatePolicy` behind its two early returns.
pub require_approvals : EvaluatePolicyInput → PolicyConfig → Evaluation
unfolding add_requirement add_consumers owner_plan initial production_runtime_modules
require_approvals input config =
    add_consumers (production_runtime_modules input.runtime_impact config.production_environments)
      config (add_requirement initial (owner_plan input config) input.module_owners config)
      input.affected_modules

unfoldable pub evaluate_policy : EvaluatePolicyInput → GovernancePolicyResult
unfolding normalize_policy_config require_approvals not_required
evaluate_policy input =
    let config = normalize_policy_config input.config in
    if not config.enabled
    then not_required governance_disabled text_governance_disabled
    else if not (is_breaking input.report.status)
    then not_required no_breaking_changes text_no_breaking_changes
    else (let result = (require_approvals input config).result in
        record result { required_approvals = length result.requirements })
