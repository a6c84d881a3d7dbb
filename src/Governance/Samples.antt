-- ===== src/Governance/Samples.antt =====
-- The theorems on the approval policy at concrete inputs.
use proto_radar.Prelude.{
  ◌≡◌, ◌≢◌, refl, true, false, trim_space, to_lower, ◌&&◌, ◌||◌, String, ◌==◌, eq_iff, some, [],
  ◌∷◌, any, arith, length,
}
use proto_radar.Domain.Enums.{ApprovalRequirementType, BreakingReportStatus, RuntimeDriftStatus}
use proto_radar.Domain.Records.{BreakingReport, RuntimeImpact}
use proto_radar.Governance.Policy.{
  default_policy_config, EvaluatePolicyInput, PolicyAffectedModule, requirement_key, owner_plan,
  evaluate_policy, normalize_policy_config, production_names,
}
use proto_radar.Governance.Policy.Requirements.{
  has_key, effective, IsRequired, DistinctKeys, evaluate_policy_distinct,
}
use proto_radar.Governance.Policy.Asked.{target_of, asks, runs_in_production, evaluate_policy-asks}
use proto_radar.Governance.Policy.Consumers.{no_consumer_requirement}

abbrev report : BreakingReport
report = record {
  id = "r1";
  module_id = "m1";
  module_name = "user-api";
  base_version_id = "v1";
  target_ref = "main";
  status = BreakingReportStatus.breaking;
}

abbrev billing : PolicyAffectedModule
billing = record {
  module_id = some "m2";
  module_name = "billing-api";
  owners = [];
  production_used = false;
}

-- A production service uses the changed module.
abbrev impact : RuntimeImpact
impact = record {
  service_name = "billing";
  environment = "production";
  used_module = "user-api";
  used_version = "v1.0.0";
  reported_at = 7;
  drift_status = RuntimeDriftStatus.up_to_date;
}

abbrev input : EvaluatePolicyInput
input = record {
  report = report;
  module_owners = [];
  affected_modules = billing ∷ [];
  runtime_impact = impact ∷ [];
  config = default_policy_config;
}

input-IsRequired : IsRequired input
unfolding normalize_policy_config
input-IsRequired = (refl, refl)

-- An affected module that itself runs in production.
abbrev busy_input : EvaluatePolicyInput
busy_input = record input {
  runtime_impact = record impact { used_module = "billing-api"; environment = " PROD " } ∷ [];
}

busy_input-IsRequired : IsRequired busy_input
unfolding normalize_policy_config
busy_input-IsRequired = (refl, refl)

-- It is asked.
asked :
    any
      (asks ApprovalRequirementType.affected_consumer_approval "m2")
      (evaluate_policy busy_input).requirements
    ≡ true
unfolding evaluate_policy normalize_policy_config trim_space to_lower production_names
asked = refl

evaluate_policy-asks_example :
    any
      (asks ApprovalRequirementType.affected_consumer_approval "m2")
      (evaluate_policy busy_input).requirements
    ≡ (("module_owner_approval" == "affected_consumer_approval" && "m1" == "m2")
        || any
            (λ a.
              runs_in_production busy_input a
              && ("affected_consumer_approval" == "affected_consumer_approval"
                  && target_of a.module_id a.module_name == "m2"))
            busy_input.affected_modules)
evaluate_policy-asks_example =
    evaluate_policy-asks busy_input ApprovalRequirementType.affected_consumer_approval "m2"
      busy_input-IsRequired

evaluate_policy_distinct_example :
    DistinctKeys (evaluate_policy input).requirements
    × ((evaluate_policy input).required_approvals ≡ length (evaluate_policy input).requirements)
evaluate_policy_distinct_example = evaluate_policy_distinct input

other : ◌≢◌ {A = String} "billing-api" "user-api"
other = ground (arith, eq_iff "billing-api" "user-api")

no_consumer_requirement_example :
    ((evaluate_policy input).required_approvals ≡ 1)
    × ((k : String)
        → has_key k (evaluate_policy input).requirements
          ≡ (requirement_key (owner_plan input (effective input)) == k))
no_consumer_requirement_example =
    no_consumer_requirement input input-IsRequired (refl, tt) ((refl, other), tt)
