-- ===== src/Governance/Approvals/Context.antt =====
-- internal/usecase/governance/approval_service.go: what the policy is asked about a breaking report,
-- and the approval request that its answer makes.
use Prim.Native.String.{◌++◌ as append}
use proto_radar.Prelude.{
  ℕ, String, ◌==◌, false, Option, none, some, List, [], ◌∷◌, length, trim_space, if◌then◌else◌,
}
use proto_radar.Domain.Errors.{GovernanceError}
use proto_radar.Domain.Ids.{new_approval_requirement_id, new_approval_request_id}
use proto_radar.Domain.Enums.{ApprovalRequestStatus}
use proto_radar.Domain.Records.{
  Time, Module, ModuleOwner, BreakingReport, ApprovalRequest, ApprovalRequirement, RuntimeImpact,
  AffectedModule,
}
use proto_radar.Store.Db.{Platform}
use proto_radar.Store.World.{M, ◌>>=◌, done, map_fault, random_hex, find_row, list_or_empty}
use proto_radar.Store.Modules.{get_module_by_id, get_module_by_name, get_breaking_report}
use proto_radar.Store.Owners.{list_owners}
use proto_radar.Governance.Owners.{when_not_found}
use proto_radar.Governance.Types.{
  reason_string, GovernancePolicyWarning, GovernanceRequirementPlan, GovernancePolicyResult,
}
use proto_radar.Governance.Policy.{PolicyAffectedModule}

-- The interfaces `AffectedModulesProvider` and `RuntimeImpactProvider`; none is a nil provider. The
-- latter takes a report, a version, a limit and an offset.
pub record Providers : Type 0 where
  pub affected : Option (String → M (List AffectedModule))
  pub runtime : Option (String → String → ℕ → ℕ → M (List RuntimeImpact))

abbrev pub default_approval_list_limit : ℕ
default_approval_list_limit = 100

unfoldable pub affected_modules : Providers → String → M (List AffectedModule)
affected_modules providers module_id = elim providers.affected [
  | none ↦ done []
  | some list ↦ list_or_empty (list module_id)
]

unfoldable pub runtime_impact : Providers → BreakingReport → M (List RuntimeImpact)
runtime_impact providers report = elim providers.runtime [
  | none ↦ done []
  | some list ↦
      if report.base_version_id == ""
      then done []
      else list_or_empty (list report.id report.base_version_id default_approval_list_limit 0)
]

-- One item of the loop of `policyAffectedModules`.
unfoldable pub policy_affected_module : Platform → AffectedModule → M PolicyAffectedModule
unfolding get_module_by_name list_owners
policy_affected_module platform item = do
  row ← find_row (get_module_by_name item.module_name)
  elim row [
    | none ↦ done (record {
      module_id = none;
      module_name = item.module_name;
      owners = [];
      production_used = false;
    })
    | some m ↦ do
      owners ← list_or_empty (list_owners platform m.id)
      done (record {
        module_id = some m.id;
        module_name = m.name;
        owners = owners;
        production_used = false;
      })
  ]

unfoldable pub policy_affected_modules :
    Platform → List AffectedModule → M (List PolicyAffectedModule)
unfolding policy_affected_module
policy_affected_modules platform [] = done []
policy_affected_modules platform (item ∷ rest) = do
  affected ← policy_affected_module platform item
  more ← policy_affected_modules platform rest
  done (affected ∷ more)

pub record ApprovalPolicyContext : Type 0 where
  pub report : BreakingReport
  pub changed : Module
  pub module_owners : List ModuleOwner
  pub affected_modules : List PolicyAffectedModule
  pub runtime_impact : List RuntimeImpact

unfoldable pub approval_policy_context_for_report :
    Platform → Providers → String → M ApprovalPolicyContext
unfolding get_breaking_report get_module_by_id list_owners affected_modules runtime_impact
    policy_affected_modules
approval_policy_context_for_report platform providers report_id = do
  report ←
      map_fault (when_not_found GovernanceError.breaking_report_not_found)
        (get_breaking_report platform report_id)
  changed ←
      map_fault (when_not_found GovernanceError.module_not_found)
        (get_module_by_id platform report.module_id)
  owners ← list_or_empty (list_owners platform changed.id)
  affected ← affected_modules providers report.module_id
  impact ← runtime_impact providers report
  consumers ← policy_affected_modules platform affected
  done (record {
    report = report;
    changed = changed;
    module_owners = owners;
    affected_modules = consumers;
    runtime_impact = impact;
  })

join_messages : List GovernancePolicyWarning → String
join_messages [] = ""
join_messages (warning ∷ rest) = append " " (append warning.message (join_messages rest))

-- The reason text and the messages of the warnings, with spaces between them.
unfoldable pub requirement_reason : GovernanceRequirementPlan → String
unfolding join_messages
requirement_reason plan =
    if trim_space plan.reason_text == ""
    then reason_string plan.reason
    else append plan.reason_text (join_messages plan.warnings)

unfoldable pub build_requirement :
    String → Time → GovernanceRequirementPlan → String → ApprovalRequirement
unfolding requirement_reason
build_requirement request_id now plan id = record {
  id = new_approval_requirement_id id;
  approval_request_id = request_id;
  requirement_type = plan.requirement_type;
  target_module_id = plan.target_module_id;
  target_module_name = plan.target_module_name;
  required_role = plan.required_role;
  status = plan.status;
  reason = requirement_reason plan;
  created_at = now;
  updated_at = now;
}

unfoldable pub build_requirements :
    String → Time → List GovernanceRequirementPlan → M (List ApprovalRequirement)
unfolding build_requirement random_hex
build_requirements request_id now [] = done []
build_requirements request_id now (plan ∷ rest) = do
  id ← random_hex
  more ← build_requirements request_id now rest
  done (build_requirement request_id now plan id ∷ more)

unfoldable pub build_approval_request :
    ApprovalPolicyContext → String → GovernancePolicyResult → Time → M ApprovalRequest
unfolding build_requirements random_hex
build_approval_request context target_ref_override policy_result now = do
  hex ← random_hex
  let id = new_approval_request_id hex
  let target_ref = trim_space target_ref_override
  requirements ← build_requirements id now policy_result.requirements
  done (record {
    id = id;
    module_id = context.changed.id;
    module_name = context.changed.name;
    breaking_report_id = some context.report.id;
    target_ref = if target_ref == "" then context.report.target_ref else target_ref;
    status =
        if policy_result.approval_required
        then ApprovalRequestStatus.pending
        else ApprovalRequestStatus.not_required;
    required_approvals = length policy_result.requirements;
    received_approvals = 0;
    requirements = requirements;
    decisions = [];
    created_at = now;
    updated_at = now;
  })
