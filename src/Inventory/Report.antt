-- ===== src/Inventory/Report.antt =====
-- internal/usecase/runtimeinventory/service.go, ReportRuntimeInventory: a service reports what it runs.
-- `wall` is what time.Now() says in the repository, `now` what the clock of the service says.
use proto_radar.Prelude.{
  suc, String, true, false, Option, none, some, List, [], ◌∷◌, map, length, trim_space,
}
use proto_radar.Domain.Names.{
  new_runtime_service_name, new_runtime_environment, validate_runtime_git_commit,
  validate_runtime_build_version,
}
use proto_radar.Domain.Enums.{RuntimeDriftStatus}
use proto_radar.Domain.Records.{Time}
use proto_radar.Domain.Runtime.{RuntimeService, RuntimeDeployment, RuntimeModuleUsage}
use proto_radar.Store.Db.{Platform}
use proto_radar.Store.World.{M, ◌>>=◌, ◌>>◌, done, lift, random_hex, within_transaction}
use proto_radar.Store.Runtime.{
  upsert_runtime_service, create_runtime_deployment, create_runtime_module_usages,
}
use proto_radar.Store.OutboxWriter.{write_event}
use proto_radar.Events.Runtime.{
  DriftCounts, RuntimeInventoryReported, new_runtime_inventory_reported,
}
use proto_radar.Inventory.References.{
  ReportedModuleInput, ReportedModuleReference, reported_module_references,
}
use proto_radar.Inventory.Drift.{resolve_runtime_usage}

pub record ReportRuntimeInventoryInput : Type 0 where
  pub service_name : String
  pub environment : String
  pub git_commit : String
  pub build_version : String
  pub reported_at : Option Time
  pub reported : List ReportedModuleInput

pub record RuntimeModuleUsageOutput : Type 0 where
  pub module_name : String
  pub version : String
  pub latest_version : String
  pub drift_status : RuntimeDriftStatus
  pub drift_reason : String

pub record ReportRuntimeInventoryOutput : Type 0 where
  pub deployment_id : String
  pub service_name : String
  pub environment : String
  pub git_commit : String
  pub build_version : String
  pub reported_at : Time
  pub usages : List RuntimeModuleUsageOutput
  pub drift_counts : DriftCounts

unfoldable pub add_count : RuntimeDriftStatus → DriftCounts → DriftCounts
add_count RuntimeDriftStatus.up_to_date counts = record counts {
  up_to_date = suc counts.up_to_date;
}
add_count RuntimeDriftStatus.behind_latest counts = record counts {
  behind_latest = suc counts.behind_latest;
}
add_count RuntimeDriftStatus.unknown_version counts = record counts {
  unknown_version = suc counts.unknown_version;
}
add_count RuntimeDriftStatus.deprecated_version counts = record counts {
  deprecated_version = suc counts.deprecated_version;
}

-- The loop over the resolved usages, from the counts so far.
unfoldable pub count_drift : DriftCounts → List RuntimeModuleUsage → DriftCounts
unfolding add_count
count_drift counts [] = counts
count_drift counts (usage ∷ rest) = count_drift (add_count usage.drift_status counts) rest

abbrev pub no_counts : DriftCounts
no_counts = record {
  up_to_date = 0;
  behind_latest = 0;
  unknown_version = 0;
  deprecated_version = 0;
}

abbrev or_empty : Option String → String
or_empty none = ""
or_empty (some text) = text

unfoldable pub runtime_usage_output : RuntimeModuleUsage → RuntimeModuleUsageOutput
runtime_usage_output usage = record {
  module_name = usage.module_name;
  version = usage.version;
  latest_version = or_empty usage.latest_version;
  drift_status = usage.drift_status;
  drift_reason = usage.drift_reason;
}

-- The loop over the references: each is resolved, then it gets its id.
unfoldable pub resolve_usages :
    Platform → String → Time → List ReportedModuleReference → M (List RuntimeModuleUsage)
unfolding resolve_runtime_usage random_hex
resolve_usages platform deployment_id reported_at [] = done []
resolve_usages platform deployment_id reported_at (reference ∷ rest) = do
  usage ← resolve_runtime_usage platform reference
  id ← random_hex
  more ← resolve_usages platform deployment_id reported_at rest
  done (record usage { id = id; deployment_id = deployment_id; created_at = reported_at } ∷ more)

-- What the checks accept, before anything is read.
pub record Accepted : Type 0 where
  pub service_name : String
  pub environment : String
  pub git_commit : String
  pub build_version : String
  pub reported_at : Time
  pub references : List ReportedModuleReference

abbrev pub at_or_now : Option Time → Time → Time
at_or_now none now = now
at_or_now (some at) now = at

unfoldable pub accept_report : ReportRuntimeInventoryInput → Time → M Accepted
unfolding lift reported_module_references
accept_report input now = do
  service_name ← lift (new_runtime_service_name input.service_name)
  environment ← lift (new_runtime_environment input.environment)
  let git_commit = trim_space input.git_commit
  lift (validate_runtime_git_commit git_commit)
  let build_version = trim_space input.build_version
  lift (validate_runtime_build_version build_version)
  references ← lift (reported_module_references input.reported)
  done (record {
    service_name = service_name;
    environment = environment;
    git_commit = git_commit;
    build_version = build_version;
    reported_at = at_or_now input.reported_at now;
    references = references;
  })

unfoldable pub reported_service : String → Accepted → RuntimeService
reported_service id report = record {
  id = id;
  name = report.service_name;
  created_at = report.reported_at;
  updated_at = report.reported_at;
}

unfoldable pub reported_deployment : String → RuntimeService → Accepted → RuntimeDeployment
reported_deployment id service report = record {
  id = id;
  service_id = service.id;
  service_name = service.name;
  environment = report.environment;
  git_commit = report.git_commit;
  build_version = report.build_version;
  reported_at = report.reported_at;
  created_at = report.reported_at;
}

unfoldable pub reported_event :
    String → RuntimeService → Accepted → List RuntimeModuleUsage → RuntimeInventoryReported
unfolding count_drift
reported_event id service report usages = record {
  deployment_id = id;
  service_id = service.id;
  service_name = service.name;
  environment = report.environment;
  git_commit = report.git_commit;
  build_version = report.build_version;
  module_usage_count = length usages;
  drift_counts = count_drift no_counts usages;
  occurred_at = report.reported_at;
}

-- The statements of the transaction.
unfoldable pub write_report :
    Platform → Time → String → String → Accepted → List RuntimeModuleUsage → M (Unit {0})
unfolding upsert_runtime_service create_runtime_deployment create_runtime_module_usages write_event
    reported_service reported_deployment reported_event new_runtime_inventory_reported
write_report platform wall service_id deployment_id report usages = do
  service ← upsert_runtime_service platform wall (reported_service service_id report)
  create_runtime_deployment platform wall (reported_deployment deployment_id service report)
  create_runtime_module_usages platform wall true usages
  write_event report.reported_at
      (new_runtime_inventory_reported platform (reported_event deployment_id service report usages))

unfoldable pub store_report :
    Platform → Time → String → String → Accepted → List RuntimeModuleUsage → M (Unit {0})
unfolding within_transaction write_report
store_report platform wall service_id deployment_id report usages =
    within_transaction false
      λ in_tx. write_report platform wall service_id deployment_id report usages

unfoldable pub report_runtime_inventory :
    Platform → Time → ReportRuntimeInventoryInput → Time → M ReportRuntimeInventoryOutput
unfolding accept_report random_hex resolve_usages store_report runtime_usage_output count_drift
report_runtime_inventory platform wall input now = do
  report ← accept_report input now
  service_id ← random_hex
  deployment_id ← random_hex
  usages ← resolve_usages platform deployment_id report.reported_at report.references
  store_report platform wall service_id deployment_id report usages
  done (record {
    deployment_id = deployment_id;
    service_name = report.service_name;
    environment = report.environment;
    git_commit = report.git_commit;
    build_version = report.build_version;
    reported_at = report.reported_at;
    usages = map runtime_usage_output usages;
    drift_counts = count_drift no_counts usages;
  })
