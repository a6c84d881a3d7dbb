-- ===== src/Inventory/Samples.antt =====
-- The theorems on the runtime inventory at concrete inputs: one module with two versions, and a service
-- that reports the older one twice.
use proto_radar.Prelude.{String, ◌≡◌, ◌≢◌, refl, some, none, List, [], ◌∷◌, any, trim_space}
use proto_radar.Domain.Errors.{ok, driver}
use proto_radar.Outbox.Table.{create}
use proto_radar.Domain.Names.{
  new_module_name, new_version, is_module_name_char, new_runtime_service_name, is_runtime_name_char,
  new_runtime_environment, validate_runtime_git_commit, validate_runtime_build_version,
}
use proto_radar.Domain.Enums.{RuntimeDriftStatus}
use proto_radar.Domain.Records.{Module}
use proto_radar.Domain.Versions.{ModuleVersion, ModuleVersionStatus}
use proto_radar.Domain.Runtime.{RuntimeService, RuntimeModuleUsage}
use proto_radar.Store.Plain.{empty_db, plain_platform}
use proto_radar.Store.Db.{Db, Platform}
use proto_radar.Store.World.{World, ◌>>=◌, call}
use proto_radar.Inventory.References.{
  ReportedModuleInput, ReportedModuleReference, reported_module_references,
}
use proto_radar.Inventory.References.Reported.{
  DistinctReferences, IsAccepted, same_reference, named_by, reported_module_references_exact,
}
use proto_radar.Inventory.Drift.{resolve_runtime_usage}
use proto_radar.Inventory.Resolved.{IsDrift, resolve_runtime_usage-IsDrift}
use proto_radar.Inventory.Report.{
  ReportRuntimeInventoryInput, ReportRuntimeInventoryOutput, report_runtime_inventory,
}
use proto_radar.Inventory.Effects.{
  IsReportOf, report_runtime_inventory_effect, report_runtime_inventory_error,
}

abbrev platform : Platform
platform = plain_platform

abbrev registered : Module
registered = record {
  id = "m1";
  name = "user-api";
  description = "";
  repository_url = "";
  created_at = 1;
  updated_at = 1;
}

abbrev version : String → String → ModuleVersion
version id text = record {
  id = id;
  module_id = "m1";
  version = text;
  status = ModuleVersionStatus.published;
  digest = "";
  created_at = 3;
  deprecated_at = none;
  deprecated_by = "";
  deprecation_reason = "";
}

abbrev service : RuntimeService
service = record { id = "s1"; name = "billing"; created_at = 2; updated_at = 2 }

abbrev db : Db
db = record empty_db {
  modules = registered ∷ [];
  versions = version "v1" "v1.0.0" ∷ record (version "v2" "v1.1.0") { created_at = 4 } ∷ [];
  services = service ∷ [];
}

abbrev world : World
world = record {
  db = db;
  faults = [];
  random = ok "s2" ∷ ok "d1" ∷ ok "u1" ∷ [];
  uuids = "e1" ∷ [];
}

abbrev reported : List ReportedModuleInput
reported =
    record { module_name = "user-api"; version = "v1.0.0" }
    ∷ record { module_name = " user-api"; version = "v1.0.0 " }
    ∷ []

abbrev reference : ReportedModuleReference
reference = record { module_name = "user-api"; version = "v1.0.0" }

abbrev input : ReportRuntimeInventoryInput
input = record {
  service_name = "billing";
  environment = "prod";
  git_commit = "abc";
  build_version = "1";
  reported_at = some 9;
  reported = reported;
}

reported_module_references_exact_example :
    (reference ∷ [] ≢ [])
    × DistinctReferences (reference ∷ [])
    × ((r : ReportedModuleReference)
        → IsAccepted r
        → any (same_reference r) (reference ∷ []) ≡ any (named_by r) reported)
unfolding reported_module_references new_module_name trim_space is_module_name_char new_version
reported_module_references_exact_example =
    reported_module_references_exact reported (reference ∷ []) refl

resolve_runtime_usage-IsDrift_example :
    (u : RuntimeModuleUsage) × (resolve_runtime_usage platform reference world ≡ (ok u, world))
    × IsDrift db reference u
resolve_runtime_usage-IsDrift_example =
    resolve_runtime_usage-IsDrift platform reference world refl (refl, tt)

abbrev broken_world : World
broken_world = record world {
  faults = none ∷ none ∷ none ∷ none ∷ none ∷ none ∷ some (driver 1) ∷ [];
}

report_runtime_inventory_error_example :
    (report_runtime_inventory platform 9 input 9 broken_world).1.db ≡ db
unfolding report_runtime_inventory ◌>>=◌ new_runtime_service_name trim_space is_runtime_name_char
    new_runtime_environment validate_runtime_git_commit validate_runtime_build_version
    new_module_name is_module_name_char new_version call
report_runtime_inventory_error_example =
    report_runtime_inventory_error platform 9 9 input broken_world (driver 1) (refl, tt) refl

abbrev output : ReportRuntimeInventoryOutput
output = record {
  deployment_id = "d1";
  service_name = "billing";
  environment = "prod";
  git_commit = "abc";
  build_version = "1";
  reported_at = 9;
  usages =
      record {
        module_name = "user-api";
        version = "v1.0.0";
        latest_version = "v1.1.0";
        drift_status = RuntimeDriftStatus.behind_latest;
        drift_reason = "behind_latest: latest version is v1.1.0";
      }
      ∷ [];
  drift_counts = record {
    up_to_date = 0;
    behind_latest = 1;
    unknown_version = 0;
    deprecated_version = 0;
  };
}

report_runtime_inventory_effect_example :
    IsReportOf platform 9 9 input db output (report_runtime_inventory platform 9 input 9 world).1.db
unfolding report_runtime_inventory ◌>>=◌ new_runtime_service_name trim_space is_runtime_name_char
    new_runtime_environment validate_runtime_git_commit validate_runtime_build_version
    new_module_name is_module_name_char new_version call create
report_runtime_inventory_effect_example =
    report_runtime_inventory_effect platform 9 9 input world output (refl, tt) refl
