-- ===== src/Inventory/Drift.antt =====
-- internal/usecase/runtimeinventory/service.go, resolveRuntimeUsage: how far a reported version is from
-- the latest one.
use Prim.Native.String.{◌++◌ as append}
use proto_radar.Prelude.{String, ◌==◌, ◌||◌, Option, none, some, if◌then◌else◌}
use proto_radar.Domain.Enums.{RuntimeDriftStatus}
use proto_radar.Domain.Versions.{ModuleVersion, is_deprecated}
use proto_radar.Domain.Records.{Module}
use proto_radar.Domain.Runtime.{RuntimeModuleUsage}
use proto_radar.Store.Db.{Platform}
use proto_radar.Store.World.{M, done, find_row, ◌>>=◌}
use proto_radar.Store.Modules.{get_module_by_name}
use proto_radar.Store.Versions.{get_version, get_latest_version}
use proto_radar.Inventory.References.{ReportedModuleReference}

abbrev pub drift_reason_up_to_date : String
drift_reason_up_to_date = "up_to_date"

abbrev pub drift_reason_module_not_found : String
drift_reason_module_not_found = "module_not_found"

abbrev pub drift_reason_version_not_found : String
drift_reason_version_not_found = "version_not_found"

abbrev pub drift_reason_behind_latest : String
drift_reason_behind_latest = "behind_latest"

abbrev pub drift_reason_deprecated : String
drift_reason_deprecated = "deprecated_version"

-- The usage before anything is known of its module; its ids and its time are set by the caller.
unfoldable pub unknown_usage : ReportedModuleReference → RuntimeModuleUsage
unknown_usage reference = record {
  id = "";
  deployment_id = "";
  module_id = none;
  module_name = reference.module_name;
  module_version_id = none;
  version = reference.version;
  latest_version = none;
  drift_status = RuntimeDriftStatus.unknown_version;
  drift_reason = drift_reason_module_not_found;
  created_at = 0;
}

-- The id and the version of the zero `ModuleVersion` are empty.
abbrev pub id_of : Option ModuleVersion → String
id_of none = ""
id_of (some v) = v.id

abbrev pub version_of : Option ModuleVersion → String
version_of none = ""
version_of (some v) = v.version

abbrev pub behind_reason : Option ModuleVersion → String
behind_reason none = drift_reason_behind_latest
behind_reason (some latest) =
    append drift_reason_behind_latest (append ": latest version is " latest.version)

-- Deprecated goes before up to date, and that before behind.
unfoldable pub drift :
    ModuleVersion → Option ModuleVersion → RuntimeModuleUsage → RuntimeModuleUsage
drift version latest usage =
    if is_deprecated version
    then record usage {
      drift_status = RuntimeDriftStatus.deprecated_version;
      drift_reason = drift_reason_deprecated;
    }
    else if id_of latest == version.id || version_of latest == version.version
    then record usage {
      drift_status = RuntimeDriftStatus.up_to_date;
      drift_reason = drift_reason_up_to_date;
    }
    else record usage {
      drift_status = RuntimeDriftStatus.behind_latest;
      drift_reason = behind_reason latest;
    }

abbrev pub latest_text : Option ModuleVersion → Option String
latest_text none = none
latest_text (some latest) = some latest.version

unfoldable pub resolve_against_latest :
    Platform → String → ModuleVersion → RuntimeModuleUsage → M RuntimeModuleUsage
unfolding drift get_latest_version
resolve_against_latest platform module_id version usage = do
  latest ← find_row (get_latest_version platform module_id)
  done (
      drift version latest
        (record usage { module_version_id = some version.id; latest_version = latest_text latest }))

unfoldable pub resolve_in_module :
    Platform → ReportedModuleReference → Module → M RuntimeModuleUsage
unfolding unknown_usage resolve_against_latest get_version
resolve_in_module platform reference found = do
  row ← find_row (get_version platform found.id reference.version)
  elim row [
    | none ↦ done (record (unknown_usage reference) {
      module_id = some found.id;
      drift_reason = drift_reason_version_not_found;
    })
    | some version ↦
        resolve_against_latest platform found.id version
          (record (unknown_usage reference) { module_id = some found.id })
  ]

unfoldable pub resolve_runtime_usage : Platform → ReportedModuleReference → M RuntimeModuleUsage
unfolding unknown_usage resolve_in_module get_module_by_name
resolve_runtime_usage platform reference = do
  row ← find_row (get_module_by_name reference.module_name)
  elim row [
    | none ↦ done (unknown_usage reference)
    | some found ↦ resolve_in_module platform reference found
  ]
