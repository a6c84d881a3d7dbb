-- ===== src/Events/Runtime.antt =====
-- internal/integration/protoradarevents: runtime_inventory_reported.go and
-- module_dependencies_updated.go.
use Prim.Native.String.{◌++◌ as append}
use proto_radar.Prelude.{ℕ, String, []}
use proto_radar.Prelude.Json.{word, number, marshalled_object, field, marshal}
use proto_radar.Domain.Records.{Time, Module}
use proto_radar.Domain.Versions.{ModuleVersion}
use proto_radar.Outbox.Record.{Event}
use proto_radar.Store.Db.{Platform}

-- `DriftCounts` of the use case and `RuntimeInventoryDriftCounts` of the event.
pub record DriftCounts : Type 0 where
  pub up_to_date : ℕ
  pub behind_latest : ℕ
  pub unknown_version : ℕ
  pub deprecated_version : ℕ

pub record RuntimeInventoryReported : Type 0 where
  pub deployment_id : String
  pub service_id : String
  pub service_name : String
  pub environment : String
  pub git_commit : String
  pub build_version : String
  pub module_usage_count : ℕ
  pub drift_counts : DriftCounts
  pub occurred_at : Time

unfoldable pub new_runtime_inventory_reported : Platform → RuntimeInventoryReported → Event
new_runtime_inventory_reported platform event = record {
  aggregate_type = "runtime_deployment";
  aggregate_id = event.deployment_id;
  event_type = "protoradar.runtime_inventory.reported";
  dedup_key = append "runtime-deployment:" (append event.deployment_id ":reported");
  payload = marshal (
      field "deployment_id" (word event.deployment_id) (
        field "service_id" (word event.service_id) (
          field "service_name" (word event.service_name) (
            field "environment" (word event.environment) (
              field "git_commit" (word event.git_commit) (
                field "build_version" (word event.build_version) (
                  field "module_usage_count" (number event.module_usage_count) (
                    field "drift_counts"
                      (marshalled_object (
                        marshal (
                          field "up_to_date" (number event.drift_counts.up_to_date) (
                            field "behind_latest" (number event.drift_counts.behind_latest) (
                              field "unknown_version" (number event.drift_counts.unknown_version) (
                                field "deprecated_version"
                                  (number event.drift_counts.deprecated_version) []))))))
                      (field "occurred_at" (word (platform.rfc3339 event.occurred_at)) [])))))))));
  occurred_at = event.occurred_at;
}

pub record ModuleDependenciesUpdated : Type 0 where
  pub updated : Module
  pub version : ModuleVersion
  pub dependency_count : ℕ
  pub unresolved_dependency_count : ℕ
  pub occurred_at : Time

unfoldable pub new_module_dependencies_updated : Platform → ModuleDependenciesUpdated → Event
new_module_dependencies_updated platform event = record {
  aggregate_type = "module";
  aggregate_id = event.updated.id;
  event_type = "protoradar.module_dependencies.updated";
  dedup_key = append "module:" (
      append event.updated.id
        (append ":version:" (append event.version.version ":dependencies-updated")));
  payload = marshal (
      field "module_id" (word event.updated.id) (
        field "module_name" (word event.updated.name) (
          field "module_version_id" (word event.version.id) (
            field "version" (word event.version.version) (
              field "dependency_count" (number event.dependency_count) (
                field "unresolved_dependency_count" (number event.unresolved_dependency_count)
                  (field "occurred_at" (word (platform.rfc3339 event.occurred_at)) [])))))));
  occurred_at = event.occurred_at;
}
