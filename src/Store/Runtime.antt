-- ===== src/Store/Runtime.antt =====
-- `RuntimeInventoryRepository` of internal/repository/postgres/runtime_inventory.go. `wall` is what
-- time.Now() says.
pub mod Listings
use proto_radar.Prelude.{
  String, ◌==◌, Bool, true, ◌&&◌, ◌||◌, Option, none, some, List, [], ◌∷◌, ◌++◌, any, find, map,
  eqb, if◌then◌else◌,
}
use proto_radar.Domain.Errors.{Result, ok, err, domain, DomainError}
use proto_radar.Domain.Records.{Time}
use proto_radar.Domain.Versions.{ModuleVersion}
use proto_radar.Domain.Runtime.{RuntimeService, RuntimeDeployment, RuntimeModuleUsage}
use proto_radar.Store.Db.{
  Db, DeploymentRow, UsageRow, Platform, with_uuid, with_nullable_uuid, foreign_key,
}
use proto_radar.Store.World.{M, query, statement, returning, within_transaction, done, ◌>>=◌, ◌>>◌}
use proto_radar.Store.Modules.{row_or_not_found}
use proto_radar.Store.Owners.{has_module}

unfoldable pub time_or_now : Time → Time → Time
time_or_now wall value = if eqb value 0 then wall else value

abbrev pub service_with_name : String → Db → Option RuntimeService
service_with_name name db = find (λ (row : RuntimeService). row.name == name) db.services

-- INSERT ... ON CONFLICT (name) DO UPDATE SET updated_at ... RETURNING: the service of that name with its
-- own id, or a new one.
unfoldable pub touch_service : String → Time → RuntimeService → RuntimeService
touch_service name updated_at row =
    if row.name == name then record row { updated_at = updated_at } else row

unfoldable pub upsert_service_row :
    Platform → Time → RuntimeService → Db → Result (RuntimeService × Db)
unfolding time_or_now touch_service
upsert_service_row platform wall service db = with_uuid platform service.id λ id.
    let stored = record service {
      id = id;
      created_at = time_or_now wall service.created_at;
      updated_at = time_or_now wall service.updated_at;
    } in
    elim (service_with_name service.name db) [
      | some row ↦ ok (
        touch_service service.name stored.updated_at row,
        record db { services = map (touch_service service.name stored.updated_at) db.services },
      )
      | none ↦
          if any (λ (row : RuntimeService). row.id == id) db.services
          then err (domain DomainError.duplicate)
          else ok (stored, record db { services = db.services ++ stored ∷ [] })
    ]

unfoldable pub upsert_runtime_service : Platform → Time → RuntimeService → M RuntimeService
unfolding upsert_service_row
upsert_runtime_service platform wall service = returning (upsert_service_row platform wall service)

unfoldable pub get_runtime_service : String → M RuntimeService
get_runtime_service name = query λ db. row_or_not_found (service_with_name name db)

unfoldable pub insert_deployment : Platform → Time → RuntimeDeployment → Db → Result Db
unfolding time_or_now
insert_deployment platform wall deployment db = with_uuid platform deployment.id λ id.
    with_uuid platform deployment.service_id λ service_id.
      if any (λ (row : DeploymentRow). row.id == id) db.deployments
      then err (domain DomainError.duplicate)
      else if any (λ (row : RuntimeService). row.id == service_id) db.services
      then ok (record db {
        deployments =
            db.deployments
            ++ record {
              id = id;
              service_id = service_id;
              environment = deployment.environment;
              git_commit = deployment.git_commit;
              build_version = deployment.build_version;
              reported_at = deployment.reported_at;
              created_at = time_or_now wall deployment.created_at;
            }
              ∷ [];
      })
      else err foreign_key

unfoldable pub create_runtime_deployment : Platform → Time → RuntimeDeployment → M (Unit {0})
unfolding insert_deployment
create_runtime_deployment platform wall deployment =
    statement (insert_deployment platform wall deployment)

abbrev pub has_module_ref : Option String → Db → Bool
has_module_ref none db = true
has_module_ref (some id) db = has_module id db

abbrev pub has_version_ref : Option String → Db → Bool
has_version_ref none db = true
has_version_ref (some id) db = any (λ (row : ModuleVersion). row.id == id) db.versions

unfoldable pub usage_row :
    Time → RuntimeModuleUsage → String → String → Option String → Option String → UsageRow
unfolding time_or_now
usage_row wall usage id deployment_id module_id version_id = record {
  id = id;
  deployment_id = deployment_id;
  module_id = module_id;
  module_name = usage.module_name;
  module_version_id = version_id;
  version = usage.version;
  drift_status = usage.drift_status;
  drift_reason = usage.drift_reason;
  created_at = time_or_now wall usage.created_at;
}

unfoldable pub insert_usage : Platform → Time → RuntimeModuleUsage → Db → Result Db
unfolding usage_row
insert_usage platform wall usage db = with_uuid platform usage.id λ id.
    with_uuid platform usage.deployment_id λ deployment_id.
      with_nullable_uuid platform usage.module_id λ module_id.
        with_nullable_uuid platform usage.module_version_id λ version_id.
          if any (λ (row : UsageRow). row.id == id) db.usages
          then err (domain DomainError.duplicate)
          else if any (λ (row : DeploymentRow). row.id == deployment_id) db.deployments
              && (has_module_ref module_id db && has_version_ref version_id db)
          then ok (record db {
            usages = db.usages ++ usage_row wall usage id deployment_id module_id version_id ∷ [];
          })
          else err foreign_key

unfoldable pub create_runtime_module_usage : Platform → Time → RuntimeModuleUsage → M (Unit {0})
unfolding insert_usage
create_runtime_module_usage platform wall usage = statement (insert_usage platform wall usage)

unfoldable pub create_usages : Platform → Time → List RuntimeModuleUsage → M (Unit {0})
unfolding create_runtime_module_usage
create_usages platform wall [] = done tt
create_usages platform wall (usage ∷ rest) = do
  create_runtime_module_usage platform wall usage
  create_usages platform wall rest

unfoldable pub create_runtime_module_usages :
    Platform → Time → Bool → List RuntimeModuleUsage → M (Unit {0})
unfolding create_usages within_transaction
create_runtime_module_usages platform wall in_tx usages =
    within_transaction in_tx λ in_tx. create_usages platform wall usages
