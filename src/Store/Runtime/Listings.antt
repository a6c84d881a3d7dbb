-- ===== src/Store/Runtime/Listings.antt =====
-- The listings of internal/repository/postgres/runtime_inventory.go.
use proto_radar.Prelude.{
  ℕ, String, ◌==◌, Bool, not, Option, none, some, List, [], ◌∷◌, ◌++◌, filter, find, map, take,
  drop, leb, eqb, if◌then◌else◌,
}
use proto_radar.Prelude.Sort.{sort_by, text_le}
use proto_radar.Domain.Errors.{ok}
use proto_radar.Domain.Records.{RuntimeImpact}
use proto_radar.Domain.Versions.{ModuleVersion, is_published}
use proto_radar.Domain.Runtime.{
  RuntimeService, RuntimeDeployment, RuntimeModuleUsage, RuntimeServiceDetails,
  RuntimeEnvironmentInventory, ModuleRuntimeUsage,
}
use proto_radar.Store.Db.{Db, DeploymentRow, UsageRow, Platform, with_uuid}
use proto_radar.Store.World.{M, query, done, ◌>>=◌}
use proto_radar.Store.Versions.{versions_of, latest_of}
use proto_radar.Store.Runtime.{get_runtime_service}

-- A deployment joined with its service.
unfoldable pub join_service : Db → List DeploymentRow → List RuntimeDeployment
join_service db [] = []
join_service db (row ∷ rest) =
    let more = join_service db rest in
    elim (find (λ (s : RuntimeService). s.id == row.service_id) db.services) [
      | none ↦ more
      | some service ↦
          record {
            id = row.id;
            service_id = row.service_id;
            service_name = service.name;
            environment = row.environment;
            git_commit = row.git_commit;
            build_version = row.build_version;
            reported_at = row.reported_at;
            created_at = row.created_at;
          }
          ∷ more
    ]

-- ORDER BY rd.reported_at DESC, rd.created_at DESC
abbrev deployment_le : RuntimeDeployment → RuntimeDeployment → Bool
deployment_le a b =
    if eqb a.reported_at b.reported_at
    then leb b.created_at a.created_at
    else leb b.reported_at a.reported_at

abbrev page_of : (DeploymentRow → Bool) → ℕ → ℕ → Db → List RuntimeDeployment
page_of test limit offset db =
    take limit (drop offset (sort_by deployment_le (join_service db (filter test db.deployments))))

unfoldable pub list_deployments_by_service : Platform → String → ℕ → ℕ → M (List RuntimeDeployment)
unfolding join_service
list_deployments_by_service platform service_id limit offset = query λ db.
    with_uuid platform service_id
      λ c. ok (page_of (λ (row : DeploymentRow). row.service_id == c) limit offset db)

unfoldable pub list_deployments_by_environment : String → ℕ → ℕ → M (List RuntimeDeployment)
unfolding join_service
list_deployments_by_environment environment limit offset =
    query
      λ db. ok (page_of (λ (row : DeploymentRow). row.environment == environment) limit offset db)

-- LEFT JOIN LATERAL: the latest published version of the module.
unfoldable pub latest_published : Db → Option String → Option String
latest_published db none = none
latest_published db (some module_id) =
    elim (latest_of
      (filter (λ (v : ModuleVersion). is_published v.status) (versions_of module_id db))) [
        | none ↦ none
        | some latest ↦ some latest.version
      ]

unfoldable pub scan_usage : Db → UsageRow → RuntimeModuleUsage
unfolding latest_published
scan_usage db row = record {
  id = row.id;
  deployment_id = row.deployment_id;
  module_id = row.module_id;
  module_name = row.module_name;
  module_version_id = row.module_version_id;
  version = row.version;
  latest_version = latest_published db row.module_id;
  drift_status = row.drift_status;
  drift_reason = row.drift_reason;
  created_at = row.created_at;
}

-- ORDER BY rmu.module_name ASC, rmu.version ASC
abbrev usage_le : RuntimeModuleUsage → RuntimeModuleUsage → Bool
usage_le a b =
    if a.module_name == b.module_name
    then text_le a.version b.version
    else text_le a.module_name b.module_name

unfoldable pub list_usages_by_deployment : Platform → String → M (List RuntimeModuleUsage)
unfolding scan_usage
list_usages_by_deployment platform deployment_id = query λ db. with_uuid platform deployment_id λ c.
    ok (
      sort_by usage_le
        (map (scan_usage db) (filter (λ (row : UsageRow). row.deployment_id == c) db.usages)))

-- The usages of each deployment, one query for each.
unfoldable pub usages_of_deployments :
    Platform → List RuntimeDeployment → M (List RuntimeModuleUsage)
unfolding list_usages_by_deployment
usages_of_deployments platform [] = done []
usages_of_deployments platform (deployment ∷ rest) = do
  usages ← list_usages_by_deployment platform deployment.id
  more ← usages_of_deployments platform rest
  done (usages ++ more)

unfoldable pub get_runtime_service_details : Platform → String → M RuntimeServiceDetails
unfolding get_runtime_service list_deployments_by_service usages_of_deployments
get_runtime_service_details platform name = do
  service ← get_runtime_service name
  deployments ← list_deployments_by_service platform service.id 1000 0
  usages ← usages_of_deployments platform deployments
  done (record { service = service; deployments = deployments; usages = usages })

unfoldable pub list_environment_inventory :
    Platform → String → ℕ → ℕ → M RuntimeEnvironmentInventory
unfolding list_deployments_by_environment usages_of_deployments
list_environment_inventory platform environment limit offset = do
  deployments ← list_deployments_by_environment environment limit offset
  usages ← usages_of_deployments platform deployments
  done (record { environment = environment; deployments = deployments; usages = usages })

-- A usage joined with its deployment and its service.
unfoldable pub join_usage : Db → List UsageRow → List (UsageRow × RuntimeDeployment)
unfolding join_service
join_usage db [] = []
join_usage db (row ∷ rest) =
    map (λ (d : RuntimeDeployment). (row, d))
      (join_service db (filter (λ (d : DeploymentRow). d.id == row.deployment_id) db.deployments))
    ++ join_usage db rest

-- ORDER BY rd.reported_at DESC, rs.name ASC, rd.environment ASC
abbrev joined_le : UsageRow × RuntimeDeployment → UsageRow × RuntimeDeployment → Bool
joined_le a b =
    if not (eqb a.1.reported_at b.1.reported_at)
    then leb b.1.reported_at a.1.reported_at
    else if not (a.1.service_name == b.1.service_name)
    then text_le a.1.service_name b.1.service_name
    else text_le a.1.environment b.1.environment

abbrev joined_page : (UsageRow → Bool) → ℕ → ℕ → Db → List (UsageRow × RuntimeDeployment)
joined_page test limit offset db =
    take limit (drop offset (sort_by joined_le (join_usage db (filter test db.usages))))

unfoldable pub module_usage : UsageRow × RuntimeDeployment → ModuleRuntimeUsage
module_usage (row, deployment) = record {
  service_name = deployment.service_name;
  environment = deployment.environment;
  deployment_id = deployment.id;
  module_name = row.module_name;
  version = row.version;
  git_commit = deployment.git_commit;
  build_version = deployment.build_version;
  reported_at = deployment.reported_at;
  drift_status = row.drift_status;
  drift_reason = row.drift_reason;
}

abbrev same_ref : Option String → String → Bool
same_ref none id = Bool.false
same_ref (some a) id = a == id

unfoldable pub list_module_runtime_usages : Platform → String → ℕ → ℕ → M (List ModuleRuntimeUsage)
unfolding join_usage module_usage
list_module_runtime_usages platform module_id limit offset = query λ db.
    with_uuid platform module_id
      λ c. ok (map module_usage (joined_page (λ row. same_ref row.module_id c) limit offset db))

unfoldable pub list_module_runtime_usages_by_name : String → ℕ → ℕ → M (List ModuleRuntimeUsage)
unfolding join_usage module_usage
list_module_runtime_usages_by_name name limit offset =
    query λ db. ok (map module_usage (joined_page (λ row. row.module_name == name) limit offset db))

-- `RuntimeImpact`, as far as its record holds it.
unfoldable pub impact_of : UsageRow × RuntimeDeployment → RuntimeImpact
impact_of (row, deployment) = record {
  service_name = deployment.service_name;
  environment = deployment.environment;
  used_module = row.module_name;
  used_version = row.version;
  reported_at = deployment.reported_at;
  drift_status = row.drift_status;
}

unfoldable pub list_runtime_impact : Platform → String → ℕ → ℕ → M (List RuntimeImpact)
unfolding join_usage impact_of
list_runtime_impact platform version_id limit offset = query λ db.
    with_uuid platform version_id λ c.
      ok (map impact_of (joined_page (λ row. same_ref row.module_version_id c) limit offset db))
