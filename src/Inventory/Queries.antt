-- ===== src/Inventory/Queries.antt =====
-- internal/usecase/runtimeinventory/service.go: what is read of the inventory.
use proto_radar.Prelude.{ℕ, String, none, some, List}
use proto_radar.Domain.Names.{new_runtime_service_name, new_runtime_environment, new_module_name}
use proto_radar.Domain.Records.{RuntimeImpact}
use proto_radar.Domain.Runtime.{
  RuntimeServiceDetails, RuntimeEnvironmentInventory, ModuleRuntimeUsage,
}
use proto_radar.Store.Db.{Platform}
use proto_radar.Store.World.{M, ◌>>=◌, lift, find_row}
use proto_radar.Store.Modules.{get_module_by_name, get_breaking_report}
use proto_radar.Store.Runtime.Listings.{
  get_runtime_service_details, list_environment_inventory, list_module_runtime_usages,
  list_module_runtime_usages_by_name, list_runtime_impact,
}

unfoldable pub runtime_service_details : Platform → String → M RuntimeServiceDetails
unfolding lift get_runtime_service_details
runtime_service_details platform value = do
  name ← lift (new_runtime_service_name value)
  get_runtime_service_details platform name

unfoldable pub environment_inventory : Platform → String → ℕ → ℕ → M RuntimeEnvironmentInventory
unfolding lift list_environment_inventory
environment_inventory platform value limit offset = do
  environment ← lift (new_runtime_environment value)
  list_environment_inventory platform environment limit offset

-- Of a module that is not registered, what names it.
unfoldable pub module_runtime_usages : Platform → String → ℕ → ℕ → M (List ModuleRuntimeUsage)
unfolding lift get_module_by_name list_module_runtime_usages list_module_runtime_usages_by_name
module_runtime_usages platform value limit offset = do
  name ← lift (new_module_name value)
  row ← find_row (get_module_by_name name)
  elim row [
    | none ↦ list_module_runtime_usages_by_name name limit offset
    | some found ↦ list_module_runtime_usages platform found.id limit offset
  ]

unfoldable pub breaking_report_runtime_impact : Platform → String → ℕ → ℕ → M (List RuntimeImpact)
unfolding get_breaking_report list_runtime_impact
breaking_report_runtime_impact platform report_id limit offset = do
  report ← get_breaking_report platform report_id
  list_runtime_impact platform report.base_version_id limit offset
