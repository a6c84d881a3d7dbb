-- ===== src/Domain/Runtime.antt =====
-- internal/domain/runtime_inventory.go: the records of the runtime inventory.
use proto_radar.Prelude.{String, Option, List}
use proto_radar.Domain.Enums.{RuntimeDriftStatus}
use proto_radar.Domain.Records.{Time}

pub record RuntimeService : Type 0 where
  pub id : String
  pub name : String
  pub created_at : Time
  pub updated_at : Time

pub record RuntimeDeployment : Type 0 where
  pub id : String
  pub service_id : String
  pub service_name : String
  pub environment : String
  pub git_commit : String
  pub build_version : String
  pub reported_at : Time
  pub created_at : Time

pub record RuntimeModuleUsage : Type 0 where
  pub id : String
  pub deployment_id : String
  pub module_id : Option String
  pub module_name : String
  pub module_version_id : Option String
  pub version : String
  pub latest_version : Option String
  pub drift_status : RuntimeDriftStatus
  pub drift_reason : String
  pub created_at : Time

pub record RuntimeServiceDetails : Type 0 where
  pub service : RuntimeService
  pub deployments : List RuntimeDeployment
  pub usages : List RuntimeModuleUsage

pub record RuntimeEnvironmentInventory : Type 0 where
  pub environment : String
  pub deployments : List RuntimeDeployment
  pub usages : List RuntimeModuleUsage

pub record ModuleRuntimeUsage : Type 0 where
  pub service_name : String
  pub environment : String
  pub deployment_id : String
  pub module_name : String
  pub version : String
  pub git_commit : String
  pub build_version : String
  pub reported_at : Time
  pub drift_status : RuntimeDriftStatus
  pub drift_reason : String
