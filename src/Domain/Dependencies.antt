-- ===== src/Domain/Dependencies.antt =====
-- internal/domain/dependency_graph.go: dependencies between module versions.
use proto_radar.Prelude.{String}
use proto_radar.Domain.Records.{Time}

pub data DependencySource : Type 0 where
  from_import type_reference method_reference package_fallback : DependencySource

abbrev pub dependency_source_text : DependencySource → String
dependency_source_text DependencySource.from_import = "import"
dependency_source_text DependencySource.type_reference = "type_reference"
dependency_source_text DependencySource.method_reference = "method_reference"
dependency_source_text DependencySource.package_fallback = "package_fallback"

pub data DependencyResolutionReason : Type 0 where
  by_import_path by_symbol by_package_fallback : DependencyResolutionReason

pub data UnresolvedDependencyReason : Type 0 where
  provider_not_found ambiguous_provider : UnresolvedDependencyReason

pub record ModuleDependency : Type 0 where
  pub id : String
  pub consumer_module_id : String
  pub consumer_module_name : String
  pub consumer_module_version_id : String
  pub consumer_version : String
  pub provider_module_id : String
  pub provider_module_name : String
  pub provider_module_version_id : String
  pub provider_version : String
  pub source : DependencySource
  pub reason : DependencyResolutionReason
  pub import_path : String
  pub referenced_package : String
  pub referenced_symbol : String
  pub created_at : Time

pub record UnresolvedProtoDependency : Type 0 where
  pub id : String
  pub module_id : String
  pub module_name : String
  pub module_version_id : String
  pub version : String
  pub source : DependencySource
  pub import_path : String
  pub referenced_package : String
  pub referenced_symbol : String
  pub reason : UnresolvedDependencyReason
  pub created_at : Time
