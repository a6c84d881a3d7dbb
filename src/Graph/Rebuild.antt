-- ===== src/Graph/Rebuild.antt =====
-- internal/usecase/dependencygraph/service.go: the rebuild of a version's dependencies. `clock` is the
-- time of the resolution, `after` that of the event.
use proto_radar.Prelude.{
  String, ◌==◌, ◌≡◌, Bool, true, false, not, List, [], filter, map, length, if◌then◌else◌,
}
use proto_radar.Domain.Errors.{domain, DomainError}
use proto_radar.Domain.Names.{new_module_name, new_version}
use proto_radar.Domain.Records.{Time, Module}
use proto_radar.Domain.Versions.{ModuleVersion}
use proto_radar.Domain.Dependencies.{ModuleDependency, UnresolvedProtoDependency}
use proto_radar.Domain.Metadata.{DescriptorMetadata}
use proto_radar.Store.Db.{Db, Platform}
use proto_radar.Store.World.{M, ◌>>=◌, ◌>>◌, done, lift, require, within_transaction}
use proto_radar.Store.Triples.{Keeps}
use proto_radar.Store.Modules.{get_module_by_id, get_module_by_name}
use proto_radar.Store.Versions.{get_version_by_id, get_version, list_latest_published}
use proto_radar.Store.Dependencies.{replace_by_consumer_module_version}
use proto_radar.Store.OutboxWriter.{write_event}
use proto_radar.Events.Runtime.{new_module_dependencies_updated, ModuleDependenciesUpdated}
use proto_radar.Graph.Providers.{ProviderFile, ProviderSymbol, ProviderIndex}
use proto_radar.Graph.Resolving.{Consumer, Resolution, resolve_dependencies}

-- The repositories that the service is given for descriptor metadata: what they answer, and that reading
-- changes nothing.
pub record MetadataStore : Type 1 where
  pub get_by_module_version : String → M DescriptorMetadata
  pub list_provider_files : List String → M (List ProviderFile)
  pub list_provider_symbols : List String → M (List ProviderSymbol)
  pub reads_metadata : (db : Db) (id : String) → Keeps (λ x. x ≡ db) (get_by_module_version id)
  pub reads_files : (db : Db) (ids : List String) → Keeps (λ x. x ≡ db) (list_provider_files ids)
  pub reads_symbols :
      (db : Db) (ids : List String) → Keeps (λ x. x ≡ db) (list_provider_symbols ids)

pub record RebuildInput : Type 0 where
  pub module_id : String
  pub module_name : String
  pub module_version_id : String
  pub version : String

pub record RebuildOutput : Type 0 where
  pub updated : Module
  pub version : ModuleVersion
  pub dependencies : List ModuleDependency
  pub unresolved : List UnresolvedProtoDependency

unfoldable pub resolve_module : Platform → RebuildInput → M Module
resolve_module platform input =
    if input.module_id == ""
    then lift (new_module_name input.module_name) >>= get_module_by_name
    else get_module_by_id platform input.module_id

unfoldable pub resolve_module_version : Platform → String → RebuildInput → M ModuleVersion
resolve_module_version platform module_id input =
    if input.module_version_id == ""
    then lift (new_version input.version) >>= get_version platform module_id
    else get_version_by_id platform input.module_version_id >>= λ version.
        require (version.module_id == module_id) (domain DomainError.not_found) >> done version

unfoldable pub provider_ids : String → List ModuleVersion → List String
provider_ids consumer_module_id latest =
    map (λ (v : ModuleVersion). v.id)
      (filter (λ (v : ModuleVersion). not (v.module_id == consumer_module_id)) latest)

unfoldable pub build_provider_index : MetadataStore → String → M ProviderIndex
unfolding provider_ids
build_provider_index store consumer_module_id = do
  latest ← list_latest_published
  files ← store.list_provider_files (provider_ids consumer_module_id latest)
  symbols ← store.list_provider_symbols (provider_ids consumer_module_id latest)
  done (record { files = files; symbols = symbols; self_files = []; self_symbols = [] })

abbrev pub updated_event :
    Consumer
    → List ModuleDependency
    → List UnresolvedProtoDependency
    → Time
    → ModuleDependenciesUpdated
updated_event consumer dependencies unresolved at = record {
  updated = consumer.consumed_by;
  version = consumer.version;
  dependency_count = length dependencies;
  unresolved_dependency_count = length unresolved;
  occurred_at = at;
}

unfoldable pub store_resolved_dependencies :
    Platform → Time → Time → Bool → Consumer → Resolution → M (Unit {0})
store_resolved_dependencies platform wall at in_tx consumer resolution = do
  replace_by_consumer_module_version platform wall in_tx consumer.version.id resolution.dependencies
      resolution.unresolved
  write_event wall (
      new_module_dependencies_updated platform
        (updated_event consumer resolution.dependencies resolution.unresolved at))

abbrev pub consumer_of : Module → ModuleVersion → Time → Consumer
consumer_of m version now = record { consumed_by = m; version = version; now = now }

abbrev pub rebuilt : Module → ModuleVersion → Resolution → RebuildOutput
rebuilt m version resolution = record {
  updated = m;
  version = version;
  dependencies = resolution.dependencies;
  unresolved = resolution.unresolved;
}

-- RebuildModuleVersionDependencies
unfoldable pub rebuild_module_version_dependencies :
    MetadataStore → Platform → Time → Time → Time → RebuildInput → M RebuildOutput
unfolding resolve_module resolve_module_version build_provider_index resolve_dependencies
    store_resolved_dependencies
rebuild_module_version_dependencies store platform wall clock after input = do
  found ← resolve_module platform input
  version ← resolve_module_version platform found.id input
  metadata ← store.get_by_module_version version.id
  index ← build_provider_index store found.id
  resolution ← resolve_dependencies (consumer_of found version clock) metadata index
  within_transaction false λ in_tx.
      store_resolved_dependencies platform wall after in_tx (consumer_of found version clock)
        resolution
  done (rebuilt found version resolution)

-- RebuildPublishedModuleVersionDependencies, which runs in the transaction of its caller.
unfoldable pub rebuild_published_module_version_dependencies :
    MetadataStore
    → Platform
    → Time
    → Time
    → Time
    → Module
    → ModuleVersion
    → DescriptorMetadata
    → M Resolution
unfolding build_provider_index resolve_dependencies store_resolved_dependencies
rebuild_published_module_version_dependencies store platform wall clock after m version metadata =
    do
      index ← build_provider_index store m.id
      resolution ← resolve_dependencies (consumer_of m version clock) metadata index
      store_resolved_dependencies platform wall after true (consumer_of m version clock) resolution
      done resolution
