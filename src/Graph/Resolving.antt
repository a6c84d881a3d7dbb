-- ===== src/Graph/Resolving.antt =====
-- internal/usecase/dependencygraph/service.go, resolveDependencies. The variables that its two closures
-- share are the state that a step takes and leaves; the random source gives the ids.
use Prim.Native.String.{◌++◌ as append}
use proto_radar.Prelude.{
  String, ◌==◌, Bool, ◌||◌, List, [], ◌∷◌, ◌++◌, map, mem_text, if◌then◌else◌, trim_space,
}
use proto_radar.Domain.Records.{Time, Module}
use proto_radar.Domain.Versions.{ModuleVersion}
use proto_radar.Domain.Dependencies.{
  DependencySource, dependency_source_text, DependencyResolutionReason, UnresolvedDependencyReason,
  ModuleDependency, UnresolvedProtoDependency,
}
use proto_radar.Domain.Metadata.{
  ProtoImport, ProtoMethod, ProtoService, ProtoField, ProtoMessage, proto_message, ProtoMessages,
  no_messages, messages_of, ProtoFile,
}
use proto_radar.Store.World.{M, ◌>>=◌, done, random_hex}
use proto_radar.Graph.Providers.{
  ProviderRef, ProviderIndex, provider_from_file, provider_from_symbol, normalize_symbol,
  is_well_known_proto_import, is_well_known_proto_symbol, package_from_symbol, files_at, symbols_at,
  with_self,
}

pub record Resolution : Type 0 where
  pub dependencies : List ModuleDependency
  pub unresolved : List UnresolvedProtoDependency
  pub seen : List String

abbrev pub Step : Type 0
Step = Resolution → M Resolution

-- A loop that stops at the first error.
unfoldable pub for_each : {A : Type 0} → (A → Step) → List A → Step
for_each f [] s = done s
for_each f (x ∷ rest) s = f x s >>= for_each f rest

-- What a reference is resolved for: the consumer and its version.
pub record Consumer : Type 0 where
  pub consumed_by : Module
  pub version : ModuleVersion
  pub now : Time

-- The part of a dependency that its key and its columns have from the reference.
pub record Reference : Type 0 where
  pub source : DependencySource
  pub import_path : String
  pub referenced_symbol : String

unfoldable pub dependency_key : String → String → DependencySource → String → String → String
dependency_key consumer_version_id provider_version_id source import_path referenced_symbol =
    append consumer_version_id (
      append "\0" (
        append provider_version_id (
          append "\0" (
            append (dependency_source_text source)
              (append "\0" (append import_path (append "\0" referenced_symbol)))))))

unfoldable pub dependency_of :
    Consumer
    → ProviderRef
    → DependencyResolutionReason
    → Reference
    → String
    → String
    → ModuleDependency
dependency_of consumer provider reason ref referenced_package id = record {
  id = id;
  consumer_module_id = consumer.consumed_by.id;
  consumer_module_name = consumer.consumed_by.name;
  consumer_module_version_id = consumer.version.id;
  consumer_version = consumer.version.version;
  provider_module_id = provider.module_id;
  provider_module_name = provider.module_name;
  provider_module_version_id = provider.module_version_id;
  provider_version = provider.version;
  source = ref.source;
  reason = reason;
  import_path = ref.import_path;
  referenced_package = referenced_package;
  referenced_symbol = ref.referenced_symbol;
  created_at = consumer.now;
}

unfoldable pub edge_key : Consumer → ProviderRef → Reference → String
unfolding dependency_key
edge_key consumer provider ref =
    dependency_key consumer.version.id provider.module_version_id ref.source ref.import_path
      ref.referenced_symbol

unfoldable pub add_dependency :
    Consumer → ProviderRef → DependencyResolutionReason → Reference → String → Step
unfolding edge_key dependency_of
add_dependency consumer provider reason ref referenced_package s =
    if provider.module_id == consumer.consumed_by.id
    then done s
    else if mem_text (edge_key consumer provider ref) s.seen
    then done s
    else random_hex >>= λ id. done (record {
      dependencies =
          s.dependencies ++ dependency_of consumer provider reason ref referenced_package id ∷ [];
      unresolved = s.unresolved;
      seen = edge_key consumer provider ref ∷ s.seen;
    })

unfoldable pub unresolved_of :
    Consumer → Reference → String → UnresolvedDependencyReason → String → UnresolvedProtoDependency
unresolved_of consumer ref referenced_package reason id = record {
  id = id;
  module_id = consumer.consumed_by.id;
  module_name = consumer.consumed_by.name;
  module_version_id = consumer.version.id;
  version = consumer.version.version;
  source = ref.source;
  import_path = ref.import_path;
  referenced_package = referenced_package;
  referenced_symbol = ref.referenced_symbol;
  reason = reason;
  created_at = consumer.now;
}

unfoldable pub add_unresolved : Consumer → Reference → String → UnresolvedDependencyReason → Step
unfolding unresolved_of
add_unresolved consumer ref referenced_package reason s = random_hex >>= λ id. done (record s {
  unresolved = s.unresolved ++ unresolved_of consumer ref referenced_package reason id ∷ [];
})

-- `switch len(matches)`
unfoldable pub resolve_matches :
    Consumer → List ProviderRef → DependencyResolutionReason → Reference → String → Step
unfolding add_dependency add_unresolved
resolve_matches consumer [] reason ref referenced_package =
    add_unresolved consumer ref referenced_package UnresolvedDependencyReason.provider_not_found
resolve_matches consumer (provider ∷ []) reason ref referenced_package =
    add_dependency consumer provider reason ref referenced_package
resolve_matches consumer (provider ∷ other ∷ more) reason ref referenced_package =
    add_unresolved consumer ref referenced_package UnresolvedDependencyReason.ambiguous_provider

abbrev pub import_reference : String → Reference
import_reference path = record {
  source = DependencySource.from_import;
  import_path = path;
  referenced_symbol = "";
}

abbrev pub symbol_reference : DependencySource → String → Reference
symbol_reference source normalized = record {
  source = source;
  import_path = "";
  referenced_symbol = normalized;
}

abbrev pub ignored_import : ProviderIndex → String → Bool
ignored_import index path = is_well_known_proto_import path || mem_text path index.self_files

abbrev pub ignored_symbol : ProviderIndex → String → Bool
ignored_symbol index normalized =
    normalized == ""
    || is_well_known_proto_symbol normalized
    || mem_text normalized index.self_symbols

unfoldable pub resolve_import : Consumer → ProviderIndex → ProtoImport → Step
unfolding resolve_matches
resolve_import consumer index proto_import s =
    if ignored_import index proto_import.path
    then done s
    else resolve_matches consumer (map provider_from_file (files_at proto_import.path index))
        DependencyResolutionReason.by_import_path (import_reference proto_import.path) "" s

unfoldable pub resolve_symbol_reference :
    Consumer → ProviderIndex → DependencySource → String → Step
unfolding resolve_matches normalize_symbol
resolve_symbol_reference consumer index source symbol s =
    let normalized = normalize_symbol symbol in
    if ignored_symbol index normalized
    then done s
    else resolve_matches consumer (map provider_from_symbol (symbols_at normalized index))
        DependencyResolutionReason.by_symbol (symbol_reference source normalized)
        (package_from_symbol normalized) s

unfoldable pub resolve_field : Consumer → ProviderIndex → ProtoField → Step
unfolding resolve_symbol_reference
resolve_field consumer index field s =
    if trim_space field.type_name == ""
    then done s
    else resolve_symbol_reference consumer index DependencySource.type_reference field.type_name s

unfoldable mutual
  unfolding resolve_field for_each

  pub resolve_message_references : Consumer → ProviderIndex → ProtoMessage → Step
  resolve_message_references consumer index (proto_message name full_name fields messages enums) s =
      for_each (resolve_field consumer index) fields s
      >>= resolve_messages_references consumer index messages

  pub resolve_messages_references : Consumer → ProviderIndex → ProtoMessages → Step
  resolve_messages_references consumer index no_messages s = done s
  resolve_messages_references consumer index (messages_of m rest) s =
      resolve_message_references consumer index m s
      >>= resolve_messages_references consumer index rest

unfoldable pub resolve_method : Consumer → ProviderIndex → ProtoMethod → Step
unfolding resolve_symbol_reference
resolve_method consumer index method s =
    resolve_symbol_reference consumer index DependencySource.method_reference method.input_type s
    >>= resolve_symbol_reference consumer index DependencySource.method_reference method.output_type

unfoldable pub resolve_service : Consumer → ProviderIndex → ProtoService → Step
unfolding resolve_method for_each
resolve_service consumer index service = for_each (resolve_method consumer index) service.methods

unfoldable pub resolve_file : Consumer → ProviderIndex → ProtoFile → Step
unfolding resolve_import resolve_messages_references resolve_service for_each
resolve_file consumer index file s =
    for_each (resolve_import consumer index) file.imports s
    >>= resolve_messages_references consumer index file.messages
    >>= for_each (resolve_service consumer index) file.services

unfoldable pub resolve_dependencies : Consumer → List ProtoFile → ProviderIndex → M Resolution
unfolding resolve_file for_each with_self
resolve_dependencies consumer metadata index =
    for_each (resolve_file consumer (with_self metadata index)) metadata
      (record { dependencies = []; unresolved = []; seen = [] })
