-- ===== src/Graph/References.antt =====
-- internal/usecase/dependencygraph/service.go, resolveDependencies: the references of a descriptor set,
-- and what each of them should come to.
use proto_radar.Prelude.{
  String, ◌==◌, ◌≡◌, Bool, true, false, ◌&&◌, Option, none, some, List, [], ◌∷◌, ◌++◌, map, any,
  ◌⊎◌, if◌then◌else◌, trim_space,
}
use proto_radar.Domain.Dependencies.{
  DependencySource, dependency_source_text, DependencyResolutionReason, UnresolvedDependencyReason,
  ModuleDependency, UnresolvedProtoDependency,
}
use proto_radar.Domain.Metadata.{
  ProtoImport, ProtoMethod, ProtoService, ProtoField, ProtoMessage, proto_message, ProtoMessages,
  no_messages, messages_of, ProtoFile,
}
use proto_radar.Graph.Providers.{
  ProviderRef, ProviderIndex, provider_from_file, provider_from_symbol, normalize_symbol,
  package_from_symbol, files_at, symbols_at,
}
use proto_radar.Graph.Resolving.{
  Consumer, Reference, Resolution, import_reference, symbol_reference, ignored_import,
  ignored_symbol, dependency_key, edge_key,
}

abbrev pub concat_map : {A B : Type 0} → (A → List B) → List A → List B
concat_map f [] = []
concat_map f (x ∷ rest) = f x ++ concat_map f rest

abbrev pub import_references : ProtoImport → List Reference
import_references proto_import = import_reference proto_import.path ∷ []

abbrev pub field_references : ProtoField → List Reference
field_references field =
    if trim_space field.type_name == ""
    then []
    else symbol_reference DependencySource.type_reference (normalize_symbol field.type_name) ∷ []

unfoldable mutual
  pub message_references : ProtoMessage → List Reference
  message_references (proto_message name full_name fields messages enums) =
      concat_map field_references fields ++ messages_references messages

  pub messages_references : ProtoMessages → List Reference
  messages_references no_messages = []
  messages_references (messages_of m rest) = message_references m ++ messages_references rest

abbrev pub method_references : ProtoMethod → List Reference
method_references method =
    symbol_reference DependencySource.method_reference (normalize_symbol method.input_type)
    ∷ symbol_reference DependencySource.method_reference (normalize_symbol method.output_type)
    ∷ []

abbrev pub service_references : ProtoService → List Reference
service_references service = concat_map method_references service.methods

unfoldable pub file_references : ProtoFile → List Reference
unfolding messages_references
file_references file =
    (concat_map import_references file.imports ++ messages_references file.messages)
    ++ concat_map service_references file.services

unfoldable pub references : List ProtoFile → List Reference
unfolding file_references
references metadata = concat_map file_references metadata

-- Which references count, which providers they have, and what is said of them.
abbrev pub ignored : ProviderIndex → Reference → Bool
ignored index r = elim r.source [
  | DependencySource.from_import ↦ ignored_import index r.import_path
  | _ ↦ ignored_symbol index r.referenced_symbol
]

abbrev pub matches : ProviderIndex → Reference → List ProviderRef
matches index r = elim r.source [
  | DependencySource.from_import ↦ map provider_from_file (files_at r.import_path index)
  | _ ↦ map provider_from_symbol (symbols_at r.referenced_symbol index)
]

abbrev pub reason_of : Reference → DependencyResolutionReason
reason_of r = elim r.source [
  | DependencySource.from_import ↦ DependencyResolutionReason.by_import_path
  | _ ↦ DependencyResolutionReason.by_symbol
]

abbrev pub package_of : Reference → String
package_of r = elim r.source [
  | DependencySource.from_import ↦ ""
  | _ ↦ package_from_symbol r.referenced_symbol
]

abbrev pub missing_reason : List ProviderRef → Option UnresolvedDependencyReason
missing_reason [] = some UnresolvedDependencyReason.provider_not_found
missing_reason (p ∷ []) = none
missing_reason (p ∷ q ∷ rest) = some UnresolvedDependencyReason.ambiguous_provider

-- The dependency that a reference comes to, column by column, and the entry that it leaves if it comes to
-- none.
pub record IsDependencyOf (consumer : Consumer) (index : ProviderIndex) (d : ModuleDependency)
    (r : Reference) : Type 0 where
  pub considered : ignored index r ≡ false
  pub provider : ProviderRef
  pub only_match : matches index r ≡ provider ∷ []
  pub of_another : (provider.module_id == consumer.consumed_by.id) ≡ false
  pub consumer_module_id : d.consumer_module_id ≡ consumer.consumed_by.id
  pub consumer_module_name : d.consumer_module_name ≡ consumer.consumed_by.name
  pub consumer_module_version_id : d.consumer_module_version_id ≡ consumer.version.id
  pub consumer_version : d.consumer_version ≡ consumer.version.version
  pub provider_module_id : d.provider_module_id ≡ provider.module_id
  pub provider_module_name : d.provider_module_name ≡ provider.module_name
  pub provider_module_version_id : d.provider_module_version_id ≡ provider.module_version_id
  pub provider_version : d.provider_version ≡ provider.version
  pub source : d.source ≡ r.source
  pub reason : d.reason ≡ reason_of r
  pub import_path : d.import_path ≡ r.import_path
  pub referenced_package : d.referenced_package ≡ package_of r
  pub referenced_symbol : d.referenced_symbol ≡ r.referenced_symbol
  pub created_at : d.created_at ≡ consumer.now

pub record IsUnresolvedOf (consumer : Consumer) (index : ProviderIndex)
    (u : UnresolvedProtoDependency) (r : Reference) : Type 0 where
  pub considered : ignored index r ≡ false
  pub missing : missing_reason (matches index r) ≡ some u.reason
  pub module_id : u.module_id ≡ consumer.consumed_by.id
  pub module_name : u.module_name ≡ consumer.consumed_by.name
  pub module_version_id : u.module_version_id ≡ consumer.version.id
  pub version : u.version ≡ consumer.version.version
  pub source : u.source ≡ r.source
  pub import_path : u.import_path ≡ r.import_path
  pub referenced_package : u.referenced_package ≡ package_of r
  pub referenced_symbol : u.referenced_symbol ≡ r.referenced_symbol
  pub created_at : u.created_at ≡ consumer.now

abbrev pub key_of : ModuleDependency → String
key_of d =
    dependency_key d.consumer_module_version_id d.provider_module_version_id d.source d.import_path
      d.referenced_symbol

abbrev pub names : Reference → UnresolvedProtoDependency → Bool
names r u =
    dependency_source_text u.source == dependency_source_text r.source
    && u.import_path == r.import_path
    && u.referenced_symbol == r.referenced_symbol

-- A reference is accounted for: it does not count, it is listed as unresolved, its one provider is the
-- consumer's module, or there is a dependency under its key.
abbrev pub IsCovered : Consumer → ProviderIndex → Resolution → Reference → Type 0
IsCovered consumer index s r =
    (ignored index r ≡ true)
    ⊎ (any (names r) s.unresolved ≡ true)
    ⊎ ((p : ProviderRef) × (matches index r ≡ p ∷ [])
        × (((p.module_id == consumer.consumed_by.id) ≡ true)
            ⊎ (any (λ d. key_of d == edge_key consumer p r) s.dependencies ≡ true)))
