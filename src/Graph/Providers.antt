-- ===== src/Graph/Providers.antt =====
-- internal/usecase/dependencygraph/service.go: symbols and the index of providers; and
-- internal/usecase/registry/dependencies.go. A map from texts to lists is the list of all its entries, a
-- set of texts the list of its members.
use Prim.Native.Char.{code}
use proto_radar.Prelude.{
  String, ◌==◌, ◌≡◌, refl, Bool, true, false, Option, none, some, List, [], ◌∷◌, ◌++◌, map, filter,
  eqb, if◌then◌else◌, trim_space, strip_prefix,
}
use proto_radar.Domain.Metadata.{
  ProtoService, ProtoEnum, ProtoMessage, proto_message, ProtoMessages, no_messages, messages_of,
  ProtoFile,
}

pub record ProviderFile : Type 0 where
  pub path : String
  pub module_id : String
  pub module_name : String
  pub module_version_id : String
  pub version : String

pub record ProviderSymbol : Type 0 where
  pub full_name : String
  pub package_name : String
  pub module_id : String
  pub module_name : String
  pub module_version_id : String
  pub version : String

pub record ProviderRef : Type 0 where
  pub module_id : String
  pub module_name : String
  pub module_version_id : String
  pub version : String

abbrev pub provider_from_file : ProviderFile → ProviderRef
provider_from_file file = record {
  module_id = file.module_id;
  module_name = file.module_name;
  module_version_id = file.module_version_id;
  version = file.version;
}

abbrev pub provider_from_symbol : ProviderSymbol → ProviderRef
provider_from_symbol symbol = record {
  module_id = symbol.module_id;
  module_name = symbol.module_name;
  module_version_id = symbol.module_version_id;
  version = symbol.version;
}

abbrev pub has_prefix : String → String → Bool
has_prefix s prefix = elim (strip_prefix prefix s) [ none ↦ false | some rest ↦ true ]

-- strings.TrimPrefix
abbrev trim_prefix : String → String → String
trim_prefix s prefix = elim (strip_prefix prefix s) [ none ↦ s | some rest ↦ rest ]

unfoldable pub normalize_symbol : String → String
normalize_symbol symbol = trim_prefix (trim_space symbol) "."

unfoldable pub is_well_known_proto_import : String → Bool
is_well_known_proto_import path = has_prefix (trim_space path) "google/protobuf/"

unfoldable pub is_well_known_proto_symbol : String → Bool
is_well_known_proto_symbol symbol =
    has_prefix (trim_prefix (trim_space symbol) ".") "google.protobuf."

-- What stands before the last dot, if there is one.
unfoldable pub before_last_dot : String → Option String
before_last_dot String.[] = none
before_last_dot (String.◌∷◌ c s) = elim (before_last_dot s) [
  | some before ↦ some (String.◌∷◌ c before)
  | none ↦ if eqb (code c) 46 then some "" else none
]

unfoldable pub package_from_symbol : String → String
unfolding before_last_dot normalize_symbol
package_from_symbol symbol = elim (before_last_dot (normalize_symbol symbol)) [
  | none ↦ ""
  | some before ↦ before
]

abbrev enum_names : List ProtoEnum → List String
enum_names enums = map (λ (e : ProtoEnum). normalize_symbol e.full_name) enums

-- The names of a message and of all that it holds.
unfoldable mutual
  unfolding normalize_symbol

  pub add_message_symbols : ProtoMessage → List String
  add_message_symbols (proto_message name full_name fields messages enums) =
      normalize_symbol full_name ∷ add_messages_symbols messages ++ enum_names enums

  pub add_messages_symbols : ProtoMessages → List String
  add_messages_symbols no_messages = []
  add_messages_symbols (messages_of m rest) = add_message_symbols m ++ add_messages_symbols rest

unfoldable pub self_symbols : List ProtoFile → List String
unfolding add_messages_symbols normalize_symbol
self_symbols [] = []
self_symbols (file ∷ rest) =
    map (λ (s : ProtoService). normalize_symbol s.full_name) file.services
    ++ (add_messages_symbols file.messages ++ (enum_names file.enums ++ self_symbols rest))

pub record ProviderIndex : Type 0 where
  pub files : List ProviderFile
  pub symbols : List ProviderSymbol
  pub self_files : List String
  pub self_symbols : List String

unfoldable pub files_at : String → ProviderIndex → List ProviderFile
files_at path index = filter (λ (f : ProviderFile). f.path == path) index.files

unfoldable pub symbols_at : String → ProviderIndex → List ProviderSymbol
unfolding normalize_symbol
symbols_at symbol index =
    filter (λ (s : ProviderSymbol). normalize_symbol s.full_name == symbol) index.symbols

-- The first loop over the files of the metadata.
unfoldable pub with_self : List ProtoFile → ProviderIndex → ProviderIndex
unfolding self_symbols
with_self metadata index = record index {
  self_files = map (λ (f : ProtoFile). f.path) metadata;
  self_symbols = self_symbols metadata;
}

package_of_nested : package_from_symbol ".acme.users.v1.User" ≡ "acme.users.v1"
unfolding package_from_symbol trim_space strip_prefix
package_of_nested = refl

no_package : package_from_symbol ".User" ≡ ""
unfolding package_from_symbol trim_space strip_prefix
no_package = refl
