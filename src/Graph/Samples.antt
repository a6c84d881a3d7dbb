-- ===== src/Graph/Samples.antt =====
-- The theorems on the dependency graph at concrete inputs: a version with one file that imports a file of
-- another module, has a field of its type and one of a type that no module has, and calls a method on it.
use proto_radar.Prelude.Int.{pos}
use proto_radar.Prelude.{
  Among, String, ◌≡◌, ◌≢◌, refl, false, some, none, [], ◌∷◌, length, map, All, Distinct, trim_space,
  strip_prefix, arith,
}
use proto_radar.Domain.Errors.{Result, ok, err, driver}
use proto_radar.Domain.Records.{Module}
use proto_radar.Domain.Versions.{ModuleVersion, ModuleVersionStatus}
use proto_radar.Domain.Metadata.{
  ProtoMethod, ProtoService, ProtoField, ProtoMessage, proto_message, no_messages, messages_of,
  ProtoFile,
}
use proto_radar.Store.Plain.{empty_db, plain_platform}
use proto_radar.Store.Db.{Db, Platform}
use proto_radar.Store.World.{World, done, ◌>>=◌, random_hex, call, require, within_transaction}
use proto_radar.Outbox.Table.{create}
use proto_radar.Store.Modules.{get_module_by_id}
use proto_radar.Store.Versions.{get_version_by_id, list_latest_published}
use proto_radar.Store.Dependencies.{replace_by_consumer_module_version}
use proto_radar.Store.OutboxWriter.{write_event}
use proto_radar.Events.Runtime.{new_module_dependencies_updated}
use proto_radar.Graph.Providers.{
  ProviderFile, ProviderSymbol, ProviderIndex, normalize_symbol, with_self,
  is_well_known_proto_import, is_well_known_proto_symbol, files_at, symbols_at,
}
use proto_radar.Graph.Resolving.{Consumer, Resolution, resolve_dependencies}
use proto_radar.Graph.References.{references, IsDependencyOf, IsUnresolvedOf, key_of}
use proto_radar.Graph.Coverage.{IsPlain, IsAccounted}
use proto_radar.Graph.Resolved.{
  resolve_dependencies_sound, resolve_dependencies_complete, resolve_dependencies-Distinct,
}
use proto_radar.Graph.Completes.{resolve_dependencies_returns}
use proto_radar.Graph.Rebuild.{
  MetadataStore, RebuildInput, RebuildOutput, rebuilt, rebuild_module_version_dependencies,
}
use proto_radar.Graph.Effects.{IsRebuilt, rebuild_effect, rebuild_error, rebuild_once}

abbrev platform : Platform
platform = plain_platform

abbrev registered : String → String → Module
registered id name = record {
  id = id;
  name = name;
  description = "";
  repository_url = "";
  created_at = 1;
  updated_at = 1;
}

abbrev version : String → String → ModuleVersion
version id module_id = record {
  id = id;
  module_id = module_id;
  version = "v1.0.0";
  status = ModuleVersionStatus.published;
  digest = "";
  created_at = 3;
  deprecated_at = none;
  deprecated_by = "";
  deprecation_reason = "";
}

abbrev db : Db
db = record empty_db {
  modules = registered "m1" "orders" ∷ registered "m2" "users" ∷ [];
  versions = version "v1" "m1" ∷ version "v2" "m2" ∷ [];
}

abbrev world : World
world = record {
  db = db;
  faults = [];
  random = ok "d1" ∷ ok "d2" ∷ ok "d3" ∷ ok "d4" ∷ ok "d5" ∷ ok "d6" ∷ [];
  uuids = "e1" ∷ [];
}

abbrev field : String → ProtoField
field type_name = record {
  name = "f";
  number = pos 1;
  kind = "message";
  type_name = type_name;
  label = "";
  json_name = "f";
  oneof_name = "";
  is_repeated = false;
  is_map = false;
}

abbrev order : ProtoMessage
order =
    proto_message "Order" "orders.Order"
      (field ".users.User" ∷ field ".users.User" ∷ field ".nowhere.Thing" ∷ []) no_messages []

abbrev method : ProtoMethod
method = record {
  name = "Get";
  input_type = ".orders.Order";
  output_type = ".users.User";
  client_streaming = false;
  server_streaming = false;
}

abbrev service : ProtoService
service = record { name = "Orders"; full_name = "orders.Orders"; methods = method ∷ [] }

abbrev file : ProtoFile
file = record {
  path = "orders.proto";
  package_name = "orders";
  syntax = "proto3";
  imports = record { path = "users.proto"; is_public = false; weak = false } ∷ [];
  services = service ∷ [];
  messages = messages_of order no_messages;
  enums = [];
}

abbrev users_file : ProviderFile
users_file = record {
  path = "users.proto";
  module_id = "m2";
  module_name = "users";
  module_version_id = "v2";
  version = "v1.0.0";
}

abbrev user : ProviderSymbol
user = record {
  full_name = "users.User";
  package_name = "users";
  module_id = "m2";
  module_name = "users";
  module_version_id = "v2";
  version = "v1.0.0";
}

abbrev index : ProviderIndex
index = record { files = users_file ∷ []; symbols = user ∷ []; self_files = []; self_symbols = [] }

abbrev consumer : Consumer
consumer = record { consumed_by = registered "m1" "orders"; version = version "v1" "m1"; now = 5 }

abbrev resolution_of : Result Resolution → Resolution
resolution_of (ok t) = t
resolution_of (err e) = record { dependencies = []; unresolved = []; seen = [] }

abbrev result : Resolution
result = resolution_of (resolve_dependencies consumer (file ∷ []) index world).0

-- The run of the resolution ends with three dependencies and one unresolved entry.
counts :
    ((resolve_dependencies consumer (file ∷ []) index world).0 ≡ ok result)
    × (length result.dependencies ≡ 3)
    × (length result.unresolved ≡ 1)
unfolding resolve_dependencies trim_space strip_prefix normalize_symbol ◌>>=◌
    is_well_known_proto_import files_at random_hex is_well_known_proto_symbol symbols_at
counts = (refl, refl, refl)

resolve_dependencies_sound_example :
    All
      (λ d.
        Among (IsDependencyOf consumer (with_self (file ∷ []) index) d) (references (file ∷ [])))
      result.dependencies
    × All
        (λ u.
          Among (IsUnresolvedOf consumer (with_self (file ∷ []) index) u) (references (file ∷ [])))
        result.unresolved
resolve_dependencies_sound_example =
    resolve_dependencies_sound consumer (file ∷ []) index world result counts.0

plain : All (IsPlain (with_self (file ∷ []) index)) (references (file ∷ []))
unfolding references trim_space normalize_symbol strip_prefix with_self files_at symbols_at
plain = (
  (refl, refl),
  ((refl, refl), ((refl, refl), ((refl, refl), ((refl, refl), ((refl, refl), tt))))),
)

resolve_dependencies_complete_example :
    All (IsAccounted consumer (with_self (file ∷ []) index) result) (references (file ∷ []))
resolve_dependencies_complete_example =
    resolve_dependencies_complete consumer (file ∷ []) index world result plain counts.0

resolve_dependencies-Distinct_example : Distinct (map key_of result.dependencies)
resolve_dependencies-Distinct_example =
    resolve_dependencies-Distinct consumer (file ∷ []) index world result counts.0

resolve_dependencies_returns_example :
    (t : Resolution) × ((resolve_dependencies consumer (file ∷ []) index world).0 ≡ ok t)
unfolding references trim_space normalize_symbol strip_prefix
resolve_dependencies_returns_example =
    resolve_dependencies_returns consumer (file ∷ []) index world (omega arith)

-- The metadata that the repositories answer with, whatever they are asked.
abbrev store : MetadataStore
store = record {
  get_by_module_version = λ id. done (file ∷ []);
  list_provider_files = λ ids. done (users_file ∷ []);
  list_provider_symbols = λ ids. done (user ∷ []);
  reads_metadata = λ before id. record { runs = λ w e. e };
  reads_files = λ before ids. record { runs = λ w e. e };
  reads_symbols = λ before ids. record { runs = λ w e. e };
}

abbrev input : RebuildInput
input = record { module_id = "m1"; module_name = ""; module_version_id = "v1"; version = "" }

abbrev output : RebuildOutput
output = rebuilt (registered "m1" "orders") (version "v1" "m1") result

rebuild_effect_example :
    IsRebuilt platform 7 5 6 db output
      (rebuild_module_version_dependencies store platform 7 5 6 input world).1.db
unfolding rebuild_module_version_dependencies resolve_dependencies trim_space strip_prefix ◌>>=◌
    get_module_by_id call get_version_by_id require list_latest_published is_well_known_proto_import
    files_at random_hex is_well_known_proto_symbol symbols_at within_transaction
    replace_by_consumer_module_version write_event create
rebuild_effect_example = rebuild_effect store platform 7 5 6 input world output refl

-- The second insert meets a fault.
abbrev broken : World
broken = record world {
  faults = none ∷ none ∷ none ∷ none ∷ none ∷ none ∷ none ∷ some (driver 1) ∷ [];
}

rebuild_error_example :
    (rebuild_module_version_dependencies store platform 7 5 6 input broken).1.db ≡ db
unfolding rebuild_module_version_dependencies resolve_dependencies trim_space strip_prefix ◌>>=◌
    get_module_by_id call get_version_by_id require list_latest_published is_well_known_proto_import
    files_at random_hex is_well_known_proto_symbol symbols_at within_transaction
    replace_by_consumer_module_version write_event create
rebuild_error_example = rebuild_error store platform 7 5 6 input broken (driver 1) refl

-- The world after the rebuild, with new ids to give.
abbrev again : World
again = record (rebuild_module_version_dependencies store platform 7 5 6 input world).1 {
  random = world.random;
  uuids = "e2" ∷ [];
}

rebuild_once_example :
    (rebuild_module_version_dependencies store platform 9 9 9 input again).0 ≢ ok output
unfolding rebuild_module_version_dependencies resolve_dependencies trim_space strip_prefix ◌>>=◌
    get_module_by_id call get_version_by_id require list_latest_published is_well_known_proto_import
    files_at random_hex is_well_known_proto_symbol symbols_at within_transaction
    replace_by_consumer_module_version write_event create new_module_dependencies_updated
rebuild_once_example = rebuild_once store platform 9 9 9 input again output refl
