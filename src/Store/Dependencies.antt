-- ===== src/Store/Dependencies.antt =====
-- `ModuleDependencyRepository` of internal/repository/postgres/dependency_graph.go: what replaces the
-- dependencies of a consumer. `wall` is what time.Now() says.
pub mod Rows
pub mod Replaced
use proto_radar.Prelude.{
  String, ◌==◌, Bool, not, ◌&&◌, ◌||◌, List, [], ◌∷◌, ◌++◌, any, filter, if◌then◌else◌,
}
use proto_radar.Domain.Errors.{Result, ok, err, driver, domain, DomainError}
use proto_radar.Domain.Records.{Time}
use proto_radar.Domain.Versions.{ModuleVersion}
use proto_radar.Domain.Dependencies.{
  dependency_source_text, ModuleDependency, UnresolvedProtoDependency,
}
use proto_radar.Store.Db.{Db, DependencyRow, UnresolvedRow, Platform, with_uuid, foreign_key}
use proto_radar.Store.World.{M, statement, within_transaction, each, ◌>>=◌, ◌>>◌}
use proto_radar.Store.Owners.{has_module}
use proto_radar.Store.Runtime.{time_or_now}

abbrev has_version : String → Db → Bool
has_version id db = any (λ (row : ModuleVersion). row.id == id) db.versions

-- module_dependencies_unique_edge_idx
abbrev pub same_edge : DependencyRow → DependencyRow → Bool
same_edge a b =
    a.consumer_module_version_id == b.consumer_module_version_id
    && a.provider_module_version_id == b.provider_module_version_id
    && dependency_source_text a.source == dependency_source_text b.source
    && a.import_path == b.import_path
    && a.referenced_symbol == b.referenced_symbol

unfoldable pub dependency_row :
    Time → ModuleDependency → String → String → String → String → String → DependencyRow
unfolding time_or_now
dependency_row wall d id consumer consumer_version provider provider_version = record {
  id = id;
  consumer_module_id = consumer;
  consumer_module_version_id = consumer_version;
  provider_module_id = provider;
  provider_module_version_id = provider_version;
  source = d.source;
  reason = d.reason;
  import_path = d.import_path;
  referenced_package = d.referenced_package;
  referenced_symbol = d.referenced_symbol;
  created_at = time_or_now wall d.created_at;
}

-- The check of the row, its two unique keys, and its references. A check_violation is an error that
-- `mapError` leaves alone.
unfoldable pub insert_dependency_row : DependencyRow → Db → Result Db
insert_dependency_row row db =
    if row.consumer_module_id == row.provider_module_id
    then err (driver 4)
    else if any (λ (other : DependencyRow). other.id == row.id || same_edge other row)
        db.dependencies
    then err (domain DomainError.duplicate)
    else if has_module row.consumer_module_id db
        && has_version row.consumer_module_version_id db
        && has_module row.provider_module_id db
        && has_version row.provider_module_version_id db
    then ok (record db { dependencies = db.dependencies ++ row ∷ [] })
    else err foreign_key

unfoldable pub create_dependency : Platform → Time → ModuleDependency → M (Unit {0})
unfolding dependency_row insert_dependency_row
create_dependency platform wall d = statement λ db. with_uuid platform d.id λ id.
    with_uuid platform d.consumer_module_id λ consumer.
      with_uuid platform d.consumer_module_version_id λ consumer_version.
        with_uuid platform d.provider_module_id λ provider.
          with_uuid platform d.provider_module_version_id λ provider_version.
            insert_dependency_row
              (dependency_row wall d id consumer consumer_version provider provider_version) db

unfoldable pub unresolved_row :
    Time → UnresolvedProtoDependency → String → String → String → UnresolvedRow
unfolding time_or_now
unresolved_row wall d id module_id version_id = record {
  id = id;
  module_id = module_id;
  module_version_id = version_id;
  source = d.source;
  import_path = d.import_path;
  referenced_package = d.referenced_package;
  referenced_symbol = d.referenced_symbol;
  reason = d.reason;
  created_at = time_or_now wall d.created_at;
}

unfoldable pub insert_unresolved_row : UnresolvedRow → Db → Result Db
insert_unresolved_row row db =
    if any (λ (other : UnresolvedRow). other.id == row.id) db.unresolved
    then err (domain DomainError.duplicate)
    else if has_module row.module_id db && has_version row.module_version_id db
    then ok (record db { unresolved = db.unresolved ++ row ∷ [] })
    else err foreign_key

unfoldable pub create_unresolved_dependency :
    Platform → Time → UnresolvedProtoDependency → M (Unit {0})
unfolding unresolved_row insert_unresolved_row
create_unresolved_dependency platform wall d = statement λ db. with_uuid platform d.id λ id.
    with_uuid platform d.module_id λ module_id.
      with_uuid platform d.module_version_id
        λ version_id. insert_unresolved_row (unresolved_row wall d id module_id version_id) db

abbrev pub others_dependencies : String → Db → List DependencyRow
others_dependencies id db =
    filter (λ (row : DependencyRow). not (row.consumer_module_version_id == id)) db.dependencies

abbrev pub others_unresolved : String → Db → List UnresolvedRow
others_unresolved id db =
    filter (λ (row : UnresolvedRow). not (row.module_version_id == id)) db.unresolved

unfoldable pub delete_dependencies : Platform → String → Db → Result Db
delete_dependencies platform id db =
    with_uuid platform id λ c. ok (record db { dependencies = others_dependencies c db })

unfoldable pub delete_unresolved : Platform → String → Db → Result Db
delete_unresolved platform id db =
    with_uuid platform id λ c. ok (record db { unresolved = others_unresolved c db })

unfoldable pub replace_by_consumer_module_version :
    Platform
    → Time
    → Bool
    → String
    → List ModuleDependency
    → List UnresolvedProtoDependency
    → M (Unit {0})
unfolding delete_dependencies delete_unresolved create_dependency create_unresolved_dependency each
replace_by_consumer_module_version platform wall in_tx id dependencies unresolved =
    within_transaction in_tx λ in_tx. do
      statement (delete_dependencies platform id)
      statement (delete_unresolved platform id)
      each (create_dependency platform wall) dependencies
      each (create_unresolved_dependency platform wall) unresolved
