-- ===== src/Store/Dependencies/Rows.antt =====
-- The inserts of internal/repository/postgres/dependency_graph.go: the rows that they leave.
use proto_radar.Prelude.{◌==◌, ◌≡◌, refl, false, some, List, [], ◌∷◌, ◌++◌, arith}
use proto_radar.Domain.Errors.{ok}
use proto_radar.Domain.Records.{Time}
use proto_radar.Domain.Dependencies.{ModuleDependency, UnresolvedProtoDependency}
use proto_radar.Store.Db.{Db, DependencyRow, UnresolvedRow, Platform, with_uuid-eq-ok}
use proto_radar.Store.Runtime.{time_or_now}
use proto_radar.Store.Triples.{Holds, holds_imp}
use proto_radar.Store.Triples.Lookups.{statement_at}
use proto_radar.Store.Dependencies.{
  insert_dependency_row, dependency_row, create_dependency, insert_unresolved_row, unresolved_row,
  create_unresolved_dependency,
}

-- The row of a dependency, column by column; it is no edge of a module to itself.
pub record IsRowOf (platform : Platform) (wall : Time) (d : ModuleDependency) (row : DependencyRow)
    : Type 0 where
  pub id : platform.uuid d.id ≡ some row.id
  pub consumer_module_id : platform.uuid d.consumer_module_id ≡ some row.consumer_module_id
  pub consumer_module_version_id :
      platform.uuid d.consumer_module_version_id ≡ some row.consumer_module_version_id
  pub provider_module_id : platform.uuid d.provider_module_id ≡ some row.provider_module_id
  pub provider_module_version_id :
      platform.uuid d.provider_module_version_id ≡ some row.provider_module_version_id
  pub source : row.source ≡ d.source
  pub reason : row.reason ≡ d.reason
  pub import_path : row.import_path ≡ d.import_path
  pub referenced_package : row.referenced_package ≡ d.referenced_package
  pub referenced_symbol : row.referenced_symbol ≡ d.referenced_symbol
  pub created_at : row.created_at ≡ time_or_now wall d.created_at
  pub of_another : (row.consumer_module_id == row.provider_module_id) ≡ false

-- The row of an unresolved entry, column by column.
pub record IsUnresolvedRowOf (platform : Platform) (wall : Time) (d : UnresolvedProtoDependency)
    (row : UnresolvedRow) : Type 0 where
  pub id : platform.uuid d.id ≡ some row.id
  pub module_id : platform.uuid d.module_id ≡ some row.module_id
  pub module_version_id : platform.uuid d.module_version_id ≡ some row.module_version_id
  pub source : row.source ≡ d.source
  pub reason : row.reason ≡ d.reason
  pub import_path : row.import_path ≡ d.import_path
  pub referenced_package : row.referenced_package ≡ d.referenced_package
  pub referenced_symbol : row.referenced_symbol ≡ d.referenced_symbol
  pub created_at : row.created_at ≡ time_or_now wall d.created_at

abbrev pub with_rows : List DependencyRow → Db → Db
with_rows rows db = record db { dependencies = db.dependencies ++ rows }

abbrev pub with_unresolved_rows : List UnresolvedRow → Db → Db
with_unresolved_rows rows db = record db { unresolved = db.unresolved ++ rows }

insert_dependency_row_ok :
    (row : DependencyRow) (db after : Db)
    → insert_dependency_row row db ≡ ok after
    → ((row.consumer_module_id == row.provider_module_id) ≡ false)
      × (after ≡ with_rows (row ∷ []) db)
unfolding insert_dependency_row
insert_dependency_row_ok row db after h = (ground (arith, h), ground (arith, h))

insert_unresolved_row_ok :
    (row : UnresolvedRow) (db after : Db)
    → insert_unresolved_row row db ≡ ok after
    → after ≡ with_unresolved_rows (row ∷ []) db
unfolding insert_unresolved_row
insert_unresolved_row_ok row db after h = ground (arith, h)

module _ (platform : Platform) (wall : Time) where
  pub create_dependency_ok :
      (d : ModuleDependency) (before : Db)
      → Holds
          (λ db. db ≡ before)
          (create_dependency platform wall d)
          (λ _ after.
            (row : DependencyRow) × IsRowOf platform wall d row
            × (after ≡ with_rows (row ∷ []) before))
          (λ _. Unit)
  unfolding create_dependency dependency_row
  create_dependency_ok d before =
      holds_imp (λ db e. e)
        (λ _ after h.
          let (id, id_printed, h1) = with_uuid-eq-ok platform d.id _ after h in
          let (consumer, consumer_printed, h2) =
            with_uuid-eq-ok platform d.consumer_module_id _ after h1 in
          let (version, version_printed, h3) =
            with_uuid-eq-ok platform d.consumer_module_version_id _ after h2 in
          let (provider, provider_printed, h4) =
            with_uuid-eq-ok platform d.provider_module_id _ after h3 in
          let (p, p_printed, h5) =
            with_uuid-eq-ok platform d.provider_module_version_id _ after h4 in
          let (other, is_after) = insert_dependency_row_ok _ before after h5 in
          (
            dependency_row wall d id consumer version provider p,
            record {
              id = id_printed;
              consumer_module_id = consumer_printed;
              consumer_module_version_id = version_printed;
              provider_module_id = provider_printed;
              provider_module_version_id = p_printed;
              source = refl;
              reason = refl;
              import_path = refl;
              referenced_package = refl;
              referenced_symbol = refl;
              created_at = refl;
              of_another = other;
            },
            is_after,
          ))
        (λ db e. e) (statement_at before _)

  pub create_unresolved_ok :
      (d : UnresolvedProtoDependency) (before : Db)
      → Holds
          (λ db. db ≡ before)
          (create_unresolved_dependency platform wall d)
          (λ _ after.
            (row : UnresolvedRow) × IsUnresolvedRowOf platform wall d row
            × (after ≡ with_unresolved_rows (row ∷ []) before))
          (λ _. Unit)
  unfolding create_unresolved_dependency unresolved_row
  create_unresolved_ok d before =
      holds_imp (λ db e. e)
        (λ _ after h.
          let (id, id_printed, h1) = with_uuid-eq-ok platform d.id _ after h in
          let (m, m_printed, h2) = with_uuid-eq-ok platform d.module_id _ after h1 in
          let (version, version_printed, h3) =
            with_uuid-eq-ok platform d.module_version_id _ after h2 in
          (
            unresolved_row wall d id m version,
            record {
              id = id_printed;
              module_id = m_printed;
              module_version_id = version_printed;
              source = refl;
              reason = refl;
              import_path = refl;
              referenced_package = refl;
              referenced_symbol = refl;
              created_at = refl;
            },
            insert_unresolved_row_ok _ before after h3,
          ))
        (λ db e. e) (statement_at before _)
