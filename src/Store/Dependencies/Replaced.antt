-- ===== src/Store/Dependencies/Replaced.antt =====
-- `ReplaceByConsumerModuleVersion` of internal/repository/postgres/dependency_graph.go as a whole.
use proto_radar.Prelude.{
  Paired, String, ◌≡◌, ap, ◌∙◌, true, some, List, [], ◌∷◌, ◌++◌, append_nil, append_assoc, arith,
}
use proto_radar.Domain.Records.{Time}
use proto_radar.Domain.Dependencies.{ModuleDependency, UnresolvedProtoDependency}
use proto_radar.Store.Db.{Db, DependencyRow, UnresolvedRow, Platform, with_uuid-eq-ok}
use proto_radar.Store.World.{◌>>◌, each, statement}
use proto_radar.Store.Triples.{Holds, holds_then, holds_imp, holds_joined}
use proto_radar.Store.Triples.Lookups.{holds_some, holds_from, statement_at}
use proto_radar.Store.Triples.Each.{each-AreInserted}
use proto_radar.Store.Dependencies.{
  create_dependency, create_unresolved_dependency, others_dependencies, others_unresolved,
  delete_dependencies, delete_unresolved, replace_by_consumer_module_version,
}
use proto_radar.Store.Dependencies.Rows.{
  with_rows, with_unresolved_rows, IsRowOf, IsUnresolvedRowOf, create_dependency_ok,
  create_unresolved_ok,
}

-- The rows of the consumer were replaced by those of what was resolved; nothing else changed.
pub record IsReplaced (platform : Platform) (wall : Time) (id : String)
    (dependencies : List ModuleDependency) (unresolved : List UnresolvedProtoDependency)
    (before after : Db) : Type 0 where
  pub key : String
  pub printed : platform.uuid id ≡ some key
  pub rows : List DependencyRow
  pub columns : Paired (IsRowOf platform wall) dependencies rows
  pub unresolved_rows : List UnresolvedRow
  pub unresolved_columns : Paired (IsUnresolvedRowOf platform wall) unresolved unresolved_rows
  pub is_after : after ≡ record before {
    dependencies = others_dependencies key before ++ rows;
    unresolved = others_unresolved key before ++ unresolved_rows;
  }

module _ (platform : Platform) (wall : Time) (id : String) (dependencies : List ModuleDependency)
    (unresolved : List UnresolvedProtoDependency) (before : Db) where
  abbrev cleared : String → Db
  cleared key = record before {
    dependencies = others_dependencies key before;
    unresolved = others_unresolved key before;
  }

  abbrev half_cleared : String → Db
  half_cleared key = record before { dependencies = others_dependencies key before }

  dependencies_deleted :
      Holds
        (λ db. db ≡ before)
        (statement (delete_dependencies platform id))
        (λ _ db. (key : String) × (platform.uuid id ≡ some key) × (db ≡ half_cleared key))
        (λ _. Unit)
  unfolding delete_dependencies
  dependencies_deleted =
      holds_imp (λ db e. e)
        (λ _ after h.
          let (key, printed, e) = with_uuid-eq-ok platform id _ after h in
          (key, printed, ground (arith, e)))
        (λ db e. e) (statement_at before _)

  unresolved_deleted :
      (key : String)
      → platform.uuid id ≡ some key
      → Holds
          (λ db. db ≡ half_cleared key)
          (statement (delete_unresolved platform id))
          (λ _ db. db ≡ cleared key)
          (λ _. Unit)
  unfolding delete_unresolved
  unresolved_deleted key printed =
      holds_imp (λ db e. e)
        (λ _ after h.
          let (c, c_printed, e) = with_uuid-eq-ok platform id _ after h in
          ground (arith, e, printed, c_printed))
        (λ db e. e) (statement_at (half_cleared key) _)

  inserted :
      (key : String)
      → platform.uuid id ≡ some key
      → Holds
          (λ db. db ≡ cleared key)
          (each (create_dependency platform wall) dependencies
            >> each (create_unresolved_dependency platform wall) unresolved)
          (λ _. IsReplaced platform wall id dependencies unresolved before)
          (λ _. Unit)
  inserted key printed =
      holds_then
        (each-AreInserted (IsRowOf platform wall) with_rows
          (λ db. ap (λ rows. record db { dependencies = rows }) (append_nil db.dependencies))
          (λ row rows db.
            ap (λ rows. record db { dependencies = rows })
              (append_assoc db.dependencies (row ∷ []) rows))
          (create_dependency platform wall) (create_dependency_ok platform wall) dependencies
          (cleared key))
        (λ _. holds_from (λ between h.
          holds_imp (λ db e. e)
            (λ _ after k. record {
              key = key;
              printed = printed;
              rows = h.rows;
              columns = h.columns;
              unresolved_rows = k.rows;
              unresolved_columns = k.columns;
              is_after = k.is_after ∙ ap (with_unresolved_rows k.rows) h.is_after;
            })
            (λ db e. e)
            (each-AreInserted (IsUnresolvedRowOf platform wall) with_unresolved_rows
              (λ db. ap (λ rows. record db { unresolved = rows }) (append_nil db.unresolved))
              (λ row rows db.
                ap (λ rows. record db { unresolved = rows })
                  (append_assoc db.unresolved (row ∷ []) rows))
              (create_unresolved_dependency platform wall) (create_unresolved_ok platform wall)
              unresolved between)))

  pub replace_by_consumer-IsReplaced :
      Holds
        (λ db. db ≡ before)
        (replace_by_consumer_module_version platform wall true id dependencies unresolved)
        (λ _. IsReplaced platform wall id dependencies unresolved before)
        (λ _. Unit)
  unfolding replace_by_consumer_module_version
  replace_by_consumer-IsReplaced =
      holds_joined
        (λ in_tx.
          statement (delete_dependencies platform id)
          >> (statement (delete_unresolved platform id)
              >> (each (create_dependency platform wall) dependencies
                  >> each (create_unresolved_dependency platform wall) unresolved)))
        (holds_then dependencies_deleted (λ _.
          holds_some (λ key printed.
            holds_then (unresolved_deleted key printed) (λ _. inserted key printed))))
