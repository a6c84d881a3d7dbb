-- ===== src/Store/Versions.antt =====
-- internal/repository/postgres/module_versions.go: the versions of the modules. Rows of one time are in
-- no order for Postgres; here the first one stands first.
use proto_radar.Prelude.{
  ℕ, String, ◌==◌, Bool, ◌&&◌, ◌||◌, Option, none, some, List, [], ◌∷◌, ◌++◌, any, filter, true,
  false, mem_text, find, map, take, drop, leb, if◌then◌else◌,
}
use proto_radar.Prelude.Sort.{sort_by, text_le}
use proto_radar.Domain.Errors.{ok, err, domain, DomainError}
use proto_radar.Domain.Records.{Time}
use proto_radar.Domain.Versions.{ModuleVersion, is_published}
use proto_radar.Store.Db.{Db, Platform, with_uuid, foreign_key}
use proto_radar.Store.World.{M, query, statement}
use proto_radar.Store.Modules.{row_or_not_found}
use proto_radar.Store.Owners.{has_module}

abbrev pub versions_of : String → Db → List ModuleVersion
versions_of id db = filter (λ (row : ModuleVersion). row.module_id == id) db.versions

-- INSERT: the primary key and the unique key, then the reference to the module.
unfoldable pub create_version : Platform → ModuleVersion → M (Unit {0})
create_version platform version = statement λ db. with_uuid platform version.id λ id.
    with_uuid platform version.module_id λ module_id.
      if any
        (λ (row : ModuleVersion).
          row.id == id || (row.module_id == module_id && row.version == version.version))
        db.versions
      then err (domain DomainError.duplicate)
      else if has_module module_id db
      then ok (record db {
        versions = db.versions ++ record version { id = id; module_id = module_id } ∷ [];
      })
      else err foreign_key

-- `UpdateDeprecation`, with ErrNotFound if no row was there.
unfoldable pub update_deprecation : Platform → String → Option Time → String → String → M (Unit {0})
update_deprecation platform id at by reason = statement λ db. with_uuid platform id λ c.
    if any (λ (row : ModuleVersion). row.id == c) db.versions
    then ok (record db {
      versions =
          map
            (λ (row : ModuleVersion).
              if row.id == c
              then record row {
                deprecated_at = at;
                deprecated_by = by;
                deprecation_reason = reason;
              }
              else row)
            db.versions;
    })
    else err (domain DomainError.not_found)

unfoldable pub get_version_by_id : Platform → String → M ModuleVersion
get_version_by_id platform id = query λ db.
    with_uuid platform id
      λ c. row_or_not_found (find (λ (row : ModuleVersion). row.id == c) db.versions)

unfoldable pub find_version : String → String → Db → Option ModuleVersion
find_version module_id version db =
    find (λ (row : ModuleVersion). row.version == version) (versions_of module_id db)

unfoldable pub get_version : Platform → String → String → M ModuleVersion
unfolding find_version
get_version platform module_id version =
    query λ db. with_uuid platform module_id λ c. row_or_not_found (find_version c version db)

-- ORDER BY created_at DESC LIMIT 1
abbrev pub later : ModuleVersion → Option ModuleVersion → ModuleVersion
later v none = v
later v (some l) = if leb l.created_at v.created_at then v else l

unfoldable pub latest_of : List ModuleVersion → Option ModuleVersion
latest_of [] = none
latest_of (v ∷ rest) = some (later v (latest_of rest))

unfoldable pub get_latest_version : Platform → String → M ModuleVersion
unfolding latest_of
get_latest_version platform module_id =
    query λ db. with_uuid platform module_id λ c. row_or_not_found (latest_of (versions_of c db))

abbrev version_le : ModuleVersion → ModuleVersion → Bool
version_le a b = leb b.created_at a.created_at

unfoldable pub list_versions : Platform → String → ℕ → ℕ → M (List ModuleVersion)
list_versions platform module_id limit offset = query λ db.
    with_uuid platform module_id
      λ c. ok (take limit (drop offset (sort_by version_le (versions_of c db))))

-- `ListLatestPublishedModuleVersions` of internal/repository/postgres/dependency_graph.go: DISTINCT ON
-- (module_id) over the published versions, the latest first.
unfoldable pub distinct_on : List String → List ModuleVersion → List ModuleVersion
distinct_on seen [] = []
distinct_on seen (row ∷ rest) = elim (mem_text row.module_id seen) [
  | true ↦ distinct_on seen rest
  | false ↦ row ∷ distinct_on (row.module_id ∷ seen) rest
]

abbrev module_le : ModuleVersion → ModuleVersion → Bool
module_le a b = text_le a.module_id b.module_id

unfoldable pub list_latest_published : M (List ModuleVersion)
unfolding distinct_on
list_latest_published = query λ db.
    let published = filter (λ (row : ModuleVersion). is_published row.status) db.versions in
    ok (distinct_on [] (sort_by module_le (sort_by version_le published)))
