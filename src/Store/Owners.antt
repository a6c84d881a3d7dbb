-- ===== src/Store/Owners.antt =====
-- `ModuleOwnerRepository` of internal/repository/postgres/governance.go.
use proto_radar.Prelude.{
  String, ◌==◌, Bool, not, ◌&&◌, ◌||◌, List, [], ◌∷◌, ◌++◌, any, filter, find, if◌then◌else◌,
}
use proto_radar.Prelude.Sort.{sort_by, text_le}
use proto_radar.Domain.Errors.{ok, err, domain, DomainError}
use proto_radar.Domain.Enums.{
  GovernanceSubjectType, governance_subject_type_text, subject_type_eq, ModuleOwnerRole,
  module_owner_role_text, role_eq,
}
use proto_radar.Domain.Records.{Module, ModuleOwner}
use proto_radar.Store.Db.{Db, Platform, with_uuid, foreign_key}
use proto_radar.Store.World.{M, query, statement}
use proto_radar.Store.Modules.{row_or_not_found}

-- The unique key of module_owners, without the module.
abbrev pub same_grant : ModuleOwner → ModuleOwner → Bool
same_grant a b =
    subject_type_eq a.subject_type b.subject_type
    && (a.subject == b.subject && role_eq a.role b.role)

abbrev pub has_module : String → Db → Bool
has_module id db = any (λ (row : Module). row.id == id) db.modules

-- INSERT: the primary key and the unique key, then the reference to the module.
unfoldable pub add_owner : Platform → ModuleOwner → M (Unit {0})
add_owner platform owner = statement λ db. with_uuid platform owner.id λ id.
    with_uuid platform owner.module_id λ module_id.
      if any
        (λ (row : ModuleOwner).
          row.id == id || (row.module_id == module_id && same_grant row owner))
        db.owners
      then err (domain DomainError.duplicate)
      else if has_module module_id db
      then ok
          (record db { owners = db.owners ++ record owner { id = id; module_id = module_id } ∷ [] })
      else err foreign_key

-- DELETE, with ErrNotFound if no row was there.
unfoldable pub remove_owner : Platform → String → M (Unit {0})
remove_owner platform id = statement λ db. with_uuid platform id λ c.
    if any (λ (row : ModuleOwner). row.id == c) db.owners
    then ok (record db { owners = filter (λ (row : ModuleOwner). not (row.id == c)) db.owners })
    else err (domain DomainError.not_found)

unfoldable pub get_owner : Platform → String → M ModuleOwner
get_owner platform id = query λ db.
    with_uuid platform id
      λ c. row_or_not_found (find (λ (row : ModuleOwner). row.id == c) db.owners)

-- ORDER BY role, subject_type, subject.
abbrev owner_le : ModuleOwner → ModuleOwner → Bool
owner_le a b =
    let role_a = module_owner_role_text a.role in
    let role_b = module_owner_role_text b.role in
    let type_a = governance_subject_type_text a.subject_type in
    let type_b = governance_subject_type_text b.subject_type in
    if not (role_a == role_b)
    then text_le role_a role_b
    else if not (type_a == type_b)
    then text_le type_a type_b
    else text_le a.subject b.subject

unfoldable pub list_owners : Platform → String → M (List ModuleOwner)
list_owners platform module_id = query λ db.
    with_uuid platform module_id
      λ c. ok (sort_by owner_le (filter (λ (row : ModuleOwner). row.module_id == c) db.owners))

-- Some row of the subject has one of the roles.
unfoldable pub has_role :
    Platform → String → GovernanceSubjectType → String → List ModuleOwnerRole → M Bool
has_role platform module_id subject_type subject roles = query λ db.
    with_uuid platform module_id λ c. ok (
      any
        (λ (row : ModuleOwner).
          row.module_id == c
          && (subject_type_eq row.subject_type subject_type
              && (row.subject == subject && any (role_eq row.role) roles)))
        db.owners)
