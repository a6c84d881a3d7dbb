-- ===== src/Governance/Owners.antt =====
-- internal/usecase/governance/service.go: who owns a module.
pub mod Atomic
use proto_radar.Prelude.{String, ◌==◌, false, not, List, [], trim_space, if◌then◌else◌}
use proto_radar.Prelude.Json.{word, field, marshal}
use proto_radar.Domain.Errors.{
  Err, domain, governance, DomainError, GovernanceError, is_not_found, is_duplicate, map_err,
}
use proto_radar.Domain.Ids.{new_module_owner_id, new_governance_audit_event_id}
use proto_radar.Domain.Names.{new_module_name}
use proto_radar.Domain.Enums.{
  governance_subject_type_text, new_governance_subject_type, module_owner_role_text,
  new_module_owner_role, GovernanceAuditEventType, governance_audit_event_type_text,
}
use proto_radar.Domain.Records.{Time, ModuleOwner, validate_owner}
use proto_radar.Store.Db.{Platform}
use proto_radar.Store.World.{
  M, ◌>>=◌, ◌>>◌, done, lift, require, map_fault, random_hex, within_transaction,
}
use proto_radar.Store.Modules.{get_module_by_name}
use proto_radar.Store.Owners.{add_owner, remove_owner, get_owner, list_owners}
use proto_radar.Store.OutboxWriter.{write_event}
use proto_radar.Audit.{record_audit}
use proto_radar.Events.{new_module_owner_added, new_module_owner_removed}
use proto_radar.Governance.Actor.{effective_actor_subject}

pub record AddModuleOwnerInput : Type 0 where
  pub module_name : String
  pub subject_type : String
  pub subject : String
  pub role : String
  pub actor : String

pub record RemoveModuleOwnerInput : Type 0 where
  pub module_name : String
  pub owner_id : String
  pub actor : String

-- `return …, ErrX` on any error, and on ErrNotFound only.
abbrev pub always : GovernanceError → Err → Err
always e _ = governance e

abbrev pub when_not_found : GovernanceError → Err → Err
when_not_found e failure = if is_not_found failure then governance e else failure

abbrev pub map_owner_validation_error : Err → Err
map_owner_validation_error (domain DomainError.invalid_governance_subject_type) =
    governance GovernanceError.invalid_subject_type
map_owner_validation_error (domain DomainError.invalid_governance_subject) =
    governance GovernanceError.invalid_subject
map_owner_validation_error (domain DomainError.invalid_module_owner_role) =
    governance GovernanceError.invalid_module_owner_role
map_owner_validation_error e = e

-- The errors of `Add` in the transaction.
abbrev map_add_error : Err → Err
map_add_error e =
    if is_duplicate e
    then governance GovernanceError.module_owner_already_exists
    else map_owner_validation_error e

unfoldable pub append_owner_audit :
    Platform → GovernanceAuditEventType → ModuleOwner → String → Time → M (Unit {0})
unfolding record_audit
append_owner_audit platform event_type owner actor occurred_at = do
  id ← random_hex
  record_audit platform (record {
    id = new_governance_audit_event_id id;
    kind = governance_audit_event_type_text event_type;
    actor = trim_space actor;
    action = governance_audit_event_type_text event_type;
    outcome = "success";
    resource = record { kind = "module"; id = owner.module_id; name = owner.module_name };
    related_resources = [];
    payload = marshal (
        field "owner_id" (word owner.id) (
          field "subject_type" (word (governance_subject_type_text owner.subject_type)) (
            field "subject" (word owner.subject)
              (field "role" (word (module_owner_role_text owner.role)) []))));
    occurred_at = occurred_at;
  })

-- What runs in the transaction of `AddModuleOwner`.
unfoldable pub add_owner_and_announce : Platform → ModuleOwner → String → Time → M (Unit {0})
unfolding append_owner_audit add_owner write_event
add_owner_and_announce platform owner actor now = do
  map_fault map_add_error (add_owner platform owner)
  append_owner_audit platform GovernanceAuditEventType.module_owner_added owner actor now
  write_event now
      (new_module_owner_added platform (record { owner = owner; actor = actor; occurred_at = now }))

unfoldable pub store_owner : Platform → ModuleOwner → String → Time → M (Unit {0})
unfolding add_owner_and_announce within_transaction
store_owner platform owner actor now =
    within_transaction false λ _. add_owner_and_announce platform owner actor now

unfoldable pub add_module_owner : Platform → AddModuleOwnerInput → Time → M ModuleOwner
unfolding require lift store_owner get_module_by_name random_hex validate_owner
    effective_actor_subject
add_module_owner platform input now = do
  module_name ←
      lift
        (map_err (always GovernanceError.invalid_module_name) (new_module_name input.module_name))
  subject_type ← lift (
      map_err (always GovernanceError.invalid_subject_type)
        (new_governance_subject_type input.subject_type))
  let subject = trim_space input.subject
  require (not (subject == "")) (governance GovernanceError.invalid_subject)
  role ← lift (
      map_err (always GovernanceError.invalid_module_owner_role) (new_module_owner_role input.role))
  actor ← lift (effective_actor_subject input.actor)
  row ← map_fault (when_not_found GovernanceError.module_not_found) (get_module_by_name module_name)
  id ← random_hex
  let owner : ModuleOwner = record {
    id = new_module_owner_id id;
    module_id = row.id;
    module_name = row.name;
    subject_type = subject_type;
    subject = subject;
    role = role;
    created_at = now;
    updated_at = now;
  }
  lift (map_err map_owner_validation_error (validate_owner owner))
  store_owner platform owner actor now
  done owner

-- What runs in the transaction of `RemoveModuleOwner`.
unfoldable pub remove_owner_and_announce : Platform → ModuleOwner → String → Time → M (Unit {0})
unfolding append_owner_audit remove_owner write_event
remove_owner_and_announce platform owner actor now = do
  map_fault (when_not_found GovernanceError.module_owner_not_found) (remove_owner platform owner.id)
  append_owner_audit platform GovernanceAuditEventType.module_owner_removed owner actor now
  write_event now (
      new_module_owner_removed platform
        (record { owner = owner; actor = actor; occurred_at = now }))

unfoldable pub drop_owner : Platform → ModuleOwner → String → Time → M (Unit {0})
unfolding remove_owner_and_announce within_transaction
drop_owner platform owner actor now =
    within_transaction false λ _. remove_owner_and_announce platform owner actor now

unfoldable pub remove_module_owner : Platform → RemoveModuleOwnerInput → Time → M (Unit {0})
unfolding require lift drop_owner get_module_by_name get_owner effective_actor_subject
remove_module_owner platform input now = do
  module_name ←
      lift
        (map_err (always GovernanceError.invalid_module_name) (new_module_name input.module_name))
  let owner_id = new_module_owner_id input.owner_id
  require (not (owner_id == "")) (governance GovernanceError.invalid_module_owner_id)
  actor ← lift (effective_actor_subject input.actor)
  row ← map_fault (when_not_found GovernanceError.module_not_found) (get_module_by_name module_name)
  owner ←
      map_fault (when_not_found GovernanceError.module_owner_not_found)
        (get_owner platform owner_id)
  require (owner.module_id == row.id) (governance GovernanceError.module_owner_not_found)
  drop_owner platform (record owner { module_name = row.name; updated_at = now }) actor now

unfoldable pub list_module_owners : Platform → String → M (List ModuleOwner)
unfolding lift get_module_by_name list_owners
list_module_owners platform name = do
  module_name ← lift (map_err (always GovernanceError.invalid_module_name) (new_module_name name))
  row ← map_fault (when_not_found GovernanceError.module_not_found) (get_module_by_name module_name)
  list_owners platform row.id
