-- ===== src/Governance/OwnerSamples.antt =====
-- The theorems on actors and owners at concrete inputs.
use proto_radar.Prelude.{◌≡◌, ◌⊎◌, refl, true, false, some, none, [], ◌∷◌, trim_space}
use proto_radar.Domain.Errors.{ok, driver, governance, GovernanceError}
use proto_radar.Prelude.Json.{marshal}
use proto_radar.Domain.Ids.{new_module_owner_id}
use proto_radar.Domain.Names.{new_module_name, is_module_name_char}
use proto_radar.Domain.Enums.{
  new_governance_subject_type, new_module_owner_role, new_governance_audit_event_type,
}
use proto_radar.Store.Plain.{plain_platform}
use proto_radar.Store.AuditEvents.{append_audit_event}
use proto_radar.Store.Db.{Platform}
use proto_radar.Store.World.{World, ◌>>=◌, require, lift, call}
use proto_radar.Governance.Actor.{Principal, GovernanceActor, override, resolve_governance_actor}
use proto_radar.Governance.Actor.Resolution.{resolve_governance_actor_cases}
use proto_radar.Governance.Owners.{
  AddModuleOwnerInput, RemoveModuleOwnerInput, add_module_owner, remove_module_owner,
}
use proto_radar.Governance.Owners.Atomic.{add_module_owner_atomic, remove_module_owner_atomic}

abbrev bot : Principal
bot = record { subject = "ci-bot"; display_name = ""; kind = "service" }

abbrev as_alice : GovernanceActor
as_alice = record {
  subject = "alice";
  display_name = "alice";
  source = override;
  principal_type = "service";
  is_override = true;
  original_subject = "ci-bot";
}

resolve_governance_actor_cases_example :
    ((as_alice.subject ≡ trim_space bot.subject) × (as_alice.is_override ≡ false))
    ⊎ ((◌≡◌ true true)
        × (as_alice.subject ≡ trim_space " alice")
        × (as_alice.is_override ≡ true)
        × (as_alice.original_subject ≡ trim_space bot.subject))
unfolding resolve_governance_actor trim_space
resolve_governance_actor_cases_example =
    resolve_governance_actor_cases bot " alice" true as_alice refl

abbrev platform : Platform
platform = plain_platform

-- One module, and a database that fails at its fourth call.
abbrev world : World
world = record {
  db = record {
    modules =
        record {
          id = "m1";
          name = "user-api";
          description = "";
          repository_url = "";
          created_at = 1;
          updated_at = 1;
        }
        ∷ [];
    reports = [];
    owners = [];
    requests = [];
    requirements = [];
    decisions = [];
    audit = [];
    outbox = [];
    versions = [];
    tokens = [];
    services = [];
    deployments = [];
    usages = [];
    dependencies = [];
    unresolved = [];
  };
  faults = none ∷ none ∷ none ∷ some (driver 9) ∷ [];
  random = ok "o1" ∷ ok "a1" ∷ [];
  uuids = "e1" ∷ [];
}

abbrev grant : AddModuleOwnerInput
grant = record {
  module_name = "user-api";
  subject_type = "user";
  subject = "alice";
  role = "owner";
  actor = "root";
}

add_module_owner_atomic_example : (add_module_owner platform grant 9 world).1.db ≡ world.db
unfolding add_module_owner ◌>>=◌ require lift call new_module_name trim_space is_module_name_char
    new_governance_subject_type new_module_owner_role marshal new_module_owner_id
    new_governance_audit_event_type append_audit_event
add_module_owner_atomic_example = add_module_owner_atomic platform grant 9 world (driver 9) refl

abbrev revocation : RemoveModuleOwnerInput
revocation = record { module_name = "user-api"; owner_id = "o9"; actor = "root" }

remove_module_owner_atomic_example :
    (remove_module_owner platform revocation 9 world).1.db ≡ world.db
unfolding remove_module_owner ◌>>=◌ require lift call new_module_name trim_space is_module_name_char
    new_module_owner_id
remove_module_owner_atomic_example =
    remove_module_owner_atomic platform revocation 9 world
      (governance GovernanceError.module_owner_not_found) refl
