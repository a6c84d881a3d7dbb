-- ===== src/Audit.antt =====
-- internal/audit/audit.go: the audit sink that stores events in governance_audit_events.
use proto_radar.Prelude.{
  ℕ, ◌*◌, String, len, ◌==◌, Option, none, some, List, [], ◌∷◌, ltb, if◌then◌else◌, not,
}
use proto_radar.Domain.Errors.{Result, ok, err, payload_too_large}
use proto_radar.Domain.Records.{Time}
use proto_radar.Domain.Ids.{
  new_module_id, new_approval_request_id, new_breaking_report_id, new_governance_audit_event_id,
}
use proto_radar.Domain.Names.{new_module_name}
use proto_radar.Domain.Enums.{GovernanceAuditEventType, new_governance_audit_event_type}
use proto_radar.Store.Db.{GovernanceAuditEvent, Platform}
use proto_radar.Store.World.{M, lift, require, ◌>>=◌, ◌>>◌}
use proto_radar.Store.AuditEvents.{append_audit_event}

abbrev pub max_payload_bytes : ℕ
max_payload_bytes = 16 * 1024

pub record AuditResource : Type 0 where
  pub kind : String
  pub id : String
  pub name : String

pub record AuditEvent : Type 0 where
  pub id : String
  pub kind : String
  pub actor : String
  pub action : String
  pub outcome : String
  pub resource : AuditResource
  pub related_resources : List AuditResource
  pub payload : String
  pub occurred_at : Time

-- `if resource.ID != "" { … = &id }`
abbrev set_id : (String → String) → String → Option String → Option String
set_id new id old = if id == "" then old else some (new id)

accepted_name : Result String → String → String
accepted_name (ok name) old = name
accepted_name (err e) old = old

unfoldable pub apply_resource : GovernanceAuditEvent → AuditResource → GovernanceAuditEvent
unfolding accepted_name
apply_resource stored resource =
    if resource.kind == "module"
    then record stored {
      module_id = set_id new_module_id resource.id stored.module_id;
      module_name =
          if resource.name == ""
          then stored.module_name
          else accepted_name (new_module_name resource.name) stored.module_name;
    }
    else if resource.kind == "approval_request"
    then record stored {
      approval_request_id = set_id new_approval_request_id resource.id stored.approval_request_id;
    }
    else if resource.kind == "breaking_report"
    then record stored {
      breaking_report_id = set_id new_breaking_report_id resource.id stored.breaking_report_id;
    }
    else stored

unfoldable pub apply_resources : GovernanceAuditEvent → List AuditResource → GovernanceAuditEvent
unfolding apply_resource
apply_resources stored [] = stored
apply_resources stored (resource ∷ rest) = apply_resources (apply_resource stored resource) rest

-- The event before its resources are applied.
unfoldable pub stored_event : AuditEvent → GovernanceAuditEventType → GovernanceAuditEvent
stored_event event event_type = record {
  id = new_governance_audit_event_id event.id;
  event_type = event_type;
  actor = event.actor;
  module_id = none;
  module_name = "";
  approval_request_id = none;
  breaking_report_id = none;
  payload_json = if event.payload == "" then "{}" else event.payload;
  created_at = event.occurred_at;
}

unfoldable pub record_audit : Platform → AuditEvent → M (Unit {0})
unfolding require lift stored_event apply_resources
record_audit platform event = do
  require (not (ltb max_payload_bytes (len event.payload))) payload_too_large
  event_type ← lift (new_governance_audit_event_type event.kind)
  append_audit_event platform
      (apply_resources (stored_event event event_type) (event.resource ∷ event.related_resources))
