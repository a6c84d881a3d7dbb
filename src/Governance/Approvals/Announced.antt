-- ===== src/Governance/Approvals/Announced.antt =====
-- Audit and outbox events leave the approval tables alone.
use proto_radar.Prelude.{
  String, ◌≡◌, Bool, true, false, List, ◌∷◌, arith, if◌then◌else◌, trim_space,
}
use proto_radar.Outbox.Table.{create}
use proto_radar.Domain.Errors.{◌>>=◌, ok, payload_too_large}
use proto_radar.Domain.Enums.{
  ApprovalRequestStatus, GovernanceAuditEventType, approval_decision_recorded,
  approval_request_status_changed, new_governance_audit_event_type,
}
use proto_radar.Domain.Records.{Time, ApprovalRequest, ApprovalRequirement, ApprovalDecision}
use proto_radar.Outbox.Record.{Event}
use proto_radar.Store.Db.{Db, RequestRow, GovernanceAuditEvent, Platform}
use proto_radar.Store.AuditEvents.{insert_audit_event, append_audit_event}
use proto_radar.Store.OutboxWriter.{write_event}
use proto_radar.Store.Triples.{
  Keeps, holds_then, holds_random_hex, holds_random_uuid, Keeps-done, Keeps-lift, Keeps-require,
  Keeps-statement,
}
use proto_radar.Audit.{AuditEvent, stored_event, apply_resources, record_audit}
use proto_radar.Governance.Approvals.Prepare.{Prepared}
use proto_radar.Governance.Approvals.Commit.{
  decision_payload, status_changed_payload, approval_audit_event, append_approval_audit,
  append_decision_audit, append_status_changed_audit, announce_decision, new_request_status,
}

-- What can be said of the approval tables.
abbrev pub Assertion : Type 1
Assertion = List RequestRow → List ApprovalRequirement → List ApprovalDecision → Type 0

abbrev pub OfDb : Assertion → Db → Type 0
OfDb R db = R db.requests db.requirements db.decisions

insert_audit_event_frame :
    (platform : Platform) (event : GovernanceAuditEvent) (db after : Db)
    → insert_audit_event platform event db ≡ ok after
    → (after.requests ≡ db.requests)
      × (after.requirements ≡ db.requirements)
      × (after.decisions ≡ db.decisions)
unfolding insert_audit_event
insert_audit_event_frame platform event db after h = ground arith

event_frame :
    (id : String) (now : Time) (event : Event) (db after : Db)
    → (create id now event db.outbox >>= λ outbox. ok (record db { outbox = outbox })) ≡ ok after
    → (after.requests ≡ db.requests)
      × (after.requirements ≡ db.requirements)
      × (after.decisions ≡ db.decisions)
event_frame id now event db after h = ground arith

module _ (R : Assertion) where
  pub write_event-Keeps : (now : Time) (event : Event) → Keeps (OfDb R) (write_event now event)
  unfolding write_event
  write_event-Keeps now event = holds_then holds_random_uuid (λ id.
      Keeps-statement _
        (λ db after e p. let f = event_frame id now event db after e in rw (f.0, f.1, f.2) p))

  append_audit_event-Keeps :
      (platform : Platform) (event : GovernanceAuditEvent)
      → Keeps (OfDb R) (append_audit_event platform event)
  unfolding append_audit_event
  append_audit_event-Keeps platform event = Keeps-statement _ (λ db after e p.
      let f = insert_audit_event_frame platform event db after e in rw (f.0, f.1, f.2) p)

  pub record_audit-Keeps :
      (platform : Platform) (event : AuditEvent) → Keeps (OfDb R) (record_audit platform event)
  unfolding record_audit
  record_audit-Keeps platform event = holds_then (Keeps-require _ payload_too_large) (λ _.
      holds_then (Keeps-lift (new_governance_audit_event_type event.kind)) (λ kind.
        append_audit_event-Keeps platform
          (apply_resources (stored_event event kind) (event.resource ∷ event.related_resources))))

  pub append_approval_audit-Keeps :
      (platform : Platform) (kind : GovernanceAuditEventType) (request : ApprovalRequest)
      (actor payload : String) (now : Time)
      → Keeps (OfDb R) (append_approval_audit platform kind request actor payload now)
  unfolding append_approval_audit
  append_approval_audit-Keeps platform kind request actor payload now =
      holds_then holds_random_hex
        (λ id. record_audit-Keeps platform (approval_audit_event kind request actor payload now id))

  status_audit-Keeps :
      (platform : Platform) (p : Prepared) (status : ApprovalRequestStatus) (now : Time)
      (same : Bool)
      → Keeps
          (OfDb R)
          (if same then (λ w. (ok tt, w)) else append_status_changed_audit platform p status now)
  unfolding append_status_changed_audit
  status_audit-Keeps platform p status now true = Keeps-done tt
  status_audit-Keeps platform p status now false =
      append_approval_audit-Keeps platform approval_request_status_changed p.request
        (trim_space p.decision.decided_by) (status_changed_payload p.request.status status) now

  pub announce_decision-Keeps :
      (platform : Platform) (p : Prepared) (now : Time)
      → Keeps (OfDb R) (announce_decision platform p now)
  unfolding announce_decision append_decision_audit
  announce_decision-Keeps platform p now =
      holds_then
        (append_approval_audit-Keeps platform approval_decision_recorded p.request
          (trim_space p.decision.decided_by) (decision_payload p.decision) now)
        (λ _.
          holds_then (status_audit-Keeps platform p (new_request_status p) now _)
            (λ _. write_event-Keeps now _))
