-- ===== src/Store/AuditEvents.antt =====
-- `GovernanceAuditRepository` of internal/repository/postgres/governance.go.
use proto_radar.Prelude.{
  ℕ, String, ◌==◌, Bool, ◌&&◌, ◌||◌, Option, none, some, List, [], ◌∷◌, ◌++◌, any, filter, take,
  drop, ltb, eqb, if◌then◌else◌,
}
use proto_radar.Prelude.Sort.{sort_by, text_le}
use proto_radar.Domain.Errors.{Result, ok, err, domain, DomainError}
use proto_radar.Store.Db.{
  Db, GovernanceAuditEvent, Platform, with_uuid, with_nullable_uuid, foreign_key,
}
use proto_radar.Store.World.{M, query, statement}
use proto_radar.Store.Approvals.{same_report, has_request, has_report, has_target}

abbrev has_optional_request : Option String → Db → Bool
has_optional_request none db = Bool.true
has_optional_request (some id) db = has_request id db

-- INSERT INTO governance_audit_events: the primary key, then the references.
unfoldable pub insert_audit_event : Platform → GovernanceAuditEvent → Db → Result Db
insert_audit_event platform event db = with_uuid platform event.id λ id.
    with_nullable_uuid platform event.module_id λ module_id.
      with_nullable_uuid platform event.approval_request_id λ request_id.
        with_nullable_uuid platform event.breaking_report_id λ report_id.
          if any (λ (row : GovernanceAuditEvent). row.id == id) db.audit
          then err (domain DomainError.duplicate)
          else if has_target module_id db
              && (has_optional_request request_id db && has_report report_id db)
          then ok (record db {
            audit =
                db.audit
                ++ record event {
                  id = id;
                  module_id = module_id;
                  approval_request_id = request_id;
                  breaking_report_id = report_id;
                  payload_json = if event.payload_json == "" then "{}" else event.payload_json;
                }
                  ∷ [];
          })
          else err foreign_key

unfoldable pub append_audit_event : Platform → GovernanceAuditEvent → M (Unit {0})
unfolding insert_audit_event
append_audit_event platform event = statement (insert_audit_event platform event)

-- ORDER BY created_at ASC, id ASC LIMIT $2 OFFSET $3
abbrev audit_le : GovernanceAuditEvent → GovernanceAuditEvent → Bool
audit_le a b = ltb a.created_at b.created_at || (eqb a.created_at b.created_at && text_le a.id b.id)

unfoldable pub list_by_approval_request : Platform → String → ℕ → ℕ → M (List GovernanceAuditEvent)
list_by_approval_request platform request_id limit offset = query λ db.
    with_uuid platform request_id λ c. ok (
      take limit (
        drop offset (
          sort_by audit_le (
            filter (λ (row : GovernanceAuditEvent). same_report row.approval_request_id (some c))
              db.audit))))

unfoldable pub list_by_module : Platform → String → ℕ → ℕ → M (List GovernanceAuditEvent)
list_by_module platform module_id limit offset = query λ db. with_uuid platform module_id λ c. ok (
    take limit (
      drop offset (
        sort_by audit_le
          (filter (λ (row : GovernanceAuditEvent). same_report row.module_id (some c)) db.audit))))
