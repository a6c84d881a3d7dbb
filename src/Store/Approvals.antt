-- ===== src/Store/Approvals.antt =====
-- `ApprovalRepository` of internal/repository/postgres/governance.go.
use proto_radar.Prelude.{
  ℕ, String, ◌==◌, Bool, true, false, ◌&&◌, ◌||◌, Option, none, some, List, [], ◌∷◌, ◌++◌, any,
  filter, find, map, take, drop, ltb, eqb, leb, if◌then◌else◌,
}
use proto_radar.Prelude.Sort.{sort_by, text_le}
use proto_radar.Domain.Errors.{Result, ok, err, domain, DomainError}
use proto_radar.Domain.Errors
use proto_radar.Domain.Enums.{ApprovalRequestStatus, ApprovalRequirementStatus}
use proto_radar.Domain.Records.{
  Time, Module, BreakingReport, ApprovalRequest, ApprovalRequirement, ApprovalDecision,
}
use proto_radar.Store.Db.{Db, RequestRow, Platform, with_uuid, with_nullable_uuid, foreign_key}
use proto_radar.Store.World.{M, query, statement, within_transaction, done, ◌>>=◌, ◌>>◌}
use proto_radar.Store.Modules.{row_or_not_found, module_with_id}
use proto_radar.Store.Owners.{has_module}

abbrev pub same_report : Option String → Option String → Bool
same_report (some a) (some b) = a == b
same_report _ _ = false

abbrev pub has_request : String → Db → Bool
has_request id db = any (λ (row : RequestRow). row.id == id) db.requests

abbrev pub has_report : Option String → Db → Bool
has_report none db = true
has_report (some id) db = any (λ (row : BreakingReport). row.id == id) db.reports

abbrev pub has_target : Option String → Db → Bool
has_target none db = true
has_target (some id) db = has_module id db

unfoldable pub request_row : ApprovalRequest → String → String → Option String → RequestRow
request_row request id module_id report_id = record {
  id = id;
  module_id = module_id;
  breaking_report_id = report_id;
  target_ref = request.target_ref;
  status = request.status;
  required_approvals = request.required_approvals;
  received_approvals = request.received_approvals;
  created_at = request.created_at;
  updated_at = request.updated_at;
}

-- INSERT INTO approval_requests: the primary key and approval_requests_breaking_report_unique_idx, then
-- the references.
unfoldable pub insert_request : Platform → ApprovalRequest → Db → Result Db
unfolding request_row
insert_request platform request db = with_uuid platform request.id λ id.
    with_uuid platform request.module_id λ module_id.
      with_nullable_uuid platform request.breaking_report_id λ report_id.
        if has_request id db
          || any (λ (row : RequestRow). same_report row.breaking_report_id report_id) db.requests
        then err (domain DomainError.duplicate)
        else if has_module module_id db && has_report report_id db
        then ok (record db {
          requests = db.requests ++ request_row request id module_id report_id ∷ [];
        })
        else err foreign_key

-- INSERT INTO approval_requirements: the primary key, then the references.
unfoldable pub insert_requirement : Platform → ApprovalRequirement → String → Db → Result Db
insert_requirement platform requirement request_id db = with_uuid platform requirement.id λ id.
    with_uuid platform request_id λ request_id.
      with_nullable_uuid platform requirement.target_module_id λ target.
        if any (λ (row : ApprovalRequirement). row.id == id) db.requirements
        then err (domain DomainError.duplicate)
        else if has_request request_id db && has_target target db
        then ok (record db {
          requirements =
              db.requirements
              ++ record requirement {
                id = id;
                approval_request_id = request_id;
                target_module_id = target;
              }
                ∷ [];
        })
        else err foreign_key

unfoldable pub create_requirement : Platform → String → ApprovalRequirement → M (Unit {0})
unfolding insert_requirement
create_requirement platform request_id requirement = statement (
    insert_requirement platform requirement (
      if requirement.approval_request_id == ""
      then request_id
      else requirement.approval_request_id))

unfoldable pub create_requirements : Platform → String → List ApprovalRequirement → M (Unit {0})
unfolding create_requirement
create_requirements platform request_id [] = done tt
create_requirements platform request_id (requirement ∷ rest) = do
  create_requirement platform request_id requirement
  create_requirements platform request_id rest

unfoldable pub create_request : Platform → Bool → ApprovalRequest → M (Unit {0})
unfolding insert_request create_requirements within_transaction
create_request platform in_tx request = within_transaction in_tx λ in_tx. do
  statement (insert_request platform request)
  create_requirements platform request.id request.requirements

-- The columns of a request joined with the name of its module.
unfoldable pub scan_request : RequestRow → Module → ApprovalRequest
scan_request row module_row = record {
  id = row.id;
  module_id = row.module_id;
  module_name = module_row.name;
  breaking_report_id = row.breaking_report_id;
  target_ref = row.target_ref;
  status = row.status;
  required_approvals = row.required_approvals;
  received_approvals = row.received_approvals;
  requirements = [];
  decisions = [];
  created_at = row.created_at;
  updated_at = row.updated_at;
}

-- JOIN modules m ON m.id = ar.module_id, for one row.
unfoldable pub join_module : Db → Option RequestRow → Result ApprovalRequest
unfolding module_with_id scan_request
join_module db none = err (domain DomainError.not_found)
join_module db (some row) =
    Errors.◌>>=◌ (row_or_not_found (module_with_id row.module_id db)) λ m. ok (scan_request row m)

abbrev pub request_with_id : String → Db → Option RequestRow
request_with_id id db = find (λ (row : RequestRow). row.id == id) db.requests

-- ORDER BY created_at ASC, id ASC
abbrev pub requirement_le : ApprovalRequirement → ApprovalRequirement → Bool
requirement_le a b =
    ltb a.created_at b.created_at || (eqb a.created_at b.created_at && text_le a.id b.id)

abbrev pub decision_le : ApprovalDecision → ApprovalDecision → Bool
decision_le a b =
    ltb a.created_at b.created_at || (eqb a.created_at b.created_at && text_le a.id b.id)

abbrev pub requirements_of : String → List ApprovalRequirement → List ApprovalRequirement
requirements_of id = filter λ row. row.approval_request_id == id

abbrev pub decisions_of : String → List ApprovalDecision → List ApprovalDecision
decisions_of id = filter λ row. row.approval_request_id == id

unfoldable pub list_requirements : Platform → String → M (List ApprovalRequirement)
list_requirements platform id =
    query λ db.
      with_uuid platform id λ c. ok (sort_by requirement_le (requirements_of c db.requirements))

unfoldable pub list_decisions : Platform → String → M (List ApprovalDecision)
list_decisions platform id =
    query λ db. with_uuid platform id λ c. ok (sort_by decision_le (decisions_of c db.decisions))

unfoldable pub populate_request : Platform → ApprovalRequest → M ApprovalRequest
unfolding list_requirements list_decisions
populate_request platform request = do
  requirements ← list_requirements platform request.id
  decisions ← list_decisions platform request.id
  done (record request { requirements = requirements; decisions = decisions })

unfoldable pub get_request_by_id : Platform → String → M ApprovalRequest
unfolding join_module populate_request
get_request_by_id platform id = do
  request ← query λ db. with_uuid platform id λ c. join_module db (request_with_id c db)
  populate_request platform request

-- At most one row has the report, by approval_requests_breaking_report_unique_idx.
unfoldable pub get_request_by_breaking_report_id : Platform → String → M ApprovalRequest
unfolding join_module populate_request
get_request_by_breaking_report_id platform report_id = do
  request ← query λ db. with_uuid platform report_id λ c.
      join_module db
        (find (λ (row : RequestRow). same_report row.breaking_report_id (some c)) db.requests)
  populate_request platform request

-- JOIN approval_requirements req ON req.approval_request_id = ar.id WHERE req.id = $1
unfoldable pub request_of_requirement : String → Db → Option RequestRow
request_of_requirement id db =
    elim (find (λ (row : ApprovalRequirement). row.id == id) db.requirements) [
      | none ↦ none
      | some requirement ↦ request_with_id requirement.approval_request_id db
    ]

unfoldable pub get_request_by_requirement_id : Platform → String → M ApprovalRequest
unfolding join_module populate_request request_of_requirement
get_request_by_requirement_id platform id = do
  request ← query λ db. with_uuid platform id λ c. join_module db (request_of_requirement c db)
  populate_request platform request

-- INSERT INTO approval_decisions: the primary key and approval_decisions_requirement_unique_idx, then the
-- references.
unfoldable pub insert_decision : Platform → ApprovalDecision → Db → Result Db
insert_decision platform decision db = with_uuid platform decision.id λ id.
    with_uuid platform decision.approval_request_id λ request_id.
      with_uuid platform decision.requirement_id λ requirement_id.
        if any (λ (row : ApprovalDecision). row.id == id || row.requirement_id == requirement_id)
          db.decisions
        then err (domain DomainError.duplicate)
        else if has_request request_id db
            && any (λ (row : ApprovalRequirement). row.id == requirement_id) db.requirements
        then ok (record db {
          decisions =
              db.decisions
              ++ record decision {
                id = id;
                approval_request_id = request_id;
                requirement_id = requirement_id;
              }
                ∷ [];
        })
        else err foreign_key

unfoldable pub add_decision : Platform → ApprovalDecision → M (Unit {0})
unfolding insert_decision
add_decision platform decision = statement (insert_decision platform decision)

unfoldable pub set_requirement :
    String → ApprovalRequirementStatus → Time → List ApprovalRequirement → List ApprovalRequirement
set_requirement id status now =
    map λ row. if row.id == id then record row { status = status; updated_at = now } else row

unfoldable pub put_requirement_status :
    Platform → String → ApprovalRequirementStatus → Time → Db → Result Db
unfolding set_requirement
put_requirement_status platform id status now db = with_uuid platform id λ c.
    if any (λ (row : ApprovalRequirement). row.id == c) db.requirements
    then ok (record db { requirements = set_requirement c status now db.requirements })
    else err (domain DomainError.not_found)

unfoldable pub update_requirement_status :
    Platform → String → ApprovalRequirementStatus → Time → M (Unit {0})
unfolding put_requirement_status
update_requirement_status platform id status now =
    statement (put_requirement_status platform id status now)

unfoldable pub set_request :
    String → ApprovalRequestStatus → ℕ → ℕ → Time → List RequestRow → List RequestRow
set_request id status required received now = map λ row.
    if row.id == id
    then record row {
      status = status;
      required_approvals = required;
      received_approvals = received;
      updated_at = now;
    }
    else row

unfoldable pub put_request_status :
    Platform → String → ApprovalRequestStatus → ℕ → ℕ → Time → Db → Result Db
unfolding set_request
put_request_status platform id status required received now db = with_uuid platform id λ c.
    if has_request c db
    then ok (record db { requests = set_request c status required received now db.requests })
    else err (domain DomainError.not_found)

unfoldable pub update_request_status :
    Platform → String → ApprovalRequestStatus → ℕ → ℕ → Time → M (Unit {0})
unfolding put_request_status
update_request_status platform id status required received now =
    statement (put_request_status platform id status required received now)

-- ORDER BY ar.created_at DESC LIMIT $2 OFFSET $3; requirements and decisions are not read.
unfoldable pub list_requests_by_module : Platform → String → ℕ → ℕ → M (List ApprovalRequest)
unfolding scan_request module_with_id
list_requests_by_module platform module_id limit offset = query λ db.
    with_uuid platform module_id λ c. elim (module_with_id c db) [
      | none ↦ ok []
      | some m ↦ ok (
          map (λ row. scan_request row m)
            (take limit (
              drop offset (
                sort_by (λ (a b : RequestRow). leb b.created_at a.created_at)
                  (filter (λ (row : RequestRow). row.module_id == c) db.requests)))))
    ]
