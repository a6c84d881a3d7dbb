-- ===== src/Governance/Approvals/Created.antt =====
-- internal/usecase/governance/approval_service.go, createApprovalRequestWithAuditAndOutbox: its
-- transaction, and the invariant of the approval tables.
use proto_radar.Prelude.{
  ℕ, suc, String, ◌==◌, ◌≡◌, sym, ap, ◌∙◌, subst, true, some, List, [], ◌∷◌, ◌++◌, length, All, ◌+◌,
  arith, if◌then◌else◌,
}
use proto_radar.Domain.Errors.{ok}
use proto_radar.Domain.Enums.{approval_request_created, is_pending_requirement}
use proto_radar.Domain.Records.{Time, ApprovalRequest, ApprovalRequirement}
use proto_radar.Store.Db.{Db, RequestRow, Platform}
use proto_radar.Store.World.{◌>>◌, map_fault, statement}
use proto_radar.Store.OutboxWriter.{write_event}
use proto_radar.Events.{new_approval_request_created}
use proto_radar.Store.Approvals.{
  insert_request, insert_requirement, create_requirement, create_requirements, create_request,
}
use proto_radar.Store.Triples.{
  Holds, Keeps, holds_then, holds_imp, holds_statement, holds_map_fault, holds_within_transaction,
  holds_joined,
}
use proto_radar.Store.Triples.Lookups.{holds_some}
use proto_radar.Governance.Types.{GovernancePolicyResult}
use proto_radar.Governance.Approvals.Create.{map_create_error, append_created_audit, store_request}
use proto_radar.Governance.Approvals.Announced.{append_approval_audit-Keeps, write_event-Keeps}
use proto_radar.Governance.Approvals.Consistency.{IsConsistent}
use proto_radar.Governance.Approvals.Stored.{IsFresh, IsFilling}
use proto_radar.Governance.Approvals.Filled.{IsRowOf, insert_request_ok, fill_step}
use proto_radar.Governance.Approvals.Inserted.{IsStatusFor, IsFilling-start, filled-IsConsistent}

-- The tables with the row of the request and some number of its requirements.
abbrev Fills : Platform → RequestRow → ℕ → Db → Type 0
Fills platform row count db = IsFilling platform row count db.requests db.requirements

abbrev pub Consistent : Platform → Db → Type 0
Consistent platform db = IsConsistent platform db.requests db.requirements

abbrev IsOpen : String → ApprovalRequirement → Type 0
IsOpen id r = (is_pending_requirement r.status ≡ true) × (r.approval_request_id ≡ id)

-- The request that a requirement is inserted for.
requirement_request :
    (id : String) (r : ApprovalRequirement)
    → r.approval_request_id ≡ id
    → (if r.approval_request_id == "" then id else r.approval_request_id) ≡ id
requirement_request id r h = ground (arith, h)

module _ (platform : Platform) (row : RequestRow) (id : String) where
  create_requirement-Fills :
      (count : ℕ) (r : ApprovalRequirement)
      → platform.uuid id ≡ some row.id
      → IsOpen id r
      → Holds
          (Fills platform row count)
          (create_requirement platform id r)
          (λ _. Fills platform row (suc count))
          (λ _. Unit)
  unfolding create_requirement
  create_requirement-Fills count r printed undecided =
      holds_imp (λ db f. f)
        (λ _ after (db, f, e).
          fill_step platform row count r id db after
            (ap (λ t. insert_requirement platform r t db)
                (sym (requirement_request id r undecided.1))
              ∙ e)
            printed undecided.0 f)
        (λ db e. tt) (holds_statement _)

  create_requirements_fill :
      (count total : ℕ) (rs : List ApprovalRequirement)
      → platform.uuid id ≡ some row.id
      → All (IsOpen id) rs
      → total ≡ count + length rs
      → Holds
          (Fills platform row count)
          (create_requirements platform id rs)
          (λ _. Fills platform row total)
          (λ _. Unit)
  unfolding create_requirements
  create_requirements_fill count total [] printed undecided e = record {
    runs = λ w f. subst (λ n. Fills platform row n w.db) (omega (arith, e)) f;
  }
  create_requirements_fill count total (r ∷ rest) printed undecided e =
      holds_then (create_requirement-Fills count r printed undecided.0) (λ _.
        create_requirements_fill (suc count) total rest printed undecided.1 (omega (arith, e)))

fresh_requirements :
    (request : ApprovalRequest) (rs : List ApprovalRequirement)
    → All (λ (r : ApprovalRequirement). is_pending_requirement r.status ≡ true) rs
    → All (λ (r : ApprovalRequirement). r.approval_request_id ≡ request.id) rs
    → All (IsOpen request.id) rs
fresh_requirements request [] h k = tt
fresh_requirements request (r ∷ rest) h k = ((h.0, k.0), fresh_requirements request rest h.1 k.1)

module _ (platform : Platform) (request : ApprovalRequest) where
  IsStarted : Db → Type 0
  IsStarted db = (row : RequestRow) × IsRowOf platform request row × Fills platform row 0 db

  started :
      (db after : Db)
      → Consistent platform db
      → insert_request platform request db ≡ ok after
      → (row : RequestRow) × IsRowOf platform request row × Fills platform row 0 after
  started db after c e =
      let (row, is_row, requests, requirements, new) =
        insert_request_ok platform request db after e in
      (
        row,
        is_row,
        subst (λ t. IsFilling platform row 0 t after.requirements) (sym requests)
            (subst (IsFilling platform row 0 (db.requests ++ row ∷ [])) (sym requirements) (
              IsFilling-start platform row db.requests db.requirements c new
                (platform.uuid_printed request.id row.id is_row.printed))),
      )

  fresh_status :
      (row : RequestRow)
      → row.status ≡ request.status
      → IsFresh request
      → IsStatusFor row.status (length request.requirements)
  fresh_status row same fresh =
      subst (λ s. IsStatusFor s (length request.requirements)) (sym same) fresh.status

  create_request-IsConsistent :
      IsFresh request
      → Holds
          (Consistent platform)
          (create_request platform true request)
          (λ _. Consistent platform)
          (λ _. Unit)
  unfolding create_request
  create_request-IsConsistent fresh =
      holds_joined
        (λ in_tx.
          statement (insert_request platform request)
          >> create_requirements platform request.id request.requirements)
        (holds_then
          (holds_imp (λ db c. c) (λ _ after (db, c, e). started db after c e) (λ db e. tt)
            (holds_statement _))
          (λ _. holds_some (λ row is_row.
            holds_imp (λ db f. f)
              (λ _ db f.
                filled-IsConsistent platform row (length request.requirements) db.requests
                  db.requirements f (is_row.required ∙ fresh.required)
                  (is_row.received ∙ fresh.received) (fresh_status row is_row.status fresh))
              (λ db e. e)
              (create_requirements_fill platform row request.id 0 (length request.requirements)
                request.requirements is_row.printed
                (fresh_requirements request request.requirements fresh.pending fresh.own)
                (omega arith)))))

  pub store_request-Keeps :
      (actor : String) (policy_result : GovernancePolicyResult) (now : Time)
      → IsFresh request
      → Keeps (Consistent platform) (store_request platform request actor policy_result now)
  unfolding store_request append_created_audit
  store_request-Keeps actor policy_result now fresh =
      holds_within_transaction
        (λ in_tx.
          map_fault map_create_error (create_request platform in_tx request)
          >> (append_created_audit platform request actor policy_result now
              >> write_event now (
                  new_approval_request_created platform
                    (record { request = request; actor = actor; occurred_at = now }))))
        (holds_then (holds_map_fault map_create_error (create_request-IsConsistent fresh)) (λ _.
          holds_then
            (holds_imp (λ db c. c) (λ _ db c. c) (λ db c. tt)
              (append_approval_audit-Keeps (λ rows table _. IsConsistent platform rows table)
                platform approval_request_created request _ _ now))
            (λ _.
              holds_imp (λ db c. c) (λ _ db c. c) (λ db c. tt)
                (write_event-Keeps (λ rows table _. IsConsistent platform rows table) now _))))
