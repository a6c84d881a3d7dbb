-- ===== src/Governance/Approvals/Filled.antt =====
-- The insertion of a request and of its requirements, statement by statement.
use proto_radar.Prelude.{
  append_nil, append_assoc, ℕ, suc, String, ◌==◌, ◌≡◌, refl, sym, ap, ◌∙◌, subst, true, false,
  Option, some, none, List, [], ◌∷◌, ◌++◌, length, length-append, All, All-append, Distinct,
  Distinct-map-concat, arith, Option-cases, inl, inr,
}
use proto_radar.Domain.Errors.{ok}
use proto_radar.Domain.Enums.{is_pending_requirement}
use proto_radar.Domain.Records.{ApprovalRequest, ApprovalRequirement}
use proto_radar.Store.Db.{Db, RequestRow, Platform}
use proto_radar.Store.Approvals.{requirements_of, request_row, insert_request, insert_requirement}
use proto_radar.Governance.Approvals.Tally.{requirement_ids, has_requirement}
use proto_radar.Governance.Approvals.Consistency.{has_row}
use proto_radar.Governance.Approvals.Stored.{
  IsFilling, requirements_of_unknown, requirements_of-append, requirements_of_own,
  requirements_of_other,
}

-- The row of a request.
pub record IsRowOf (platform : Platform) (request : ApprovalRequest) (row : RequestRow)
    : Type 0 where
  pub printed : platform.uuid request.id ≡ some row.id
  pub status : row.status ≡ request.status
  pub required : row.required_approvals ≡ request.required_approvals
  pub received : row.received_approvals ≡ request.received_approvals

row_inserted :
    (platform : Platform) (request : ApprovalRequest) (db after : Db) (id module_id : String)
    (report_id : Option String)
    → platform.uuid request.id ≡ some id
    → (after.requests ≡ db.requests ++ request_row request id module_id report_id ∷ [])
      × (after.requirements ≡ db.requirements)
      × (has_row id db.requests ≡ false)
    → (row : RequestRow) × IsRowOf platform request row
      × (after.requests ≡ db.requests ++ row ∷ [])
      × (after.requirements ≡ db.requirements)
      × (has_row row.id db.requests ≡ false)
unfolding request_row
row_inserted platform request db after id module_id report_id printed
      (requests, requirements, new) =
    (
      request_row request id module_id report_id,
      record { printed = printed; status = refl; required = refl; received = refl },
      requests,
      requirements,
      new,
    )

pub insert_request_ok :
    (platform : Platform) (request : ApprovalRequest) (db after : Db)
    → insert_request platform request db ≡ ok after
    → (row : RequestRow) × IsRowOf platform request row
      × (after.requests ≡ db.requests ++ row ∷ [])
      × (after.requirements ≡ db.requirements)
      × (has_row row.id db.requests ≡ false)
unfolding insert_request
insert_request_ok platform request db after h = elim (Option-cases (platform.uuid request.id)) [
  | inl bad ↦ ground arith
  | inr (id, printed) ↦ elim (Option-cases (platform.uuid request.module_id)) [
    | inl bad ↦ ground arith
    | inr (m, module_printed) ↦ elim (Option-cases request.breaking_report_id) [
      | inl nil ↦ row_inserted platform request db after id m none printed (ground arith)
      | inr (report, is_report) ↦ elim (Option-cases (platform.uuid report)) [
        | inl bad ↦ ground arith
        | inr (c, report_printed) ↦
            row_inserted platform request db after id m (some c) printed (ground arith)
      ]
    ]
  ]
]

requirement_inserted :
    (platform : Platform) (r : ApprovalRequirement) (key : String) (db after : Db) (id : String)
    (target : Option String)
    → platform.uuid r.id ≡ some id
    → (after.requests ≡ db.requests)
      × (after.requirements
          ≡ db.requirements
            ++ record r { id = id; approval_request_id = key; target_module_id = target } ∷ [])
      × (has_requirement id db.requirements ≡ false)
    → (stored : ApprovalRequirement) × (after.requests ≡ db.requests)
      × (after.requirements ≡ db.requirements ++ stored ∷ [])
      × (platform.uuid r.id ≡ some stored.id)
      × (stored.approval_request_id ≡ key)
      × (stored.status ≡ r.status)
      × (has_requirement stored.id db.requirements ≡ false)
requirement_inserted platform r key db after id target printed (requests, requirements, new) = (
  record r { id = id; approval_request_id = key; target_module_id = target },
  requests,
  requirements,
  printed,
  refl,
  refl,
  new,
)

pub insert_requirement_ok :
    (platform : Platform) (r : ApprovalRequirement) (request_id key : String) (db after : Db)
    → insert_requirement platform r request_id db ≡ ok after
    → platform.uuid request_id ≡ some key
    → (stored : ApprovalRequirement) × (after.requests ≡ db.requests)
      × (after.requirements ≡ db.requirements ++ stored ∷ [])
      × (platform.uuid r.id ≡ some stored.id)
      × (stored.approval_request_id ≡ key)
      × (stored.status ≡ r.status)
      × (has_requirement stored.id db.requirements ≡ false)
unfolding insert_requirement
insert_requirement_ok platform r request_id key db after h key_printed =
    elim (Option-cases (platform.uuid r.id)) [
      | inl bad ↦ ground arith
      | inr (id, printed) ↦ elim (Option-cases r.target_module_id) [
        | inl nil ↦ requirement_inserted platform r key db after id none printed (ground arith)
        | inr (target, is_target) ↦ elim (Option-cases (platform.uuid target)) [
          | inl bad ↦ ground arith
          | inr (c, target_printed) ↦
              requirement_inserted platform r key db after id (some c) printed (ground arith)
        ]
      ]
    ]

module _ (platform : Platform) (row : RequestRow) where
  pub fill_step :
      (count : ℕ) (r : ApprovalRequirement) (request_id : String) (db after : Db)
      → insert_requirement platform r request_id db ≡ ok after
      → platform.uuid request_id ≡ some row.id
      → is_pending_requirement r.status ≡ true
      → IsFilling platform row count db.requests db.requirements
      → IsFilling platform row (suc count) after.requests after.requirements
  fill_step count r request_id db after h printed open_status f =
      let (stored, requests, requirements, id, own, status, new) =
        insert_requirement_ok platform r request_id row.id db after h printed in
      record {
        old_requests = f.old_requests;
        old_table = f.old_table;
        added = f.added ++ stored ∷ [];
        is_requests = requests ∙ f.is_requests;
        is_table =
            requirements
            ∙ (ap (λ t. t ++ stored ∷ []) f.is_table
                ∙ append_assoc f.old_table f.added (stored ∷ []));
        consistent = f.consistent;
        fresh_row = f.fresh_row;
        printed_row = f.printed_row;
        unique_ids = subst Distinct (ap requirement_ids (sym requirements)) (
            Distinct-map-concat (λ (x : ApprovalRequirement). x.id) db.requirements stored
              f.unique_ids new);
        printed_added =
            All-append _ f.added (stored ∷ []) f.printed_added
              (platform.uuid_printed r.id stored.id id, tt);
        own = All-append _ f.added (stored ∷ []) f.own (own, tt);
        pending =
            All-append _ f.added (stored ∷ []) f.pending
              (ap is_pending_requirement status ∙ open_status, tt);
        counted = length-append f.added (stored ∷ []) ∙ omega (arith, f.counted);
      }

  -- The inserted requirements as those of the new row, and the others as they were.
  pub filled-requirements_of :
      (count : ℕ) (requests : List RequestRow) (table : List ApprovalRequirement)
      → IsFilling platform row count requests table
      → (f : List ApprovalRequirement) × (requirements_of row.id table ≡ f)
        × All (λ (r : ApprovalRequirement). is_pending_requirement r.status ≡ true) f
        × (length f ≡ count)
  filled-requirements_of count requests table f = (
    f.added,
    ap (requirements_of row.id) f.is_table
        ∙ (requirements_of-append row.id f.old_table f.added
            ∙ rw
                (requirements_of_unknown row.id f.old_requests f.old_table f.consistent.owned
                  f.fresh_row)
                (requirements_of_own row.id f.added f.own)),
    f.pending,
    f.counted,
  )

  pub kept-requirements_of :
      (count : ℕ) (requests : List RequestRow) (table : List ApprovalRequirement) (other : String)
      → (f : IsFilling platform row count requests table) → (row.id == other) ≡ false
      → requirements_of other table ≡ requirements_of other f.old_table
  kept-requirements_of count requests table other f different =
      ap (requirements_of other) f.is_table
      ∙ (requirements_of-append other f.old_table f.added
          ∙ rw (requirements_of_other row.id other f.added f.own different) (append_nil _))
