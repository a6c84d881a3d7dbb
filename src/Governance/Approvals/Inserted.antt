-- ===== src/Governance/Approvals/Inserted.antt =====
-- createApprovalRequestWithAuditAndOutbox: the invariant of the approval tables, once all requirements
-- of a new request are inserted.
use proto_radar.Prelude.{
  ℕ, suc, String, ◌≡◌, refl, sym, ap, ◌∙◌, subst, true, false, some, List, [], ◌∷◌, ◌++◌, length,
  All, All-append, All-imp, append_nil, ◌⊎◌, any-append, arith, eq_iff, inl, inr,
}
use proto_radar.Domain.Enums.{ApprovalRequestStatus, is_pending_requirement}
use proto_radar.Domain.Records.{ApprovalRequirement}
use proto_radar.Store.Db.{RequestRow, Platform}
use proto_radar.Governance.Approvals.Tally.{IsTallied, status_of, count_approved, is_counted}
use proto_radar.Governance.Approvals.Consistency.{has_row, IsConsistent}
use proto_radar.Governance.Approvals.Stored.{IsFilling, pending_counts, pending_status}
use proto_radar.Governance.Approvals.Filled.{filled-requirements_of, kept-requirements_of}

own_row :
    (id : String) (row : RequestRow) (rest : List RequestRow)
    → id ≡ row.id
    → has_row id (rest ++ row ∷ []) ≡ true
own_row id row rest h = any-append _ rest (row ∷ []) ∙ ground (arith, h, eq_iff row.id id)

kept_row :
    (id : String) (row : RequestRow) (rest : List RequestRow)
    → has_row id rest ≡ true
    → has_row id (rest ++ row ∷ []) ≡ true
kept_row id row rest h = any-append _ rest (row ∷ []) ∙ ground (arith, h)

-- The status of a row with a number of pending requirements.
abbrev pub IsStatusFor : ApprovalRequestStatus → ℕ → Type 0
IsStatusFor status count =
    ((status ≡ ApprovalRequestStatus.pending) × ((n : ℕ) × (count ≡ suc n)))
    ⊎ (status ≡ ApprovalRequestStatus.not_required)

module _ (platform : Platform) (row : RequestRow) where
  pub IsFilling-start :
      (requests : List RequestRow) (table : List ApprovalRequirement)
      → IsConsistent platform requests table
      → has_row row.id requests ≡ false
      → platform.uuid row.id ≡ some row.id
      → IsFilling platform row 0 (requests ++ row ∷ []) table
  IsFilling-start requests table c new printed = record {
    old_requests = requests;
    old_table = table;
    added = [];
    is_requests = refl;
    is_table = sym (append_nil table);
    consistent = c;
    fresh_row = new;
    printed_row = printed;
    unique_ids = c.unique_ids;
    printed_added = tt;
    own = tt;
    pending = tt;
    counted = refl;
  }

  row_status :
      (count : ℕ) (rs : List ApprovalRequirement)
      → IsStatusFor row.status count
      → All (λ (r : ApprovalRequirement). is_pending_requirement r.status ≡ true) rs
      → length rs ≡ count
      → is_counted row.status ≡ true
      → row.status ≡ status_of rs
  row_status count rs (inl (is_pending, (n, positive))) h e counted =
      is_pending ∙ sym (pending_status rs n h (e ∙ positive))
  row_status count rs (inr dropped) h e counted = ground (arith, dropped, counted)

  module _ (count : ℕ) (requests : List RequestRow) (table : List ApprovalRequirement) where
    row-IsTallied :
        IsFilling platform row count requests table
        → row.required_approvals ≡ count
        → row.received_approvals ≡ 0
        → IsStatusFor row.status count
        → IsTallied table row
    row-IsTallied f required received status =
        let (rs, own, open_status, counted) =
          filled-requirements_of platform row count requests table f in
        record {
          status = λ c. row_status count rs status open_status counted c ∙ ap status_of (sym own);
          required = required ∙ (sym counted ∙ ap length (sym own));
          received =
              received ∙ (sym (pending_counts rs open_status).0 ∙ ap count_approved (sym own));
        }

    others-AreTallied :
        (f : IsFilling platform row count requests table) (rest : List RequestRow)
        → has_row row.id rest ≡ false
        → All (IsTallied f.old_table) rest
        → All (IsTallied table) rest
    others-AreTallied f [] new h = tt
    others-AreTallied f (other ∷ rest) new h =
        let same =
          kept-requirements_of platform row count requests table other.id f
            (ground (arith, eq_iff row.id other.id, eq_iff other.id row.id)) in
        (
          record {
            status = λ c. h.0.status c ∙ ap status_of (sym same);
            required = h.0.required ∙ ap length (sym same);
            received = h.0.received ∙ ap count_approved (sym same);
          },
          others-AreTallied f rest (ground (arith, new)) h.1,
        )

    pub filled-IsConsistent :
        IsFilling platform row count requests table
        → row.required_approvals ≡ count
        → row.received_approvals ≡ 0
        → IsStatusFor row.status count
        → IsConsistent platform requests table
    filled-IsConsistent f required received status = record {
      unique_ids = f.unique_ids;
      printed_requests = subst (All _) (sym f.is_requests) (
          All-append _ f.old_requests (row ∷ []) f.consistent.printed_requests (f.printed_row, tt));
      printed_requirements =
          subst (All _) (sym f.is_table)
            (All-append _ f.old_table f.added f.consistent.printed_requirements f.printed_added);
      owned =
          rw (f.is_requests, f.is_table)
            (All-append _ f.old_table f.added
              (All-imp _ _
                (λ (r : ApprovalRequirement). kept_row r.approval_request_id row f.old_requests)
                f.old_table f.consistent.owned)
              (All-imp _ _
                (λ (r : ApprovalRequirement). own_row r.approval_request_id row f.old_requests)
                f.added f.own));
      tallied = subst (All _) (sym f.is_requests) (
          All-append _ f.old_requests (row ∷ [])
            (others-AreTallied f f.old_requests f.fresh_row f.consistent.tallied)
            (row-IsTallied f required received status, tt));
    }
