-- ===== src/Governance/Approvals/Integrity.antt =====
-- `recordDecision` as a whole, whatever the database, the random source and the input do.
use proto_radar.Prelude.{
  String, ◌==◌, ◌≡◌, refl, sym, ap, subst, ◌∙◌, ◌⊎◌, true, some, List, [], ◌∷◌, ◌++◌, any, find,
  All-find, arith, eq_iff, find_passes, inl, inr, ◌&&◌,
}
use proto_radar.Prelude.Sort.{sort_by}
use proto_radar.Domain.Errors.{Err, ok, err}
use proto_radar.Domain.Enums.{ApprovalDecisionValue, is_pending_request}
use proto_radar.Domain.Records.{Time, ApprovalRequest, ApprovalRequirement, ApprovalDecision}
use proto_radar.Store.Db.{Db, RequestRow, Platform}
use proto_radar.Store.Approvals.{
  requirements_of, requirement_le, populate_request, list_requirements, list_decisions,
  get_request_by_id,
}
use proto_radar.Store.World.{World, ◌>>◌}
use proto_radar.Store.Triples.{
  Holds, holds_given, Keeps, holds_then, holds_imp, holds_weak, holds_within_transaction,
  Keeps-query, Keeps-done, outcome_both, outcome_err, outcome_ok,
}
use proto_radar.Governance.Policy.{PolicyConfig}
use proto_radar.Governance.Approvals.Prepare.{ApprovalDecisionInput, Prepared}
use proto_radar.Governance.Approvals.Commit.{
  write_decision, announce_decision, commit_decision, record_decision,
}
use proto_radar.Governance.Approvals.Tally.{has_requirement}
use proto_radar.Governance.Approvals.Consistency.{IsConsistent, decided_table}
use proto_radar.Governance.Approvals.Decided.{decided_requests, decided-IsConsistent}
use proto_radar.Governance.Approvals.Writes.{IsReady, IsWritten, write_decision-IsWritten}
use proto_radar.Governance.Approvals.Announced.{Assertion, OfDb, announce_decision-Keeps}
use proto_radar.Governance.Approvals.Admitted.{IsAdmitted, prepare_decision-IsAdmitted}

any_of_find :
    (id : String) (rows : List RequestRow) (row : RequestRow)
    → find (λ (r : RequestRow). r.id == id) rows ≡ some row
    → is_pending_request row.status ≡ true
    → any (λ (r : RequestRow). r.id == id && is_pending_request r.status) rows ≡ true
any_of_find id [] row h e = cc
any_of_find id (r ∷ rest) row h e = ground (arith, any_of_find id rest row)

has_found :
    (id : String) (rs : List ApprovalRequirement) (r : ApprovalRequirement)
    → find (λ (x : ApprovalRequirement). x.id == id) rs ≡ some r
    → has_requirement id rs ≡ true
has_found id [] r h = cc
has_found id (x ∷ rest) r h = ground (arith, has_found id rest r)

-- `IsWritten` as an assertion on the approval tables.
abbrev Written : Prepared → Time → Db → Assertion
Written p now before requests table decisions =
    (stored : ApprovalDecision) × (decisions ≡ before.decisions ++ stored ∷ [])
    × (stored.requirement_id ≡ p.requirement.id)
    × (stored.decision ≡ p.decision.decision)
    × (stored.decided_by ≡ p.decision.decided_by)
    × (table ≡ decided_table p now before.requirements)
    × (requests ≡ decided_requests p now before.requirements before.requests)

to_tables :
    (p : Prepared) (now : Time) (before db : Db)
    → IsWritten p now before db
    → OfDb (Written p now before) db
to_tables p now before db w = (
  w.decision.stored, w.decision.appended, w.decision.on_requirement, w.decision.same_decision,
  w.decision.same_actor, w.requirements, w.requests,
)

of_tables :
    (p : Prepared) (now : Time) (before db : Db)
    → OfDb (Written p now before) db
    → IsWritten p now before db
of_tables p now before db
      (stored, appended, on_requirement, same_decision, same_actor, table, requests) =
    record {
      decision = record {
        stored = stored;
        appended = appended;
        on_requirement = on_requirement;
        same_decision = same_decision;
        same_actor = same_actor;
      };
      requirements = table;
      requests = requests;
    }

module _ (platform : Platform) (config : PolicyConfig) (input : ApprovalDecisionInput)
    (value : ApprovalDecisionValue) where
  pub admitted-IsReady :
      (p : Prepared) (db : Db)
      → IsConsistent platform db.requests db.requirements
      → IsAdmitted platform config input value p db
      → IsReady platform p db
  admitted-IsReady p db c a =
      let row = a.loaded.row.row in
      let own : platform.uuid row.id ≡ some row.id =
        All-find (λ (r : RequestRow). platform.uuid r.id ≡ some r.id)
          (λ (r : RequestRow). r.id == p.request.id) db.requests row c.printed_requests
          a.loaded.row.found in
      let same : row.id ≡ p.request.id = ground (
        arith,
        eq_iff row.id p.request.id,
        find_passes (λ (r : RequestRow). r.id == p.request.id) db.requests row a.loaded.row.found,
      ) in
      let key : a.loaded.key ≡ p.request.id = ground (arith, own, same, a.loaded.printed) in
      (
        c,
        record {
          pending =
              any_of_find p.request.id db.requests row a.loaded.row.found
                (ap is_pending_request (sym a.loaded.row.status) ∙ a.open_request);
          requirements =
              a.loaded.requirements
              ∙ ap (λ k. sort_by requirement_le (requirements_of k db.requirements)) key;
          requirement =
              has_found p.requirement.id p.request.requirements p.requirement a.requirement;
          decision = a.of_requirement;
        },
      )

  -- The transaction: on an error the database is as before.
  commit_decision-IsWritten :
      (p : Prepared) (now : Time) (before : Db)
      → Holds
          (λ db. (db ≡ before) × IsReady platform p before)
          (commit_decision platform p now)
          (λ _. IsWritten p now before)
          (λ db. (db ≡ before) × IsReady platform p before)
  unfolding commit_decision
  commit_decision-IsWritten p now before =
      holds_within_transaction
        (λ _. write_decision platform p now >> announce_decision platform p now)
        (holds_then (write_decision-IsWritten platform p now before) (λ _.
          holds_imp (λ db. to_tables p now before db) (λ _ db. of_tables p now before db)
            (λ db e. tt) (announce_decision-Keeps (Written p now before) platform p now)))

get_request_by_id-Keeps :
    {P : Db → Type 0} (platform : Platform) (id : String) → Keeps P (get_request_by_id platform id)
unfolding get_request_by_id populate_request list_requirements list_decisions
get_request_by_id-Keeps platform id = holds_then (Keeps-query _) (λ request.
    holds_then (Keeps-query _)
      (λ requirements. holds_then (Keeps-query _) (λ decisions. Keeps-done _)))

module _ (platform : Platform) (config : PolicyConfig) (input : ApprovalDecisionInput)
    (value : ApprovalDecisionValue) (now : Time) (w : World) where
  -- From a consistent database: the whole effect if a request is returned, and otherwise a database that
  -- is as it was or has the whole effect.
  abbrev pub Effect : Db → Type 0
  Effect after =
      (p : Prepared) × IsAdmitted platform config input value p w.db × IsWritten p now w.db after

  recorded :
      IsConsistent platform w.db.requests w.db.requirements
      → Holds
          (λ db. db ≡ w.db)
          (record_decision platform config input value now)
          (λ _. Effect)
          (λ after. (after ≡ w.db) ⊎ Effect after)
  unfolding record_decision
  recorded c =
      holds_then
        (holds_weak (λ db e. inl e)
          (prepare_decision-IsAdmitted platform (λ db. db ≡ w.db) config input value now))
        (λ p.
          holds_imp (λ db q. (q.0, subst (IsAdmitted platform config input value p) q.0 q.1))
            (λ _ db q. q) (λ db e. e)
            (holds_given (λ admitted.
              holds_then
                (holds_imp
                  (λ db e. (e, admitted-IsReady platform config input value p w.db c admitted))
                  (λ _ db q. q) (λ db q. inl q.0)
                  (commit_decision-IsWritten platform config input value p now w.db))
                (λ _.
                  holds_imp (λ db written. (p, admitted, written)) (λ _ db q. q) (λ db e. inr e)
                    (get_request_by_id-Keeps platform p.request.id)))))

-- What a whole effect keeps.
Effect-IsConsistent :
    (platform : Platform) (config : PolicyConfig) (input : ApprovalDecisionInput)
    (value : ApprovalDecisionValue) (now : Time) (w : World) (after : Db)
    → IsConsistent platform w.db.requests w.db.requirements
    → Effect platform config input value now w after
    → IsConsistent platform after.requests after.requirements
Effect-IsConsistent platform config input value now w after c (p, admitted, written) =
    rw (written.requests, written.requirements)
      (decided-IsConsistent platform p now w.db.requirements w.db.requests c
        (admitted-IsReady platform config input value p w.db c admitted).1)

-- If the approval tables are consistent, they are consistent after a decision, whatever its result and
-- whatever failed on the way.
pub record_decision-IsConsistent :
    (platform : Platform) (config : PolicyConfig) (input : ApprovalDecisionInput)
    (value : ApprovalDecisionValue) (now : Time) (w : World)
    → IsConsistent platform w.db.requests w.db.requirements
    → IsConsistent platform
        (record_decision platform config input value now w).1.db.requests
        (record_decision platform config input value now w).1.db.requirements
record_decision-IsConsistent platform config input value now w c =
    outcome_both {A = ApprovalRequest} (λ db. IsConsistent platform db.requests db.requirements)
      (record_decision platform config input value now w)
      ((holds_imp (λ db e. e) (λ _. keeps) (λ db. either (keeps db))
          (recorded platform config input value now w c)).runs
        w refl)
  where
    keeps :
        (db : Db)
        → Effect platform config input value now w db
        → IsConsistent platform db.requests db.requirements
    keeps db effect = Effect-IsConsistent platform config input value now w db c effect

    either :
        {db : Db}
        → (Effect platform config input value now w db
            → IsConsistent platform db.requests db.requirements)
        → (db ≡ w.db) ⊎ Effect platform config input value now w db
        → IsConsistent platform db.requests db.requirements
    either f (inl same) = rw same c
    either f (inr effect) = f effect

pub record_decision_effect :
    (platform : Platform) (config : PolicyConfig) (input : ApprovalDecisionInput)
    (value : ApprovalDecisionValue) (now : Time) (w : World) (request : ApprovalRequest)
    → IsConsistent platform w.db.requests w.db.requirements
    → (record_decision platform config input value now w).0 ≡ ok request
    → (p : Prepared) × IsAdmitted platform config input value p w.db
      × IsWritten p now w.db (record_decision platform config input value now w).1.db
record_decision_effect platform config input value now w request c h =
    outcome_ok (λ _. Effect platform config input value now w)
      (λ after. (after ≡ w.db) ⊎ Effect platform config input value now w after)
      (record_decision platform config input value now w) request
      ((recorded platform config input value now w c).runs w refl) h

-- If the approval tables are consistent and a decision returns an error, then the whole database is as
-- before, or the decision has its whole effect on the approval tables.
pub record_decision_error :
    (platform : Platform) (config : PolicyConfig) (input : ApprovalDecisionInput)
    (value : ApprovalDecisionValue) (now : Time) (w : World) (e : Err)
    → IsConsistent platform w.db.requests w.db.requirements
    → (record_decision platform config input value now w).0 ≡ err e
    → ((record_decision platform config input value now w).1.db ≡ w.db)
      ⊎ ((p : Prepared) × IsAdmitted platform config input value p w.db
          × IsWritten p now w.db (record_decision platform config input value now w).1.db)
record_decision_error platform config input value now w e c h =
    outcome_err (λ _. Effect platform config input value now w)
      (λ after. (after ≡ w.db) ⊎ Effect platform config input value now w after)
      (record_decision platform config input value now w) e
      ((recorded platform config input value now w c).runs w refl) h
