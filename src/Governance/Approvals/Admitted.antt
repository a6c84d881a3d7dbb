-- ===== src/Governance/Approvals/Admitted.antt =====
-- What `recordDecision` has checked when its transaction begins.
use proto_radar.Prelude.{
  String, ◌==◌, ◌≡◌, ◌≢◌, ◌⊎◌, ◌≤◌, refl, sym, subst, true, false, not, some, find, arith, len, ltb,
  eq_iff, trim_space,
}
use proto_radar.Domain.Errors.{Result, ok, err, map_err}
use proto_radar.Domain.Ids.{new_approval_requirement_id, new_approval_request_id}
use proto_radar.Domain.Enums.{ApprovalDecisionValue, is_pending_request, is_pending_requirement}
use proto_radar.Domain.Records.{
  Time, ApprovalRequest, ApprovalRequirement, max_approval_decision_comment_length,
  validate_decision,
}
use proto_radar.Store.Db.{Db, Platform}
use proto_radar.Store.Triples.{
  Holds, holds_then, holds_weak, holds_random_hex, then_require, then_lift,
}
use proto_radar.Governance.Actor.{effective_actor_subject}
use proto_radar.Governance.Policy.{PolicyConfig}
use proto_radar.Governance.Approvals.Prepare.{
  make_decision, is_expected_request, admit_decision, ApprovalDecisionInput, Prepared,
  has_decision_for_requirement, prepare_decision, map_decision_validation_error,
}
use proto_radar.Governance.Approvals.Loaded.{IsLoaded}
use proto_radar.Governance.Approvals.Deciding.{
  MayDecide, actor_can_decide-MayDecide, get_request_by_requirement-IsFound, IsFound,
}

pub record IsAdmitted (platform : Platform) (config : PolicyConfig) (input : ApprovalDecisionInput)
    (value : ApprovalDecisionValue) (p : Prepared) (db : Db) : Type 0 where
  pub loaded : IsLoaded platform p.request db
  pub expected :
      (new_approval_request_id input.request_id ≡ "")
      ⊎ (p.request.id ≡ new_approval_request_id input.request_id)
  pub short : len input.comment ≤ 2000
  pub acted : p.decision.decided_by ≡ trim_space input.actor
  pub some_actor : p.decision.decided_by ≢ ""
  pub some_requirement : p.requirement.id ≢ ""
  pub valid : validate_decision p.decision ≡ ok tt
  pub requirement :
      find (λ (r : ApprovalRequirement). r.id == p.requirement.id) p.request.requirements
      ≡ some p.requirement
  pub undecided : has_decision_for_requirement p.request.decisions p.requirement.id ≡ false
  pub open_request : is_pending_request p.request.status ≡ true
  pub open_requirement : is_pending_requirement p.requirement.status ≡ true
  pub allowed : MayDecide platform config p.requirement p.decision.decided_by db
  pub decides : p.decision.decision ≡ value
  pub of_request : p.decision.approval_request_id ≡ p.request.id
  pub of_requirement : p.decision.requirement_id ≡ p.requirement.id
  pub named : p.requirement.id ≡ new_approval_requirement_id input.requirement_id
  pub comment : p.decision.comment ≡ input.comment

expected_request :
    (id : String) (request : ApprovalRequest)
    → is_expected_request id request ≡ true
    → (id ≡ "") ⊎ (request.id ≡ id)
expected_request id request h = ground (arith, eq_iff id "", eq_iff request.id id, h)

was_valid : (r : Result (Unit {0})) → map_err map_decision_validation_error r ≡ ok tt → r ≡ ok tt
was_valid (ok tt) h = refl
was_valid (err e) h = cc

named_requirement : (id : String) → not (id == "") ≡ true → id ≢ ""
named_requirement id h = ground (arith, eq_iff id "", h)

acting :
    (input actor : String)
    → effective_actor_subject input ≡ ok actor
    → (actor ≡ trim_space input) × (actor ≢ "")
unfolding effective_actor_subject
acting input actor h = ground (arith, eq_iff (trim_space input) "", h)

module _ (platform : Platform) (P : Db → Type 0) where
  decided-IsAdmitted :
      (config : PolicyConfig) (input : ApprovalDecisionInput) (value : ApprovalDecisionValue)
      (now : Time) (actor : String) (request : ApprovalRequest) (requirement : ApprovalRequirement)
      (id : String)
      → not (new_approval_requirement_id input.requirement_id == "") ≡ true
      → effective_actor_subject input.actor ≡ ok actor
      → not (ltb max_approval_decision_comment_length (len input.comment)) ≡ true
      → is_expected_request (new_approval_request_id input.request_id) request ≡ true
      → not (has_decision_for_requirement request.decisions requirement.id) ≡ true
      → is_pending_request request.status ≡ true
      → is_pending_requirement requirement.status ≡ true
      → (db : Db)
      → IsFound platform P
          (new_approval_requirement_id input.requirement_id)
          (request, requirement)
          db
      → MayDecide platform config requirement actor db
      → validate_decision (make_decision input value now actor request requirement id) ≡ ok tt
      → IsAdmitted platform config input value
          (record {
            request = request;
            requirement = requirement;
            decision = make_decision input value now actor request requirement id;
          })
          db
  unfolding make_decision
  decided-IsAdmitted config input value now actor request requirement id present subject fits same
        undecided open_r open_q db f may valid =
      record {
        loaded = f.1;
        expected = expected_request (new_approval_request_id input.request_id) request same;
        short = ground (arith, fits);
        acted = (acting input.actor actor subject).0;
        some_actor = (acting input.actor actor subject).1;
        some_requirement =
            subst (λ x. x ≢ "") (sym f.3)
              (named_requirement (new_approval_requirement_id input.requirement_id) present);
        valid = valid;
        requirement = f.2;
        undecided = ground arith;
        open_request = open_r;
        open_requirement = open_q;
        allowed = may;
        decides = refl;
        of_request = refl;
        of_requirement = refl;
        named = f.3;
        comment = refl;
      }

  admit_decision-IsAdmitted :
      (config : PolicyConfig) (input : ApprovalDecisionInput) (value : ApprovalDecisionValue)
      (now : Time) (actor : String) (request : ApprovalRequest) (requirement : ApprovalRequirement)
      → not (new_approval_requirement_id input.requirement_id == "") ≡ true
      → effective_actor_subject input.actor ≡ ok actor
      → not (ltb max_approval_decision_comment_length (len input.comment)) ≡ true
      → Holds
          (IsFound platform P
            (new_approval_requirement_id input.requirement_id)
            (request, requirement))
          (admit_decision platform config input value now actor request requirement)
          (λ p db. P db × IsAdmitted platform config input value p db)
          P
  unfolding admit_decision
  admit_decision-IsAdmitted config input value now actor request requirement present subject fits =
      then_require _ _ _ (λ db q. q.0)
        (λ same.
          then_require _ _ _ (λ db q. q.0)
            (λ undecided.
              then_require _ _ _ (λ db q. q.0)
                (λ open_request.
                  then_require _ _ _ (λ db q. q.0)
                    (λ open_requirement.
                      holds_then
                        (holds_weak (λ db q. q.0)
                          (actor_can_decide-MayDecide platform
                            (IsFound platform P (new_approval_requirement_id input.requirement_id)
                              (request, requirement))
                            config requirement actor))
                        (λ allowed.
                          then_require allowed _ _ (λ db q. q.0.0)
                            (λ granted.
                              holds_then (holds_weak (λ db q. q.0.0) holds_random_hex) (λ id.
                                then_lift _ _ (λ db q. q.0.0)
                                  (λ _ valid. record {
                                    runs = λ w q. (
                                      q.0.0,
                                      decided-IsAdmitted config input value now actor request
                                          requirement id present subject fits same undecided
                                          open_request open_requirement w.db q.0 (q.1 granted)
                                          (was_valid _ valid),
                                    );
                                  }))))))))

  pub prepare_decision-IsAdmitted :
      (config : PolicyConfig) (input : ApprovalDecisionInput) (value : ApprovalDecisionValue)
      (now : Time)
      → Holds P
          (prepare_decision platform config input value now)
          (λ p db. P db × IsAdmitted platform config input value p db)
          P
  unfolding prepare_decision
  prepare_decision-IsAdmitted config input value now =
      then_require _ _ _ (λ db p. p)
        (λ present.
          then_lift (effective_actor_subject input.actor) _ (λ db p. p)
            (λ actor subject.
              then_require _ _ _ (λ db p. p)
                (λ fits.
                  holds_then
                    (get_request_by_requirement-IsFound platform P
                      (new_approval_requirement_id input.requirement_id))
                    (λ found.
                      admit_decision-IsAdmitted config input value now actor found.0 found.1 present
                        subject fits))))
