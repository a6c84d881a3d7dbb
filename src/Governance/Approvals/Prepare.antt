-- ===== src/Governance/Approvals/Prepare.antt =====
-- internal/usecase/governance/approval_service.go: what `recordDecision` reads and checks before its
-- transaction.
use proto_radar.Prelude.{
  ℕ, String, ◌==◌, len, Bool, true, false, not, ◌||◌, none, some, List, [], ◌∷◌, any, all, filter,
  find, length, ltb, if◌then◌else◌,
}
use proto_radar.Domain.Errors.{
  Err, Result, ok, err, domain, governance, DomainError, GovernanceError, map_err,
}
use proto_radar.Domain.Ids.{
  new_approval_requirement_id, new_approval_request_id, new_approval_decision_id,
}
use proto_radar.Domain.Enums.{
  ApprovalDecisionValue, ApprovalRequirementStatus, GovernanceSubjectType, ModuleOwnerRole,
  is_pending_request, is_pending_requirement, is_approved_requirement, is_settled_requirement,
}
use proto_radar.Domain.Records.{
  Time, ApprovalRequest, ApprovalRequirement, ApprovalDecision, validate_decision,
  max_approval_decision_comment_length,
}
use proto_radar.Store.Db.{Platform}
use proto_radar.Store.World.{
  World, M, ◌>>=◌, ◌>>◌, done, fail, lift, require, map_fault, random_hex,
}
use proto_radar.Store.Owners.{has_role}
use proto_radar.Store.Approvals.{get_request_by_requirement_id}
use proto_radar.Governance.Actor.{effective_actor_subject}
use proto_radar.Governance.Owners.{when_not_found}
use proto_radar.Governance.Policy.{PolicyConfig}

pub record ApprovalDecisionInput : Type 0 where
  pub request_id : String
  pub requirement_id : String
  pub actor : String
  pub comment : String

unfoldable pub has_decision_for_requirement : List ApprovalDecision → String → Bool
has_decision_for_requirement decisions id = any (λ d. d.requirement_id == id) decisions

unfoldable pub all_requirements_approved_after : List ApprovalRequirement → String → Bool
all_requirements_approved_after requirements id =
    all (λ r. r.id == id || is_settled_requirement r.status) requirements

-- The status a requirement counts with, once the decided one has its new status.
abbrev pub status_after :
    String → ApprovalRequirementStatus → ApprovalRequirement → ApprovalRequirementStatus
status_after id decided r = if r.id == id then decided else r.status

unfoldable pub received_approvals_after :
    List ApprovalRequirement → String → ApprovalRequirementStatus → ℕ
received_approvals_after requirements id decided =
    length (filter (λ r. is_approved_requirement (status_after id decided r)) requirements)

unfoldable pub get_request_by_requirement :
    Platform → String → M (ApprovalRequest × ApprovalRequirement)
unfolding get_request_by_requirement_id
get_request_by_requirement platform id = do
  request ←
      map_fault (when_not_found GovernanceError.approval_requirement_not_found)
        (get_request_by_requirement_id platform id)
  elim (find (λ (r : ApprovalRequirement). r.id == id) request.requirements) [
    | none ↦ fail (governance GovernanceError.approval_requirement_not_found)
    | some requirement ↦ done (request, requirement)
  ]

-- `err == nil && ok`
abbrev pub granted_on : Result Bool × World → Result Bool × World
granted_on (ok b, w) = (ok b, w)
granted_on (err e, w) = (ok false, w)

abbrev pub granted : M Bool → M Bool
granted m = λ w. granted_on (m w)

unfoldable pub deciding_roles : PolicyConfig → List ModuleOwnerRole
deciding_roles config =
    ModuleOwnerRole.owner
    ∷ (if config.allow_maintainer_approval then ModuleOwnerRole.maintainer ∷ [] else [])

unfoldable pub actor_can_decide : Platform → PolicyConfig → ApprovalRequirement → String → M Bool
unfolding has_role deciding_roles
actor_can_decide platform config requirement actor = elim requirement.target_module_id [
  | none ↦ done false
  | some id ↦ if id == "" then done false else do
    as_user ←
        granted (has_role platform id GovernanceSubjectType.user actor (deciding_roles config))
    if as_user
        then done true
        else granted (has_role platform id GovernanceSubjectType.team actor (deciding_roles config))
]

abbrev pub map_decision_validation_error : Err → Err
map_decision_validation_error (domain DomainError.invalid_approval_decision) =
    governance GovernanceError.approval_requirement_conflict
map_decision_validation_error (domain DomainError.invalid_approval_actor) =
    governance GovernanceError.invalid_approval_actor
map_decision_validation_error (domain DomainError.approval_decision_comment_too_long) =
    governance GovernanceError.approval_decision_comment_too_long
map_decision_validation_error e = e

-- What `recordDecision` has in hand when its transaction begins.
pub record Prepared : Type 0 where
  pub request : ApprovalRequest
  pub requirement : ApprovalRequirement
  pub decision : ApprovalDecision

-- The guard on an identifier of the request in the input: the empty one matches any request.
abbrev pub is_expected_request : String → ApprovalRequest → Bool
is_expected_request expected request = expected == "" || request.id == expected

unfoldable pub make_decision :
    ApprovalDecisionInput
    → ApprovalDecisionValue
    → Time
    → String
    → ApprovalRequest
    → ApprovalRequirement
    → String
    → ApprovalDecision
make_decision input value now actor request requirement id = record {
  id = new_approval_decision_id id;
  approval_request_id = request.id;
  requirement_id = requirement.id;
  decision = value;
  decided_by = actor;
  comment = input.comment;
  created_at = now;
}

-- The checks on what was read, and the decision.
unfoldable pub admit_decision :
    Platform
    → PolicyConfig
    → ApprovalDecisionInput
    → ApprovalDecisionValue
    → Time
    → String
    → ApprovalRequest
    → ApprovalRequirement
    → M Prepared
unfolding require lift actor_can_decide random_hex validate_decision make_decision
    has_decision_for_requirement
admit_decision platform config input value now actor request requirement = do
  require (is_expected_request (new_approval_request_id input.request_id) request)
      (governance GovernanceError.approval_request_not_found)
  require (not (has_decision_for_requirement request.decisions requirement.id))
      (governance GovernanceError.approval_requirement_conflict)
  require (is_pending_request request.status) (governance GovernanceError.approval_request_conflict)
  require (is_pending_requirement requirement.status)
      (governance GovernanceError.approval_requirement_conflict)
  allowed ← actor_can_decide platform config requirement actor
  require allowed (governance GovernanceError.approval_actor_forbidden)
  id ← random_hex
  let decision = make_decision input value now actor request requirement id
  lift (map_err map_decision_validation_error (validate_decision decision))
  done (record { request = request; requirement = requirement; decision = decision })

unfoldable pub prepare_decision :
    Platform → PolicyConfig → ApprovalDecisionInput → ApprovalDecisionValue → Time → M Prepared
unfolding require lift get_request_by_requirement admit_decision effective_actor_subject
prepare_decision platform config input value now = do
  let requirement_id = new_approval_requirement_id input.requirement_id
  require (not (requirement_id == "")) (governance GovernanceError.invalid_requirement_id)
  actor ← lift (effective_actor_subject input.actor)
  require (not (ltb max_approval_decision_comment_length (len input.comment)))
      (governance GovernanceError.approval_decision_comment_too_long)
  found ← get_request_by_requirement platform requirement_id
  admit_decision platform config input value now actor found.0 found.1
