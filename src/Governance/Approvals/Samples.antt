-- ===== src/Governance/Approvals/Samples.antt =====
-- The theorems on approvals at concrete inputs: one module with one owner, and a request with two
-- pending requirements.
use proto_radar.Prelude.{
  String, ◌==◌, ◌≡◌, ◌≢◌, ◌⊎◌, inr, refl, Option, some, none, [], ◌∷◌, arith, eq_iff, if◌then◌else◌,
  trim_space,
}
use proto_radar.Domain.Errors.{ok, governance, GovernanceError}
use proto_radar.Prelude.Sort.{sort_by, text_le}
use proto_radar.Domain.Ids.{
  new_governance_audit_event_id, new_module_id, new_approval_requirement_id,
  new_approval_request_id, new_approval_decision_id,
}
use proto_radar.Prelude.Json.{marshal}
use proto_radar.Store.Plain.{empty_db}
use proto_radar.Events.{new_approval_decision_recorded}
use proto_radar.Store.AuditEvents.{append_audit_event}
use proto_radar.Outbox.Table.{create}
use proto_radar.Domain.Enums.{
  new_governance_audit_event_type, ApprovalDecisionValue, ApprovalRequestStatus,
  ApprovalRequirementStatus, ApprovalRequirementType, GovernanceSubjectType, ModuleOwnerRole,
}
use proto_radar.Domain.Records.{
  validate_decision, Module, ModuleOwner, ApprovalRequest, ApprovalRequirement,
}
use proto_radar.Store.Db.{Db, RequestRow, Platform}
use proto_radar.Store.World.{World, ◌>>=◌, require, lift, call}
use proto_radar.Governance.Policy.{default_policy_config}
use proto_radar.Governance.Approvals.Prepare.{
  ApprovalDecisionInput, Prepared, has_decision_for_requirement, deciding_roles,
}
use proto_radar.Governance.Approvals.Commit.{record_decision, commit_decision}
use proto_radar.Governance.Approvals.Consistency.{IsConsistent}
use proto_radar.Governance.Approvals.Writes.{IsWritten}
use proto_radar.Governance.Approvals.Committed.{IsHeldBack}
use proto_radar.Governance.Approvals.Admitted.{IsAdmitted}
use proto_radar.Governance.Approvals.Integrity.{record_decision-IsConsistent, record_decision_error}
use proto_radar.Governance.Approvals.Interleavings.{
  concurrent_approvals_pending, unprinted_requirement_refused,
}

abbrev pub dashed : String → Option String
dashed s = if s == "q1" then some "q-1" else some s

pub dashed_printed : (s c : String) → dashed s ≡ some c → dashed c ≡ some c
dashed_printed s c h = ground (arith, eq_iff s "q1", eq_iff c "q1", eq_iff c "q-1")

abbrev pub platform : Platform
platform = record {
  uuid = dashed;
  uuid_printed = dashed_printed;
  rfc3339 = λ t. "2026-01-01T00:00:00Z";
}

abbrev pub changed : Module
changed = record {
  id = "m1";
  name = "user-api";
  description = "";
  repository_url = "";
  created_at = 1;
  updated_at = 1;
}

abbrev pub alice : ModuleOwner
alice = record {
  id = "o1";
  module_id = "m1";
  module_name = "user-api";
  subject_type = GovernanceSubjectType.user;
  subject = "alice";
  role = ModuleOwnerRole.owner;
  created_at = 1;
  updated_at = 1;
}

abbrev pub row : RequestRow
row = record {
  id = "r1";
  module_id = "m1";
  breaking_report_id = none;
  target_ref = "main";
  status = ApprovalRequestStatus.pending;
  required_approvals = 2;
  received_approvals = 0;
  created_at = 5;
  updated_at = 5;
}

abbrev pub requirement : String → ApprovalRequirement
requirement id = record {
  id = id;
  approval_request_id = "r1";
  requirement_type = ApprovalRequirementType.module_owner_approval;
  target_module_id = some "m1";
  target_module_name = "user-api";
  required_role = ModuleOwnerRole.owner;
  status = ApprovalRequirementStatus.pending;
  reason = "module_owner_required";
  created_at = 5;
  updated_at = 5;
}

abbrev db : Db
db = record empty_db {
  modules = changed ∷ [];
  owners = alice ∷ [];
  requests = row ∷ [];
  requirements = requirement "q-1" ∷ requirement "q-2" ∷ [];
  versions = [];
  tokens = [];
  services = [];
  deployments = [];
  usages = [];
  dependencies = [];
  unresolved = [];
}

abbrev world : World
world = record {
  db = db;
  faults = [];
  random = ok "d1" ∷ ok "a1" ∷ ok "a2" ∷ [];
  uuids = "e1" ∷ [];
}

db-IsConsistent : IsConsistent platform db.requests db.requirements
db-IsConsistent = record {
  unique_ids = (refl, (refl, tt));
  printed_requests = (refl, tt);
  printed_requirements = (refl, (refl, tt));
  owned = (refl, (refl, tt));
  tallied = (record { status = λ _. refl; required = refl; received = refl }, tt);
}

-- What two commits in a row take from the random source.
abbrev commits : World
commits = record world { random = ok "a1" ∷ ok "a2" ∷ []; uuids = "e1" ∷ "e2" ∷ [] }

abbrev input : String → ApprovalDecisionInput
input id = record { request_id = "r1"; requirement_id = id; actor = "alice"; comment = "fine" }

record_decision-IsConsistent_example :
    IsConsistent platform
      (record_decision platform default_policy_config
        (input "q-1")
        ApprovalDecisionValue.approved
        9
        world).1.db.requests
      (record_decision platform default_policy_config
        (input "q-1")
        ApprovalDecisionValue.approved
        9
        world).1.db.requirements
record_decision-IsConsistent_example =
    record_decision-IsConsistent platform default_policy_config (input "q-1")
      ApprovalDecisionValue.approved 9 world db-IsConsistent

-- The request as it is read, and the decision of alice on one of its requirements.
abbrev loaded : ApprovalRequest
loaded = record {
  id = "r1";
  module_id = "m1";
  module_name = "user-api";
  breaking_report_id = none;
  target_ref = "main";
  status = ApprovalRequestStatus.pending;
  required_approvals = 2;
  received_approvals = 0;
  requirements = requirement "q-1" ∷ requirement "q-2" ∷ [];
  decisions = [];
  created_at = 5;
  updated_at = 5;
}

abbrev prepared : String → Prepared
prepared id = record {
  request = loaded;
  requirement = requirement id;
  decision = record {
    id = if id == "q-1" then "d1" else "d2";
    approval_request_id = "r1";
    requirement_id = id;
    decision = ApprovalDecisionValue.approved;
    decided_by = "alice";
    comment = "fine";
    created_at = 9;
  };
}

unprinted_requirement_refused_example :
    (record_decision platform default_policy_config
      (input "q1")
      ApprovalDecisionValue.approved
      9
      world).0
    ≢ ok loaded
unfolding new_approval_requirement_id trim_space
unprinted_requirement_refused_example =
    unprinted_requirement_refused platform default_policy_config (input "q1")
      ApprovalDecisionValue.approved 9 world "q-1" loaded db-IsConsistent refl
      (ground (arith, eq_iff "q-1" "q1"))

first-IsAdmitted :
    IsAdmitted platform default_policy_config
      (input "q-1")
      ApprovalDecisionValue.approved
      (prepared "q-1")
      db
unfolding new_approval_requirement_id trim_space has_decision_for_requirement deciding_roles sort_by
    text_le new_approval_request_id validate_decision
first-IsAdmitted = record {
  loaded = record {
    row = record { row = row; found = refl; status = refl };
    key = "r1";
    printed = refl;
    requirements = refl;
    decisions = refl;
  };
  expected = inr refl;
  short = ground arith;
  acted = refl;
  some_actor = ground (arith, eq_iff "alice" "");
  some_requirement = ground (arith, eq_iff "q-1" "");
  valid = refl;
  requirement = refl;
  undecided = refl;
  open_request = refl;
  open_requirement = refl;
  allowed = record { target = "m1"; is_target = refl; key = "m1"; printed = refl; granted = refl };
  decides = refl;
  of_request = refl;
  of_requirement = refl;
  named = refl;
  comment = refl;
}

second-IsAdmitted :
    IsAdmitted platform default_policy_config
      (input "q-2")
      ApprovalDecisionValue.approved
      (prepared "q-2")
      db
unfolding new_approval_requirement_id trim_space has_decision_for_requirement deciding_roles sort_by
    text_le new_approval_request_id validate_decision
second-IsAdmitted = record {
  loaded = record {
    row = record { row = row; found = refl; status = refl };
    key = "r1";
    printed = refl;
    requirements = refl;
    decisions = refl;
  };
  expected = inr refl;
  short = ground arith;
  acted = refl;
  some_actor = ground (arith, eq_iff "alice" "");
  some_requirement = ground (arith, eq_iff "q-2" "");
  valid = refl;
  requirement = refl;
  undecided = refl;
  open_request = refl;
  open_requirement = refl;
  allowed = record { target = "m1"; is_target = refl; key = "m1"; printed = refl; granted = refl };
  decides = refl;
  of_request = refl;
  of_requirement = refl;
  named = refl;
  comment = refl;
}

concurrent_approvals_pending_example :
    IsHeldBack
      (prepared "q-1")
      (prepared "q-2")
      (commit_decision platform
        (prepared "q-2")
        10
        (commit_decision platform (prepared "q-1") 9 commits).1).1.db
unfolding commit_decision ◌>>=◌ require lift call marshal new_approval_requirement_id
    new_approval_request_id new_approval_decision_id trim_space sort_by text_le
    new_governance_audit_event_type append_audit_event new_governance_audit_event_id new_module_id
    create new_approval_decision_recorded
concurrent_approvals_pending_example =
    concurrent_approvals_pending platform default_policy_config (input "q-1") (input "q-2")
      (prepared "q-1") (prepared "q-2") 9 10 commits db-IsConsistent first-IsAdmitted
      second-IsAdmitted refl (ground (arith, eq_iff "q-1" "q-2")) refl refl

record_decision_error_example :
    ((record_decision platform default_policy_config
        (input " ")
        ApprovalDecisionValue.approved
        9
        world).1.db
      ≡ db)
    ⊎ ((p : Prepared) × IsAdmitted platform default_policy_config
          (input " ")
          ApprovalDecisionValue.approved
          p
          db
        × IsWritten p 9 db
            (record_decision platform default_policy_config
              (input " ")
              ApprovalDecisionValue.approved
              9
              world).1.db)
unfolding record_decision ◌>>=◌ require lift call new_approval_requirement_id
    new_approval_request_id new_approval_decision_id trim_space sort_by text_le
record_decision_error_example =
    record_decision_error platform default_policy_config (input " ") ApprovalDecisionValue.approved
      9 world (governance GovernanceError.invalid_requirement_id) db-IsConsistent refl

abbrev answered : ApprovalRequest
answered = record loaded {
  received_approvals = 1;
  requirements =
      record (requirement "q-1") { status = ApprovalRequirementStatus.approved; updated_at = 9 }
      ∷ requirement "q-2"
      ∷ [];
  decisions = (prepared "q-1").decision ∷ [];
  updated_at = 9;
}
