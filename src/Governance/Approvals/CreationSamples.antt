-- ===== src/Governance/Approvals/CreationSamples.antt =====
-- The theorems on the creation of an approval request at a concrete breaking report.
use proto_radar.Prelude.{trim_space, ◌≡◌, refl, some, none, [], ◌∷◌}
use proto_radar.Prelude.Sort.{sort_by}
use proto_radar.Prelude.Json.{marshal}
use proto_radar.Store.Plain.{empty_db}
use proto_radar.Store.AuditEvents.{append_audit_event}
use proto_radar.Domain.Errors.{ok, driver}
use proto_radar.Domain.Ids.{
  new_breaking_report_id, new_approval_request_id, new_approval_requirement_id,
}
use proto_radar.Domain.Enums.{BreakingReportStatus, new_governance_audit_event_type}
use proto_radar.Domain.Records.{BreakingReport}
use proto_radar.Store.Db.{Db}
use proto_radar.Store.World.{World, ◌>>=◌, require, lift, call}
use proto_radar.Governance.Policy.{default_policy_config}
use proto_radar.Governance.Approvals.Context.{Providers}
use proto_radar.Governance.Approvals.Create.{
  CreateApprovalRequestInput, create_approval_request_for_breaking_report,
}
use proto_radar.Governance.Approvals.Consistency.{IsConsistent}
use proto_radar.Governance.Approvals.Reads.{ReadOnly}
use proto_radar.Governance.Approvals.Creation.{create_approval_request-IsConsistent}
use proto_radar.Governance.Approvals.CreationErrors.{create_approval_request_error}
use proto_radar.Governance.Approvals.Samples.{platform, changed, alice, row, requirement}

abbrev report : BreakingReport
report = record {
  id = "b1";
  module_id = "m1";
  module_name = "user-api";
  base_version_id = "v1";
  target_ref = "main";
  status = BreakingReportStatus.breaking;
}

-- A request that is there, and a breaking report without one.
abbrev db : Db
db = record empty_db {
  modules = changed ∷ [];
  reports = report ∷ [];
  owners = alice ∷ [];
  requests = row ∷ [];
  requirements = requirement "q-1" ∷ requirement "q-2" ∷ [];
  versions = [];
  tokens = [];
  services = [];
  deployments = [];
  usages = [];
  dependencies = [];
  unresolved = [];
}

abbrev world : World
world = record {
  db = db;
  faults = [];
  random = ok "r2" ∷ ok "q-3" ∷ ok "a1" ∷ [];
  uuids = "e1" ∷ [];
}

abbrev providers : Providers
providers = record { affected = none; runtime = none }

providers-ReadOnly : ReadOnly providers
providers-ReadOnly = record { affected = λ list e. absurd (cc); runtime = λ list e. absurd (cc) }

db-IsConsistent : IsConsistent platform db.requests db.requirements
db-IsConsistent = record {
  unique_ids = (refl, (refl, tt));
  printed_requests = (refl, tt);
  printed_requirements = (refl, (refl, tt));
  owned = (refl, (refl, tt));
  tallied = (record { status = λ _. refl; required = refl; received = refl }, tt);
}

abbrev input : CreateApprovalRequestInput
input = record { breaking_report_id = "b1"; actor = "alice"; target_ref = "" }

create_approval_request-IsConsistent_example :
    IsConsistent platform
      (create_approval_request_for_breaking_report platform providers default_policy_config input 9
        world).1.db.requests
      (create_approval_request_for_breaking_report platform providers default_policy_config input 9
        world).1.db.requirements
create_approval_request-IsConsistent_example =
    create_approval_request-IsConsistent platform providers default_policy_config input 9 world
      providers-ReadOnly db-IsConsistent

-- The connection is lost when the audit event is written, after the request and its requirement.
abbrev broken_world : World
broken_world = record world {
  faults = none ∷ none ∷ none ∷ none ∷ none ∷ none ∷ none ∷ none ∷ some (driver 1) ∷ [];
}

create_approval_request_error_example :
    (create_approval_request_for_breaking_report platform providers default_policy_config input 9
      broken_world).1.db
    ≡ db
unfolding create_approval_request_for_breaking_report ◌>>=◌ require lift call new_breaking_report_id
    trim_space sort_by new_approval_request_id new_approval_requirement_id marshal
    new_governance_audit_event_type append_audit_event
create_approval_request_error_example =
    create_approval_request_error platform providers default_policy_config input 9 broken_world
      (driver 1) providers-ReadOnly refl
