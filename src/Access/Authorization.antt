-- ===== src/Access/Authorization.antt =====
-- internal/authorization/authorization.go. An action is a text.
use proto_radar.Prelude.{String, Bool, List, [], ◌∷◌, mem_text, if◌then◌else◌}
use proto_radar.Domain.Errors.{Result, ok, err, unauthenticated, forbidden}
use proto_radar.Governance.Actor.{Principal}
use proto_radar.Access.Identity.{is_zero}

-- The actions that the community edition allows.
abbrev pub community_actions : List String
community_actions =
    "module:create" ∷ "module:read" ∷ "module:update" ∷ "module:delete" ∷ "module_version:publish"
    ∷ "module_version:read" ∷ "module_version:download" ∷ "module_version:deprecate"
    ∷ "gitlab_mapping:manage" ∷ "gitlab_mapping:read" ∷ "breaking_check:run"
    ∷ "breaking_report:read" ∷ "dependency_graph:read" ∷ "runtime_inventory:report"
    ∷ "runtime_inventory:read" ∷ "governance_owner:manage" ∷ "governance_owner:read"
    ∷ "approval_request:create" ∷ "approval_request:read" ∷ "approval_decision:record"
    ∷ "governance_audit:read" ∷ "edition:read" ∷ []

unfoldable pub community_action_allowed : String → Bool
community_action_allowed action = mem_text action community_actions

-- The community authorizer does not look at the resource.
unfoldable pub authorize : Principal → String → Result (Unit {0})
unfolding is_zero community_action_allowed
authorize principal action =
    if is_zero principal
    then err unauthenticated
    else if community_action_allowed action
    then ok tt
    else err forbidden
