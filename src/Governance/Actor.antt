-- ===== src/Governance/Actor.antt =====
-- internal/usecase/governance/actor.go: on whose behalf a governance operation runs.
pub mod Resolution
use proto_radar.Prelude.{String, ◌==◌, Bool, true, false, not, ◌||◌, trim_space, if◌then◌else◌}
use proto_radar.Domain.Errors.{Result, ok, err, governance, GovernanceError, ◌>>=◌}

-- `identity.Principal` of internal/identity/identity.go: its type is a text.
pub record Principal : Type 0 where
  pub subject : String
  pub display_name : String
  pub kind : String

pub data ActorSource : Type 0 where
  principal override : ActorSource

pub record GovernanceActor : Type 0 where
  pub subject : String
  pub display_name : String
  pub source : ActorSource
  pub principal_type : String
  pub is_override : Bool
  pub original_subject : String

unfoldable pub actor_from_principal : Principal → Result GovernanceActor
actor_from_principal p =
    let subject = trim_space p.subject in
    let display_name = trim_space p.display_name in
    if subject == ""
    then err (governance GovernanceError.invalid_approval_actor)
    else ok (record {
      subject = subject;
      display_name = if display_name == "" then subject else display_name;
      source = principal;
      principal_type = trim_space p.kind;
      is_override = false;
      original_subject = "";
    })

-- `enabled`: `ActorOverridePolicy.Enabled`.
unfoldable pub resolve_governance_actor : Principal → String → Bool → Result GovernanceActor
unfolding actor_from_principal
resolve_governance_actor p requested_actor enabled = do
  actor ← actor_from_principal p
  let requested = trim_space requested_actor
  if requested == "" || requested == actor.subject
      then ok actor
      else if not enabled
      then err (governance GovernanceError.governance_actor_override_forbidden)
      else ok (record {
        subject = requested;
        display_name = requested;
        source = override;
        principal_type = actor.principal_type;
        is_override = true;
        original_subject = actor.subject;
      })

unfoldable pub effective_actor_subject : String → Result String
effective_actor_subject actor =
    let subject = trim_space actor in
    if subject == "" then err (governance GovernanceError.invalid_approval_actor) else ok subject
