-- ===== src/Governance/Actor/Resolution.antt =====
-- On whose behalf a request may act.
use proto_radar.Prelude.{String, ◌≡◌, ◌⊎◌, Bool, true, false, trim_space, arith}
use proto_radar.Domain.Errors.{ok}
use proto_radar.Governance.Actor.{
  Principal, GovernanceActor, actor_from_principal, resolve_governance_actor,
}

-- A resolved actor is the principal itself, without an override; or overriding is enabled, and the actor
-- is the requested one, marked as an override of the principal.
pub resolve_governance_actor_cases :
    (p : Principal) (requested : String) (enabled : Bool) (actor : GovernanceActor)
    → resolve_governance_actor p requested enabled ≡ ok actor
    → ((actor.subject ≡ trim_space p.subject) × (actor.is_override ≡ false))
      ⊎ ((enabled ≡ true)
          × (actor.subject ≡ trim_space requested)
          × (actor.is_override ≡ true)
          × (actor.original_subject ≡ trim_space p.subject))
unfolding resolve_governance_actor actor_from_principal
resolve_governance_actor_cases p requested enabled actor h = ground arith
