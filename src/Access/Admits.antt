-- ===== src/Access/Admits.antt =====
-- internal/identity/api_token_provider.go and the guards of internal/transport/http/server.go: the
-- requests that get through.
use proto_radar.Prelude.{String, ◌≡◌, refl, ap, ◌∙◌, true, false, Option, none, some, List, ◌∷◌}
use proto_radar.Domain.Errors.{Err, Result, ok}
use proto_radar.Domain.Records.{Time}
use proto_radar.Domain.Versions.{ApiToken, is_expired}
use proto_radar.Store.Db.{Platform}
use proto_radar.Store.World.{World, M, ◌>>=◌, call, call_on, require, map_on, then_on}
use proto_radar.Governance.Actor.{Principal}
use proto_radar.Access.Identity.{
  AuthRequest, bearer, token_with_hash, get_token_by_hash, mark_used, observed_on,
  as_unauthenticated, token_principal, is_zero, authenticate,
}
use proto_radar.Access.Authorization.{authorize, community_action_allowed}
use proto_radar.Access.Guards.{serve_on, require_authorization, protected}
use proto_radar.Access.Admission.{
  IsNoted, mark_used_lem, with_token, with_bearer, authenticate-bearer,
}

-- An observed call answers with nothing, whatever happened.
observed_on_ok : (r : Result (Unit {0}) × World) → observed_on r ≡ (ok tt, r.1)
observed_on_ok (outcome, w) = refl

module _ (platform : Platform) (hash : String → String) (request : AuthRequest) (now : Time)
    (raw : String) (token : ApiToken) (w : World) (rest : List (Option Err)) where
  abbrev marked : World
  marked = (mark_used platform token.id now (record w { faults = rest })).1

  marked-IsNoted : IsNoted now w.db marked.db
  marked-IsNoted = (mark_used_lem platform token.id now w.db).runs (record w { faults = rest }) refl

  token_found :
      w.faults ≡ none ∷ rest
      → token_with_hash (hash raw) w.db ≡ some token
      → get_token_by_hash (hash raw) w ≡ (ok token, record w { faults = rest })
  unfolding get_token_by_hash call call_on
  token_found quiet stored = rw (quiet, stored) refl

  with_token_ok :
      is_expired token now ≡ false
      → with_token platform now token (record w { faults = rest })
        ≡ (ok (token_principal token), marked)
  unfolding ◌>>=◌ require
  with_token_ok live = rw live refl

  authenticate_ok :
      w.faults ≡ none ∷ rest
      → bearer request ≡ some raw
      → token_with_hash (hash raw) w.db ≡ some token
      → is_expired token now ≡ false
      → authenticate platform hash request now w ≡ (ok (token_principal token), marked)
  unfolding ◌>>=◌
  authenticate_ok quiet presented stored live =
      ap (λ m. m w) (authenticate-bearer platform hash request now)
      ∙ ap (λ o. with_bearer platform hash now o w) presented
      ∙ ap (λ r. then_on (map_on as_unauthenticated r) (with_token platform now))
          (token_found quiet stored)
      ∙ with_token_ok live

-- A request whose bearer token is stored under its hash, has not expired and names a principal that is
-- not blank gets the answer of the handler for that principal if the edition allows the action and the
-- lookup of the token meets no fault: whatever faults the later calls meet, so also if the last use of
-- the token cannot be noted. Before the handler, the database changed at most in the last use of a token.
pub protected_admits :
    {A : Type 0} (platform : Platform) (hash : String → String) (action : String)
    (next : Principal → M A) (request : AuthRequest) (now : Time) (w : World) (raw : String)
    (token : ApiToken) (rest : List (Option Err))
    → w.faults ≡ none ∷ rest
    → bearer request ≡ some raw
    → token_with_hash (hash raw) w.db ≡ some token
    → is_expired token now ≡ false
    → is_zero (token_principal token) ≡ false
    → community_action_allowed action ≡ true
    → (at : World) × IsNoted now w.db at.db
      × (protected platform hash action next request now w
          ≡ serve_on (next (token_principal token) at))
unfolding protected require_authorization authorize
protected_admits platform hash action next request now w raw token rest quiet presented stored live
      real allowed =
    (
      marked platform hash request now raw token w rest,
      marked-IsNoted platform hash request now raw token w rest,
      rw
          (
            authenticate_ok platform hash request now raw token w rest quiet presented stored live,
            real,
            allowed,
          )
          refl,
    )
