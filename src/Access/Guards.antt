-- ===== src/Access/Guards.antt =====
-- internal/transport/http/server.go: the guards in front of the handlers. A handler is a function of the
-- world that is given the principal.
use proto_radar.Prelude.{ℕ, String, ◌==◌, Bool, false, ◌||◌, none, some, if◌then◌else◌}
use proto_radar.Domain.Errors.{Err, Result, ok, err, unauthenticated}
use proto_radar.Domain.Records.{Time}
use proto_radar.Store.Db.{Platform}
use proto_radar.Store.World.{World, M}
use proto_radar.Governance.Actor.{Principal}
use proto_radar.Access.Identity.{AuthRequest, authenticate, is_zero, header_token}
use proto_radar.Access.Authorization.{authorize}

-- What a request gets: the answer of the handler, or an error with its status.
pub data Answer (A : Type 0) : Type 0 where
  refused : ℕ → Answer A
  served : Result A → Answer A

abbrev pub serve_on : {A : Type 0} → Result A × World → Answer A × World
serve_on (outcome, w) = (served outcome, w)

-- `writeAuthorizationError`
abbrev pub authorization_status : Err → ℕ
authorization_status unauthenticated = 401
authorization_status _ = 403

abbrev pub authorized_on :
    {A : Type 0} → Result (Unit {0}) → (World → Answer A × World) → World → Answer A × World
authorized_on (ok _) next w = next w
authorized_on (err e) next w = (refused (authorization_status e), w)

-- The principal comes from the context, where a zero one counts as missing.
unfoldable pub require_authorization :
    {A : Type 0} → String → (Principal → M A) → Principal → World → Answer A × World
unfolding is_zero authorize
require_authorization action next principal w =
    if is_zero principal
    then (refused 401, w)
    else authorized_on (authorize principal action) (λ v. serve_on (next principal v)) w

abbrev pub authenticated_on :
    {A : Type 0}
    → Result Principal × World
    → (Principal → World → Answer A × World)
    → Answer A × World
authenticated_on (ok principal, w) next = next principal w
authenticated_on (err e, w) next = (refused 401, w)

-- `requireBearer` around `requireAuthorization`.
unfoldable pub protected :
    {A : Type 0}
    → Platform
    → (String → String)
    → String
    → (Principal → M A)
    → AuthRequest
    → Time
    → World
    → Answer A × World
unfolding authenticate require_authorization
protected platform hash action next request now w =
    authenticated_on (authenticate platform hash request now w) (require_authorization action next)

-- `sameToken`
unfoldable pub same_token : String → String → Bool
same_token got want = if got == "" || want == "" then false else got == want

unfoldable pub require_bootstrap_token :
    {A : Type 0} → String → String → M A → World → Answer A × World
unfolding same_token header_token
require_bootstrap_token bootstrap_token header next w = elim (header_token header) [
  | none ↦ (refused 401, w)
  | some token ↦ if same_token token bootstrap_token then serve_on (next w) else (refused 401, w)
]
