-- ===== src/Access/Identity.antt =====
-- internal/identity/identity.go and api_token_provider.go, and internal/repository/postgres/api_tokens.go.
-- The keyed hash of a token is a parameter: its code is the standard library's.
use Prim.Native.Nat.{◌/◌}
use proto_radar.Prelude.{
  ◌*◌, String, ◌==◌, Bool, not, ◌||◌, Option, none, some, [], ◌∷◌, ◌++◌, any, find, map,
  if◌then◌else◌, trim_space, strip_prefix,
}
use proto_radar.Domain.Errors.{
  Err, Result, ok, err, domain, DomainError, unauthenticated, is_not_found,
}
use proto_radar.Domain.Records.{Time}
use proto_radar.Domain.Versions.{ApiToken, is_expired}
use proto_radar.Store.Db.{Db, Platform, with_uuid}
use proto_radar.Store.World.{
  World, M, ◌>>=◌, ◌>>◌, done, fail, query, statement, require, map_fault,
}
use proto_radar.Store.Modules.{row_or_not_found}
use proto_radar.Governance.Actor.{Principal}

abbrev pub principal_type_api_token : String
principal_type_api_token = "api_token"

unfoldable pub is_zero : Principal → Bool
is_zero principal = trim_space principal.subject == "" || trim_space principal.kind == ""

-- `AuthRequest`, as far as a provider reads it.
pub record AuthRequest : Type 0 where
  pub authorization_header : String
  pub bearer_token : String

abbrev non_empty : String → Option String
non_empty token = if token == "" then none else some token

unfoldable pub header_token : String → Option String
header_token header = elim (strip_prefix "Bearer " header) [
  | none ↦ none
  | some rest ↦ non_empty (trim_space rest)
]

unfoldable pub bearer : AuthRequest → Option String
unfolding header_token
bearer request =
    let token = trim_space request.bearer_token in
    if token == "" then header_token request.authorization_header else some token

-- A column of times keeps microseconds: what is below them is cut off.
unfoldable pub stored_time : Time → Time
stored_time at = at / 1000 * 1000

abbrev stored_option : Option Time → Option Time
stored_option none = none
stored_option (some at) = some (stored_time at)

abbrev pub stored_token : String → ApiToken → ApiToken
stored_token id token = record token {
  id = id;
  created_at = stored_time token.created_at;
  expires_at = stored_option token.expires_at;
  last_used_at = stored_option token.last_used_at;
}

-- INSERT: the primary key and the unique hash.
unfoldable pub insert_token : Platform → ApiToken → Db → Result Db
unfolding stored_time
insert_token platform token db = with_uuid platform token.id λ id.
    if any (λ (row : ApiToken). row.id == id || row.token_hash == token.token_hash) db.tokens
    then err (domain DomainError.duplicate)
    else ok (record db { tokens = db.tokens ++ stored_token id token ∷ [] })

unfoldable pub create_token : Platform → ApiToken → M (Unit {0})
unfolding insert_token
create_token platform token = statement (insert_token platform token)

unfoldable pub token_with_hash : String → Db → Option ApiToken
token_with_hash hash db = find (λ (row : ApiToken). row.token_hash == hash) db.tokens

unfoldable pub get_token_by_hash : String → M ApiToken
unfolding token_with_hash
get_token_by_hash hash = query λ db. row_or_not_found (token_with_hash hash db)

unfoldable pub get_token_by_id : Platform → String → M ApiToken
get_token_by_id platform id = query λ db.
    with_uuid platform id λ c. row_or_not_found (find (λ (row : ApiToken). row.id == c) db.tokens)

unfoldable pub use_token : String → Time → ApiToken → ApiToken
unfolding stored_time
use_token id at row =
    if row.id == id then record row { last_used_at = some (stored_time at) } else row

unfoldable pub set_used : Platform → String → Time → Db → Result Db
unfolding use_token
set_used platform id at db = with_uuid platform id λ c.
    if any (λ (row : ApiToken). row.id == c) db.tokens
    then ok (record db { tokens = map (use_token c at) db.tokens })
    else err (domain DomainError.not_found)

unfoldable pub mark_used : Platform → String → Time → M (Unit {0})
unfolding set_used
mark_used platform id at = statement (set_used platform id at)

-- An error that is only handed to the observer.
abbrev pub observed_on : Result (Unit {0}) × World → Result (Unit {0}) × World
observed_on (outcome, w) = (ok tt, w)

abbrev pub observed : M (Unit {0}) → M (Unit {0})
observed m = λ w. observed_on (m w)

abbrev pub as_unauthenticated : Err → Err
as_unauthenticated e = if is_not_found e then unauthenticated else e

-- The subject is the name of the token, or its id if that is blank.
unfoldable pub token_principal : ApiToken → Principal
token_principal token =
    let subject = trim_space token.name in
    let shown = if subject == "" then token.id else subject in
    record { subject = shown; display_name = shown; kind = principal_type_api_token }

-- `hash` is `hashToken` with the secret of the provider; the provider has its repository and its clock.
unfoldable pub authenticate : Platform → (String → String) → AuthRequest → Time → M Principal
unfolding require bearer get_token_by_hash mark_used token_principal
authenticate platform hash request now = elim (bearer request) [
  | none ↦ fail unauthenticated
  | some raw ↦ do
    token ← map_fault as_unauthenticated (get_token_by_hash (hash raw))
    require (not (is_expired token now)) unauthenticated
    observed (mark_used platform token.id now)
    done (token_principal token)
]
