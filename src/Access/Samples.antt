-- ===== src/Access/Samples.antt =====
-- The theorems on the guards at concrete inputs: one token, with a hash that only marks its text.
use proto_radar.Prelude.{String, ◌≡◌, refl, some, none, [], ◌∷◌, trim_space, strip_prefix}
use Prim.Native.String.{◌++◌ as append}
use proto_radar.Domain.Errors.{ok, driver}
use proto_radar.Domain.Versions.{ApiToken}
use proto_radar.Store.Plain.{empty_db, plain_platform}
use proto_radar.Store.Db.{Db, Platform}
use proto_radar.Store.World.{World, M, done, call}
use proto_radar.Governance.Actor.{Principal}
use proto_radar.Access.Identity.{
  create_token, stored_time, get_token_by_hash, AuthRequest, bearer, token_with_hash,
  token_principal, is_zero,
}
use proto_radar.Access.Authorization.{community_action_allowed}
use proto_radar.Access.Guards.{protected, serve_on}
use proto_radar.Access.Admission.{IsNoted, Guarded, protected-Guarded}
use proto_radar.Access.Tokens.{create_token-get_token_by_hash}
use proto_radar.Access.Admits.{protected_admits}

abbrev platform : Platform
platform = plain_platform

abbrev hash : String → String
hash raw = append "#" raw

abbrev token : ApiToken
token = record {
  id = "t1";
  name = "ci";
  token_hash = "#secret";
  created_at = 1;
  expires_at = some 10;
  last_used_at = none;
}

abbrev db : Db
db = record empty_db { tokens = token ∷ [] }

-- The lookup of the token succeeds, the note of its use does not.
abbrev world : World
world = record { db = db; faults = none ∷ some (driver 1) ∷ []; random = []; uuids = [] }

abbrev request : AuthRequest
request = record { authorization_header = "Bearer secret"; bearer_token = "" }

abbrev whoami : Principal → M String
whoami principal = done principal.subject

protected-Guarded_example :
    Guarded hash request 5 "module:read" whoami db
      (protected platform hash "module:read" whoami request 5 world)
protected-Guarded_example = protected-Guarded platform hash "module:read" whoami request 5 world

protected_admits_example :
    (at : World) × IsNoted 5 db at.db
    × (protected platform hash "module:read" whoami request 5 world
        ≡ serve_on (whoami (token_principal token) at))
unfolding bearer token_with_hash token_principal is_zero community_action_allowed trim_space
    strip_prefix
protected_admits_example =
    protected_admits platform hash "module:read" whoami request 5 world "secret" token
      (some (driver 1) ∷ []) refl refl refl refl refl refl

abbrev empty_world : World
empty_world = record { db = empty_db; faults = []; random = []; uuids = [] }

-- A token whose times are in nanoseconds.
abbrev fresh : ApiToken
fresh = record token { created_at = 1234567; expires_at = some 9876543 }

create_token-get_token_by_hash_example :
    (id : String) × (some "t1" ≡ some id)
    × (get_token_by_hash "#secret" (create_token platform fresh empty_world).1 ≡ (
      ok (record token { id = id; created_at = 1234000; expires_at = some 9876000 }),
      (create_token platform fresh empty_world).1,
    ))
unfolding create_token call stored_time
create_token-get_token_by_hash_example =
    create_token-get_token_by_hash platform fresh empty_world refl refl
