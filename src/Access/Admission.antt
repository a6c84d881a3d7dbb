-- ===== src/Access/Admission.antt =====
-- internal/identity/api_token_provider.go and the guards of internal/transport/http/server.go, together.
use proto_radar.Prelude.{
  String, ◌≡◌, refl, sym, ap, ◌∙◌, subst, Bool, true, false, not, Option, none, some, map, ◌⊎◌, inl,
  inr, Bool-cases, arith,
}
use proto_radar.Domain.Errors.{Result, ok, err, unauthenticated}
use proto_radar.Domain.Records.{Time}
use proto_radar.Domain.Versions.{ApiToken, is_expired}
use proto_radar.Store.Db.{Db, Platform, with_uuid-eq-ok}
use proto_radar.Store.World.{World, M, ◌>>=◌, ◌>>◌, fail, done, require, map_fault}
use proto_radar.Store.Modules.{row_or_not_found}
use proto_radar.Store.Triples.{
  Holds, Outcome, holds_then, holds_imp, holds_fail, holds_query, holds_statement, holds_map_fault,
  then_require,
}
use proto_radar.Governance.Actor.{Principal}
use proto_radar.Access.Identity.{
  AuthRequest, bearer, token_with_hash, get_token_by_hash, use_token, set_used, mark_used, observed,
  observed_on, as_unauthenticated, token_principal, is_zero, authenticate,
}
use proto_radar.Access.Authorization.{authorize, community_action_allowed}
use proto_radar.Access.Guards.{
  Answer, refused, served, authenticated_on, require_authorization, protected,
}

-- At most the last use of one token was noted.
abbrev pub IsNoted : Time → Db → Db → Type 0
IsNoted now before after =
    (after ≡ before)
    ⊎ ((id : String) × (after ≡ record before { tokens = map (use_token id now) before.tokens }))

-- The bearer's token is stored, was not expired, and names the principal.
pub record IsIdentified (hash : String → String) (request : AuthRequest) (now : Time) (before : Db)
    (principal : Principal) (after : Db) : Type 0 where
  pub raw : String
  pub presented : bearer request ≡ some raw
  pub token : ApiToken
  pub stored : token_with_hash (hash raw) before ≡ some token
  pub live : is_expired token now ≡ false
  pub named : token_principal token ≡ principal
  pub noted : IsNoted now before after

set_used_ok :
    (platform : Platform) (id : String) (now : Time) (before after : Db)
    → set_used platform id now before ≡ ok after
    → IsNoted now before after
unfolding set_used
set_used_ok platform id now before after h =
    let (c, printed, e) = with_uuid-eq-ok platform id _ after h in inr (c, ground (arith, e))

observed_lem :
    (now : Time) (before : Db) (E : Db → Type 0) (r : Result (Unit {0}) × World)
    → Outcome (λ _. IsNoted now before) (λ db. db ≡ before) r
    → Outcome (λ _. IsNoted now before) E (observed_on r)
observed_lem now before E (ok a, w) h = h
observed_lem now before E (err e, w) h = inl h

pub mark_used_lem :
    (platform : Platform) (id : String) (now : Time) (before : Db)
    → Holds
        (λ db. db ≡ before)
        (observed (mark_used platform id now))
        (λ _. IsNoted now before)
        (λ db. db ≡ before)
unfolding mark_used
mark_used_lem platform id now before = record {
  runs = λ w p.
      observed_lem now before (λ db. db ≡ before) (mark_used platform id now w)
        ((holds_imp {m = mark_used platform id now} (λ db e. e)
            (λ _ after (db, same, e).
              set_used_ok platform id now before after
                (ap (set_used platform id now) (sym same) ∙ e))
            (λ db e. e) (holds_statement (set_used platform id now))).runs
          w p);
}

row_found : {A : Type 0} (o : Option A) (a : A) → row_or_not_found o ≡ ok a → o ≡ some a
row_found none a h = ground (arith, h)
row_found (some b) a h = ground (arith, h)

not-true : (b : Bool) → not b ≡ true → b ≡ false
not-true true h = ground (arith, h)
not-true false h = refl

-- What follows once the token is known, and once the bearer is.
abbrev pub with_token : Platform → Time → ApiToken → M Principal
with_token platform now token = do
  require (not (is_expired token now)) unauthenticated
  observed (mark_used platform token.id now)
  done (token_principal token)

abbrev pub with_bearer : Platform → (String → String) → Time → Option String → M Principal
with_bearer platform hash now none = fail unauthenticated
with_bearer platform hash now (some raw) =
    map_fault as_unauthenticated (get_token_by_hash (hash raw)) >>= with_token platform now

pub authenticate-bearer :
    (platform : Platform) (hash : String → String) (request : AuthRequest) (now : Time)
    → authenticate platform hash request now ≡ with_bearer platform hash now (bearer request)
unfolding authenticate
authenticate-bearer platform hash request now = by_cases (bearer request)
  where
    by_cases :
        (o : Option String)
        → elim o [
          | none ↦ fail unauthenticated
          | some raw ↦
              map_fault as_unauthenticated (get_token_by_hash (hash raw))
              >>= with_token platform now
        ]
          ≡ with_bearer platform hash now o
    by_cases none = refl
    by_cases (some raw) = refl

module _ (platform : Platform) (hash : String → String) (request : AuthRequest) (now : Time)
    (before : Db) where
  with_token-IsIdentified :
      (raw : String) (token : ApiToken)
      → bearer request ≡ some raw
      → token_with_hash (hash raw) before ≡ some token
      → Holds
          (λ db. db ≡ before)
          (with_token platform now token)
          (IsIdentified hash request now before)
          (λ db. db ≡ before)
  with_token-IsIdentified raw token presented stored =
      then_require (not (is_expired token now)) unauthenticated _ (λ db e. e)
        (λ live. holds_then (mark_used_lem platform token.id now before) (λ _. record {
          runs = λ w noted. record {
            raw = raw;
            presented = presented;
            token = token;
            stored = stored;
            live = not-true (is_expired token now) live;
            named = refl;
            noted = noted;
          };
        }))

  bearer-IsIdentified :
      (o : Option String)
      → bearer request ≡ o
      → Holds
          (λ db. db ≡ before)
          (with_bearer platform hash now o)
          (IsIdentified hash request now before)
          (λ db. db ≡ before)
  unfolding get_token_by_hash
  bearer-IsIdentified none presented = holds_fail unauthenticated
  bearer-IsIdentified (some raw) presented =
      holds_then (holds_map_fault as_unauthenticated (holds_query _)) (λ token. record {
        runs = λ w (same, found).
            (with_token-IsIdentified raw token presented (
                row_found _ token (
                  subst (λ db. row_or_not_found (token_with_hash (hash raw) db) ≡ ok token) same
                    found))).runs
              w same;
      })

  authenticate-IsIdentified :
      Holds
        (λ db. db ≡ before)
        (authenticate platform hash request now)
        (IsIdentified hash request now before)
        (λ db. db ≡ before)
  authenticate-IsIdentified =
      subst
        (λ m.
          Holds (λ db. db ≡ before) m (IsIdentified hash request now before) (λ db. db ≡ before))
        (sym (authenticate-bearer platform hash request now))
        (bearer-IsIdentified (bearer request) refl)

-- The principal may do the action, and the token says who it is.
abbrev pub IsAdmitted :
    (String → String) → AuthRequest → Time → String → Db → Principal → Db → Type 0
IsAdmitted hash request now action before principal after =
    IsIdentified hash request now before principal after
    × (is_zero principal ≡ false)
    × (community_action_allowed action ≡ true)

-- The handler ran as its last step, for an admitted principal; or nothing ran, and at most the last use
-- of a token was noted.
abbrev pub Guarded :
    {A : Type 0}
    → (String → String)
    → AuthRequest
    → Time
    → String
    → (Principal → M A)
    → Db
    → Answer A × World
    → Type 0
Guarded hash request now action next before (served outcome, w) =
    (principal : Principal) × (at : World) × IsAdmitted hash request now action before principal
      at.db
    × (next principal at ≡ (outcome, w))
Guarded hash request now action next before (refused status, w) =
    IsNoted now before w.db × ((status ≡ 401) ⊎ (status ≡ 403))

module _ {A : Type 0} (hash : String → String) (request : AuthRequest) (now : Time)
    (action : String) (next : Principal → M A) (before : Db) where
  require_authorization-Guarded :
      (principal : Principal) (w : World)
      → IsIdentified hash request now before principal w.db
      → Guarded hash request now action next before (require_authorization action next principal w)
  unfolding require_authorization authorize
  require_authorization-Guarded principal w identified = elim (Bool-cases (is_zero principal)) [
    | inl zero ↦ rw zero (identified.noted, inl refl)
    | inr real ↦ elim (Bool-cases (community_action_allowed action)) [
      | inl allowed ↦ rw (real, allowed) (principal, w, (identified, real, allowed), refl)
      | inr other ↦ rw (real, other) (identified.noted, inr refl)
    ]
  ]

  authenticated_on-Guarded :
      (r : Result Principal × World)
      → Outcome (IsIdentified hash request now before) (λ db. db ≡ before) r
      → Guarded hash request now action next before
          (authenticated_on r (require_authorization action next))
  authenticated_on-Guarded (ok principal, w) h = require_authorization-Guarded principal w h
  authenticated_on-Guarded (err e, w) h = (inl h, inl refl)

-- A guarded handler runs only for a request whose bearer token is stored under its hash and had not
-- expired, as the principal that the token names, and for an action of the community edition; what it
-- answers is then the answer. Otherwise the request is refused with 401 or 403. Before the handler, or
-- when it does not run, the database changed at most in the last use of a token.
pub protected-Guarded :
    {A : Type 0} (platform : Platform) (hash : String → String) (action : String)
    (next : Principal → M A) (request : AuthRequest) (now : Time) (w : World)
    → Guarded hash request now action next w.db (protected platform hash action next request now w)
unfolding protected
protected-Guarded platform hash action next request now w =
    authenticated_on-Guarded hash request now action next w.db
      (authenticate platform hash request now w)
      ((authenticate-IsIdentified platform hash request now w.db).runs w refl)
