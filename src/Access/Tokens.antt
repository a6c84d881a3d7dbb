-- ===== src/Access/Tokens.antt =====
-- internal/repository/postgres/api_tokens.go: a token that is stored is found by its hash.
use proto_radar.Prelude.{
  String, ◌==◌, ◌≡◌, refl, sym, ap, ◌∙◌, subst, Bool, true, false, ◌||◌, some, List, [], ◌∷◌, ◌++◌,
  any, find, arith, eq_refl, if◌then◌else◌,
}
use proto_radar.Domain.Errors.{Err, Result, ok, err}
use proto_radar.Domain.Versions.{ApiToken}
use proto_radar.Store.Db.{Db, Platform, with_uuid-eq-ok}
use proto_radar.Store.World.{World}
use proto_radar.Store.Modules.{row_or_not_found}
use proto_radar.Store.Quiet.{IsQuiet, query_quiet, statement_quiet}
use proto_radar.Access.Identity.{
  stored_token, insert_token, create_token, get_token_by_hash, token_with_hash,
}

find-new :
    {A : Type 0} (p q : A → Bool) (xs : List A) (y : A)
    → any (λ x. q x || p x) xs ≡ false
    → p y ≡ true
    → find p (xs ++ y ∷ []) ≡ some y
find-new p q [] y none_of h = ground (arith, h)
find-new p q (x ∷ xs) y none_of h =
    ground (arith, none_of, find-new p q xs y (ground (arith, none_of)) h)

-- A guarded insert that succeeded.
guarded_ok :
    {A : Type 0} (b : Bool) (e : Err) (a after : A)
    → (if b then err e else ok a) ≡ ok after
    → (b ≡ false) × (after ≡ a)
guarded_ok true e a after h = ground (arith, h)
guarded_ok false e a after h = (refl, ground (arith, h))

insert_token_ok :
    (platform : Platform) (token : ApiToken) (db after : Db)
    → insert_token platform token db ≡ ok after
    → (id : String) × (platform.uuid token.id ≡ some id)
      × (token_with_hash token.token_hash after ≡ some (stored_token id token))
unfolding insert_token token_with_hash
insert_token_ok platform token db after h =
    let (id, printed, e) = with_uuid-eq-ok platform token.id _ after h in
    let stored : ApiToken = stored_token id token in
    let (none_of, is_after) = guarded_ok _ _ _ after e in
    (
      id,
      printed,
      subst
          (λ (x : Db).
            find (λ (row : ApiToken). row.token_hash == token.token_hash) x.tokens ≡ some stored)
          (sym is_after)
          (find-new (λ (row : ApiToken). row.token_hash == token.token_hash)
            (λ (row : ApiToken). row.id == id) db.tokens stored none_of (eq_refl token.token_hash)),
    )

-- A token that is stored without a fault is what a lookup of its hash then returns, with its id as
-- Postgres prints it and its times cut to microseconds, and the lookup leaves the database as it is.
pub create_token-get_token_by_hash :
    (platform : Platform) (token : ApiToken) (w : World)
    → IsQuiet w
    → (create_token platform token w).0 ≡ ok tt
    → (id : String) × (platform.uuid token.id ≡ some id)
      × (get_token_by_hash token.token_hash (create_token platform token w).1
          ≡ (ok (stored_token id token), (create_token platform token w).1))
unfolding create_token get_token_by_hash
create_token-get_token_by_hash platform token w quiet h =
    let (after, inserted, e) = statement_quiet (insert_token platform token) w quiet h in
    let (id, printed, found) = insert_token_ok platform token w.db after inserted in
    (
      id,
      printed,
      subst
          (λ (r : Result (Unit {0}) × World).
            get_token_by_hash token.token_hash r.1 ≡ (ok (stored_token id token), r.1))
          (sym e)
          (query_quiet (λ db. row_or_not_found (token_with_hash token.token_hash db))
              (record w { db = after }) quiet
            ∙ ap (λ o. (row_or_not_found o, record w { db = after })) found),
    )
