-- ===== src/Inventory/Services.antt =====
-- UpsertRuntimeServiceByName as a map from names to services.
use proto_radar.Prelude.{
  String, ◌==◌, ◌≡◌, refl, ap, ◌∙◌, false, Option, none, some, List, [], ◌∷◌, ◌++◌, any, find,
  find_passes, map, subst, All, arith, eq_iff, Bool-cases, Option-cases, inl, inr,
}
use proto_radar.Domain.Errors.{Result, ok, err}
use proto_radar.Domain.Records.{Time}
use proto_radar.Domain.Runtime.{RuntimeService}
use proto_radar.Store.Db.{Db, Platform}
use proto_radar.Store.Runtime.{service_with_name, touch_service, upsert_service_row, time_or_now}

abbrev pub service_named : String → List RuntimeService → Option RuntimeService
service_named name = find λ (row : RuntimeService). row.name == name

-- Identifiers are as Postgres prints them.
abbrev pub ArePrinted : Platform → List RuntimeService → Type 0
ArePrinted platform = All λ (row : RuntimeService). platform.uuid row.id ≡ some row.id

named-touch :
    (name other : String) (at : Time) (rows : List RuntimeService)
    → (name == other) ≡ false
    → service_named other (map (touch_service name at) rows) ≡ service_named other rows
unfolding touch_service
named-touch name other at [] h = refl
named-touch name other at (row ∷ rest) h = ground (
  arith,
  named-touch name other at rest h,
  eq_iff row.name name,
  eq_iff row.name other,
  eq_iff name other,
)

touched :
    (name : String) (at : Time) (rows : List RuntimeService) (row : RuntimeService)
    → service_named name rows ≡ some row
    → service_named name (map (touch_service name at) rows) ≡ some (touch_service name at row)
unfolding touch_service
touched name at [] row h = cc
touched name at (r ∷ rest) row h = elim (Bool-cases (r.name == name)) [
  | inl e ↦ ground (arith, e, h)
  | inr e ↦ ground (arith, e, h, touched name at rest row (ground (arith, e, h)))
]

touch-ArePrinted :
    (platform : Platform) (name : String) (at : Time) (rows : List RuntimeService)
    → ArePrinted platform rows
    → ArePrinted platform (map (touch_service name at) rows)
unfolding touch_service
touch-ArePrinted platform name at [] h = tt
touch-ArePrinted platform name at (r ∷ rest) h =
    ground (arith, touch-ArePrinted platform name at rest h.1, h.0)

named-append :
    (name : String) (rows : List RuntimeService) (row : RuntimeService)
    → service_named name rows ≡ none
    → service_named name (rows ++ row ∷ []) ≡ service_named name (row ∷ [])
named-append name [] row h = refl
named-append name (r ∷ rest) row h = ground (arith, named-append name rest row, h)

named_other-append :
    (other : String) (rows : List RuntimeService) (row : RuntimeService)
    → (row.name == other) ≡ false
    → service_named other (rows ++ row ∷ []) ≡ service_named other rows
named_other-append other [] row h = ground (arith, h)
named_other-append other (r ∷ rest) row h = ground (arith, named_other-append other rest row h)

printed_named :
    (platform : Platform) (name : String) (rows : List RuntimeService) (row : RuntimeService)
    → ArePrinted platform rows
    → service_named name rows ≡ some row
    → platform.uuid row.id ≡ some row.id
printed_named platform name [] row h e = cc
printed_named platform name (r ∷ rest) row h e = elim (Bool-cases (r.name == name)) [
  | inl same ↦ ground (arith, same, e, h.0)
  | inr other ↦ printed_named platform name rest row h.1 (ground (arith, other, e))
]

touch_name :
    (name : String) (at : Time) (rows : List RuntimeService) (row : RuntimeService)
    → service_named name rows ≡ some row
    → (touch_service name at row).name ≡ name
touch_name name at rows row h =
    unfold touch_service in
    ground
      (arith, find_passes (λ (r : RuntimeService). r.name == name) rows row h, eq_iff row.name name)

-- The service of the name afterwards, and that of every other name as before.
pub record IsUpserted (platform : Platform) (name : String) (service : RuntimeService)
    (before after : List RuntimeService) : Type 0 where
  pub found : service_named name after ≡ some service
  pub printed : platform.uuid service.id ≡ some service.id
  pub others :
      (other : String)
      → (name == other) ≡ false
      → service_named other after ≡ service_named other before
  pub kept_id : (row : RuntimeService) → service_named name before ≡ some row → service.id ≡ row.id

inserted :
    (platform : Platform) (name id : String) (stored : RuntimeService) (db : Db)
    → stored.name ≡ name
    → stored.id ≡ id
    → platform.uuid id ≡ some id
    → service_named name db.services ≡ none
    → IsUpserted platform name stored db.services (db.services ++ stored ∷ [])
inserted platform name id stored db same printed uuid new = record {
  found = named-append name db.services stored new ∙ ground (arith, same, eq_iff stored.name name);
  printed = rw printed uuid;
  others = λ other different.
      named_other-append other db.services stored (ap (λ n. n == other) same ∙ different);
  kept_id = λ row e. ground (arith, e, new);
}

touched-IsUpserted :
    (platform : Platform) (name : String) (at : Time) (row : RuntimeService)
    (rows : List RuntimeService)
    → ArePrinted platform rows
    → service_named name rows ≡ some row
    → IsUpserted platform name (touch_service name at row) rows (map (touch_service name at) rows)
touched-IsUpserted platform name at row rows p old = record {
  found = touched name at rows row old;
  printed = unfold touch_service in ground (arith, printed_named platform name rows row p old);
  others = λ other different. named-touch name other at rows different;
  kept_id = λ r e. unfold touch_service in ground (arith, e, old);
}

-- What the statement leaves: the services, and nothing else, are changed.
abbrev Upserted : Platform → String → Db → Result (RuntimeService × Db) → Type 0
Upserted platform name db (err e) = Unit
Upserted platform name db (ok (stored, after)) =
    (after ≡ record db { services = after.services })
    × (stored.name ≡ name)
    × IsUpserted platform name stored db.services after.services

pub upsert_service_ok :
    (platform : Platform) (wall : Time) (service stored : RuntimeService) (db after : Db)
    → ArePrinted platform db.services
    → upsert_service_row platform wall service db ≡ ok (stored, after)
    → (after ≡ record db { services = after.services })
      × (stored.name ≡ service.name)
      × IsUpserted platform service.name stored db.services after.services
unfolding upsert_service_row
upsert_service_ok platform wall service stored db after p h =
    elim (Option-cases (platform.uuid service.id)) [
      | inl bad ↦ ground (arith, bad, h)
      | inr (id, uuid) ↦
          let new_row : RuntimeService = record service {
            id = id;
            created_at = time_or_now wall service.created_at;
            updated_at = time_or_now wall service.updated_at;
          } in
          elim (Option-cases (service_with_name service.name db)) [
            | inr (row, old) ↦
                let touch = touch_service service.name (time_or_now wall service.updated_at) in
                let e : ok (touch row, record db { services = map touch db.services })
                    ≡ ok (stored, after) =
                  ground (arith, uuid, old, h) in
                subst (Upserted platform service.name db) e (
                  refl,
                  touch_name service.name (time_or_now wall service.updated_at) db.services row old,
                  touched-IsUpserted platform service.name _ row db.services p old,
                )
            | inl new ↦
                elim (Bool-cases (any (λ (row : RuntimeService). row.id == id) db.services)) [
                  | inl taken ↦ ground (arith, uuid, new, taken, h)
                  | inr free ↦
                      let e : ok (new_row, record db { services = db.services ++ new_row ∷ [] })
                          ≡ ok (stored, after) =
                        ground (arith, uuid, new, free, h) in
                      subst (Upserted platform service.name db) e (
                        refl,
                        refl,
                        inserted platform service.name id new_row db refl refl
                            (platform.uuid_printed service.id id uuid) new,
                      )
                ]
          ]
    ]
