-- ===== src/Store/World.antt =====
-- internal/repository/postgres/db.go: how statements and transactions run. A use case is a function of
-- the world: the database, what each of its next calls meets, and the random source.
use proto_radar.Prelude.{
  Bool, true, false, String, Option, none, some, List, [], ◌∷◌, if◌then◌else◌,
}
use proto_radar.Domain.Errors.{Err, Result, ok, err, driver, is_not_found}
use proto_radar.Store.Db.{Db}

-- `faults`: for each next call of the database, the error that keeps it from running; none after the
-- end. `random`: the answers of `randomHex(16)`; `uuids`: those of gen_random_uuid().
pub record World : Type 0 where
  pub db : Db
  pub faults : List (Option Err)
  pub random : List (Result String)
  pub uuids : List String

abbrev pub M {ℓ} : Type ℓ → Type ℓ
M A = World → Result A × World

abbrev pub then_on {ℓ κ} :
    {A : Type ℓ} {B : Type κ} → Result A × World → (A → M B) → Result B × World
then_on (err e, w) f = (err e, w)
then_on (ok a, w) f = f a w

infixl 5 ◌>>=◌ ◌>>◌
unfoldable pub ◌>>=◌ {ℓ κ} : {A : Type ℓ} {B : Type κ} → M A → (A → M B) → M B
m >>= f = λ w. then_on (m w) f

abbrev pub ◌>>◌ {ℓ} : {B : Type ℓ} → M (Unit {0}) → M B → M B
m >> k = m >>= λ _. k

abbrev pub done {ℓ} : {A : Type ℓ} → A → M A
done a w = (ok a, w)

abbrev pub fail {ℓ} : {A : Type ℓ} → Err → M A
fail e w = (err e, w)

unfoldable pub lift {ℓ} : {A : Type ℓ} → Result A → M A
lift r w = (r, w)

-- `if !test { return e }`
unfoldable pub require : Bool → Err → M (Unit {0})
require true e = done tt
require false e = fail e

-- `if err != nil { return f(err) }`
abbrev pub map_on {ℓ} : {A : Type ℓ} → (Err → Err) → Result A × World → Result A × World
map_on f (ok a, w) = (ok a, w)
map_on f (err e, w) = (err (f e), w)

abbrev pub map_fault {ℓ} : {A : Type ℓ} → (Err → Err) → M A → M A
map_fault f m = λ w. map_on f (m w)

-- One call of the database: a pending fault, or what it does.
unfoldable pub call_on {ℓ} :
    {A : Type ℓ} → (Db → Result A × Db) → List (Option Err) → World → Result A × World
call_on f [] w = let (result, db) = f w.db in (result, record w { db = db })
call_on f (none ∷ rest) w =
    let (result, db) = f w.db in (result, record w { db = db; faults = rest })
call_on f (some e ∷ rest) w = (err e, record w { faults = rest })

unfoldable pub call {ℓ} : {A : Type ℓ} → (Db → Result A × Db) → M A
unfolding call_on
call f w = call_on f w.faults w

-- A query, and a statement that changes the database unless it fails.
abbrev pub query {ℓ} : {A : Type ℓ} → (Db → Result A) → M A
query f = call λ db. (f db, db)

abbrev pub on_result : Result Db → Db → Result (Unit {0}) × Db
on_result (ok after) db = (ok tt, after)
on_result (err e) db = (err e, db)

abbrev pub statement : (Db → Result Db) → M (Unit {0})
statement f = call λ db. on_result (f db) db

-- A statement with RETURNING: it answers with what it wrote.
abbrev pub on_returned {ℓ} : {A : Type ℓ} → Result (A × Db) → Db → Result A × Db
on_returned (ok (a, after)) db = (ok a, after)
on_returned (err e) db = (err e, db)

abbrev pub returning {ℓ} : {A : Type ℓ} → (Db → Result (A × Db)) → M A
returning f = call λ db. on_returned (f db) db

-- randomHex(16)
unfoldable pub hex_on : List (Result String) → M String
hex_on [] w = (err (driver 3), w)
hex_on (r ∷ rest) w = (r, record w { random = rest })

unfoldable pub random_hex : M String
unfolding hex_on
random_hex w = hex_on w.random w

-- gen_random_uuid(), the default of outbox_records.id.
unfoldable pub uuid_on : List String → M String
uuid_on [] w = (err (driver 3), w)
uuid_on (id ∷ rest) w = (ok id, record w { uuids = rest })

unfoldable pub random_uuid : M String
unfolding uuid_on
random_uuid w = uuid_on w.uuids w

-- Begin and Commit reach the database, and change nothing by themselves.
abbrev pub reach_db : M (Unit {0})
reach_db = call λ db. (ok tt, db)

-- An error puts the database back to where the transaction began.
abbrev pub roll_back {ℓ} : {A : Type ℓ} → Db → Result A × World → Result A × World
roll_back before (ok a, w) = (ok a, w)
roll_back before (err e, w) = (err e, record w { db = before })

-- `DB.WithinTransaction`; `in_tx`: the context already carries a transaction. An error of Rollback only
-- joins the error that caused it.
unfoldable pub within_transaction {ℓ} : {A : Type ℓ} → Bool → (Bool → M A) → M A
within_transaction true f w = f true w
within_transaction false f w = roll_back w.db ((do reach_db; a ← f true; reach_db; done a) w)

-- `err != nil && !errors.Is(err, domain.ErrNotFound)`: a missing record is an empty list.
abbrev pub list_on {ℓ} : {A : Type ℓ} → Result (List A) × World → Result (List A) × World
list_on (ok list, w) = (ok list, w)
list_on (err e, w) = if is_not_found e then (ok [], w) else (err e, w)

abbrev pub list_or_empty {ℓ} : {A : Type ℓ} → M (List A) → M (List A)
list_or_empty m = λ w. list_on (m w)

-- `errors.Is(err, domain.ErrNotFound)` as a branch.
abbrev pub found_on {ℓ} : {A : Type ℓ} → Result A × World → Result (Option A) × World
found_on (ok a, w) = (ok (some a), w)
found_on (err e, w) = if is_not_found e then (ok none, w) else (err e, w)

abbrev pub find_row {ℓ} : {A : Type ℓ} → M A → M (Option A)
find_row m = λ w. found_on (m w)

-- A loop that stops at the first error.
unfoldable pub each {ℓ} : {A : Type ℓ} → (A → M (Unit {0})) → List A → M (Unit {0})
each f [] = done tt
each f (a ∷ rest) = f a >> each f rest
