-- ===== src/Store/Triples.antt =====
-- Triples on the functions of the world: from a database with P, a run that returns a value leaves one
-- with Q of that value, and a run that fails leaves one with E. One rule for each way to build a
-- function of the world.
pub mod Lookups
pub mod Outbox
pub mod Each
use proto_radar.Prelude.{
  subst, Bool, true, false, Option, none, some, List, [], ◌∷◌, ◌≡◌, refl, String,
}
use proto_radar.Domain.Errors.{Err, Result, ok, err}
use proto_radar.Store.Db.{Db}
use proto_radar.Store.World.{
  World, M, then_on, ◌>>=◌, ◌>>◌, done, fail, lift, require, map_fault, call, query, statement,
  random_hex, random_uuid, call_on, hex_on, uuid_on, within_transaction, on_result, map_on,
  roll_back, reach_db,
}

abbrev pub Outcome : {A : Type 0} → (A → Db → Type 0) → (Db → Type 0) → Result A × World → Type 0
Outcome Q E (ok a, w) = Q a w.db
Outcome Q E (err e, w) = E w.db

pub record Holds {A : Type 0} (P : Db → Type 0) (m : M A) (Q : A → Db → Type 0) (E : Db → Type 0)
    : Type 0 where
  pub runs : (w : World) → P w.db → Outcome Q E (m w)

module _ {A : Type 0} (Q : A → Db → Type 0) (E : Db → Type 0) where
  pub Outcome-imp :
      (R : A → Db → Type 0) (F : Db → Type 0) (r : Result A × World)
      → ((a : A) (db : Db) → Q a db → R a db)
      → ((db : Db) → E db → F db)
      → Outcome Q E r
      → Outcome R F r
  Outcome-imp R F (ok a, w) f g h = f a w.db h
  Outcome-imp R F (err e, w) f g h = g w.db h

  -- What holds of the value that a run returned.
  pub outcome_ok : (r : Result A × World) (a : A) → Outcome Q E r → r.0 ≡ ok a → Q a r.1.db
  outcome_ok (ok b, w) a h e = subst (λ x. Q x w.db) (cc) h
  outcome_ok (err e, w) a h k = cc

  -- What holds after a run that failed.
  pub outcome_err : (r : Result A × World) (e : Err) → Outcome Q E r → r.0 ≡ err e → E r.1.db
  outcome_err (ok a, w) e h k = cc
  outcome_err (err f, w) e h k = h

-- What holds of the database either way.
pub outcome_both :
    {A : Type 0} (I : Db → Type 0) (r : Result A × World) → Outcome (λ _. I) I r → I r.1.db
outcome_both I (ok a, w) h = h
outcome_both I (err e, w) h = h

module _ {A B : Type 0} (Q : A → Db → Type 0) (R : B → Db → Type 0) (E : Db → Type 0) where
  Outcome-then :
      (r : Result A × World) (f : A → M B)
      → Outcome Q E r
      → ((a : A) → Holds (Q a) (f a) R E)
      → Outcome R E (then_on r f)
  Outcome-then (ok a, w) f h k = (k a).runs w h
  Outcome-then (err e, w) f h k = h

module _ {A B : Type 0} {P : Db → Type 0} {Q : A → Db → Type 0} {R : B → Db → Type 0}
    {E : Db → Type 0} where
  pub holds_then :
      {m : M A} {f : A → M B}
      → Holds P m Q E
      → ((a : A) → Holds (Q a) (f a) R E)
      → Holds P (m >>= f) R E
  unfolding ◌>>=◌
  holds_then {m} {f} h k = record { runs = λ w p. Outcome-then Q R E (m w) f (h.runs w p) k }

module _ {A : Type 0} {P P' : Db → Type 0} {Q R : A → Db → Type 0} {E F : Db → Type 0} where
  -- The rule of consequence.
  pub holds_imp :
      {m : M A}
      → ((db : Db) → P' db → P db)
      → ((a : A) (db : Db) → Q a db → R a db)
      → ((db : Db) → E db → F db)
      → Holds P m Q E
      → Holds P' m R F
  holds_imp {m} before after failed h = record {
    runs = λ w p. Outcome-imp Q E R F (m w) after failed (h.runs w (before w.db p));
  }

-- A call of the database: what it does, or a fault.
pub called :
    {A : Type 0} (T : Result A × World → Type 0) (f : Db → Result A × Db)
    (faults : List (Option Err)) (w : World)
    → ((rest : List (Option Err)) → T ((f w.db).0, record w { db = (f w.db).1; faults = rest }))
    → ((e : Err) (rest : List (Option Err)) → T (err e, record w { faults = rest }))
    → T (call_on f faults w)
unfolding call_on
called T f [] w runs faulty = runs w.faults
called T f (none ∷ rest) w runs faulty = runs rest
called T f (some e ∷ rest) w runs faulty = faulty e rest

module _ {A : Type 0} (P : Db → Type 0) where
  lifted : (r : Result A) (w : World) → P w.db → Outcome (λ a db. P db × (r ≡ ok a)) P (r, w)
  lifted (ok a) w p = (p, refl)
  lifted (err e) w p = p

  queried :
      (f : Db → Result A) (w : World) (faults : List (Option Err))
      → P w.db
      → (r : Result A) → f w.db ≡ r
      → Outcome (λ a db. P db × (f db ≡ ok a)) P (r, record w { faults = faults })
  queried f w faults p (ok a) e = (p, e)
  queried f w faults p (err failure) e = p

module _ {A : Type 0} {P : Db → Type 0} where
  pub holds_done : (a : A) → Holds P (done a) (λ b db. P db × (a ≡ b)) P
  holds_done a = record { runs = λ w p. (p, refl) }

  pub holds_fail : {Q : A → Db → Type 0} (e : Err) → Holds P (fail e) Q P
  holds_fail e = record { runs = λ w p. p }

  pub holds_lift : (r : Result A) → Holds P (lift r) (λ a db. P db × (r ≡ ok a)) P
  unfolding lift
  holds_lift r = record { runs = lifted P r }

  pub holds_query : (f : Db → Result A) → Holds P (query f) (λ a db. P db × (f db ≡ ok a)) P
  unfolding call
  holds_query f = record {
    runs = λ w p.
        called (Outcome (λ a db. P db × (f db ≡ ok a)) P) (λ db. (f db, db)) w.faults w
          (λ rest. queried P f w rest p (f w.db) refl) (λ e rest. p);
  }

-- What a statement leaves, from the database it found.
abbrev pub After : (Db → Type 0) → (Db → Result Db) → Db → Type 0
After P f after = (db : Db) × P db × (f db ≡ ok after)

module _ (P : Db → Type 0) where
  stated :
      (f : Db → Result Db) (w : World) (faults : List (Option Err))
      → P w.db
      → (r : Result Db) → f w.db ≡ r
      → Outcome
          (λ _. After P f)
          P
          ((on_result r w.db).0, record w { db = (on_result r w.db).1; faults = faults })
  stated f w faults p (ok after) e = (w.db, p, e)
  stated f w faults p (err failure) e = p

  hex_keeps :
      (answers : List (Result String)) (w : World) → P w.db → Outcome (λ _. P) P (hex_on answers w)
  unfolding hex_on
  hex_keeps [] w p = p
  hex_keeps (ok a ∷ rest) w p = p
  hex_keeps (err e ∷ rest) w p = p

  uuid_keeps : (answers : List String) (w : World) → P w.db → Outcome (λ _. P) P (uuid_on answers w)
  unfolding uuid_on
  uuid_keeps [] w p = p
  uuid_keeps (id ∷ rest) w p = p

module _ {P : Db → Type 0} where
  pub holds_require : (b : Bool) (e : Err) → Holds P (require b e) (λ _ db. P db × (b ≡ true)) P
  unfolding require
  holds_require true e = record { runs = λ w p. (p, refl) }
  holds_require false e = record { runs = λ w p. p }

  pub holds_statement : (f : Db → Result Db) → Holds P (statement f) (λ _. After P f) P
  unfolding call
  holds_statement f = record {
    runs = λ w p.
        called (Outcome (λ _. After P f) P) (λ db. on_result (f db) db) w.faults w
          (λ rest. stated P f w rest p (f w.db) refl) (λ e rest. p);
  }

  pub holds_random_hex : Holds P random_hex (λ _. P) P
  unfolding random_hex
  holds_random_hex = record { runs = λ w p. hex_keeps P w.random w p }

  pub holds_random_uuid : Holds P random_uuid (λ _. P) P
  unfolding random_uuid
  holds_random_uuid = record { runs = λ w p. uuid_keeps P w.uuids w p }

  reach_db_keeps : Holds P reach_db (λ _. P) P
  unfolding call
  reach_db_keeps = record {
    runs =
        λ w p. called (Outcome (λ _. P) P) (λ db. (ok tt, db)) w.faults w (λ rest. p) (λ e rest. p);
  }

module _ {A : Type 0} (Q : A → Db → Type 0) (E : Db → Type 0) where
  mapped : (f : Err → Err) (r : Result A × World) → Outcome Q E r → Outcome Q E (map_on f r)
  mapped f (ok a, w) h = h
  mapped f (err e, w) h = h

  rolled :
      (P : Db → Type 0) (before : Db) (r : Result A × World)
      → P before
      → Outcome Q E r
      → Outcome Q P (roll_back before r)
  rolled P before (ok a, w) p h = h
  rolled P before (err e, w) p h = p

module _ {A : Type 0} {P : Db → Type 0} {Q : A → Db → Type 0} {E : Db → Type 0} where
  pub holds_map_fault : {m : M A} (f : Err → Err) → Holds P m Q E → Holds P (map_fault f m) Q E
  holds_map_fault {m} f h = record { runs = λ w p. mapped Q E f (m w) (h.runs w p) }

-- A rule whose failure says nothing.
forget :
    {A : Type 0} {P E : Db → Type 0} {Q : A → Db → Type 0} {m : M A}
    → Holds P m Q E
    → Holds P m Q (λ _. Unit)
forget h = holds_imp (λ db p. p) (λ a db q. q) (λ db e. tt) h

-- A transaction that fails leaves the database as it was.
pub holds_within_transaction :
    {A : Type 0} {P : Db → Type 0} {Q : A → Db → Type 0} (f : Bool → M A)
    → Holds P (f true) Q (λ _. Unit)
    → Holds P (within_transaction false f) Q P
unfolding within_transaction
holds_within_transaction {A} {P} {Q} f h = record {
  runs = λ w p.
      rolled Q (λ _. Unit) P w.db _ p
        ((holds_then (forget reach_db_keeps) (λ _.
            holds_then h
              (λ a. holds_then (forget reach_db_keeps) (λ _. record { runs = λ w q. q })))).runs
          w p);
}

-- In a transaction already begun, the caller's one goes on.
pub holds_joined :
    {A : Type 0} {P E : Db → Type 0} {Q : A → Db → Type 0} (f : Bool → M A)
    → Holds P (f true) Q E
    → Holds P (within_transaction true f) Q E
unfolding within_transaction
holds_joined f h = h

-- Runs that leave what holds of the database as it is, whatever they return.
abbrev pub Keeps : {A : Type 0} → (Db → Type 0) → M A → Type 0
Keeps P m = Holds P m (λ _. P) P

module _ {A : Type 0} {P : Db → Type 0} where
  pub Keeps-done : (a : A) → Keeps P (done a)
  Keeps-done a = record { runs = λ w p. p }

  pub Keeps-lift : (r : Result A) → Keeps P (lift r)
  Keeps-lift r = holds_imp (λ db p. p) (λ a db q. q.0) (λ db e. e) (holds_lift r)

  pub Keeps-query : (f : Db → Result A) → Keeps P (query f)
  Keeps-query f = holds_imp (λ db p. p) (λ a db q. q.0) (λ db e. e) (holds_query f)

pub Keeps-require : {P : Db → Type 0} (b : Bool) (e : Err) → Keeps P (require b e)
Keeps-require b e = holds_imp (λ db p. p) (λ a db q. q.0) (λ db e. e) (holds_require b e)

-- A statement that changes nothing of what P looks at.
pub Keeps-statement :
    {P : Db → Type 0} (f : Db → Result Db)
    → ((db after : Db) → f db ≡ ok after → P db → P after)
    → Keeps P (statement f)
Keeps-statement f frame =
    holds_imp (λ db p. p) (λ a db q. frame q.0 db q.2 q.1) (λ db e. e) (holds_statement f)

-- A guard and a pure result, whose success is a hypothesis of what follows.
module _ {B : Type 0} {P : Db → Type 0} {R : B → Db → Type 0} {E : Db → Type 0} where
  pub then_require :
      (b : Bool) (e : Err) (k : M B)
      → ((db : Db) → P db → E db)
      → (b ≡ true → Holds P k R E)
      → Holds P (require b e >> k) R E
  unfolding require ◌>>=◌
  then_require true e k failed h = record { runs = λ w p. (h refl).runs w p }
  then_require false e k failed h = record { runs = λ w p. failed w.db p }

  pub then_lift :
      {A : Type 0} (r : Result A) (f : A → M B)
      → ((db : Db) → P db → E db)
      → ((a : A) → r ≡ ok a → Holds P (f a) R E)
      → Holds P (lift r >>= f) R E
  unfolding lift ◌>>=◌
  then_lift (ok a) f failed h = record { runs = λ w p. (h a refl).runs w p }
  then_lift (err e) f failed h = record { runs = λ w p. failed w.db p }

-- A weaker statement of what a failure leaves.
pub holds_weak :
    {A : Type 0} {P : Db → Type 0} {Q : A → Db → Type 0} {E F : Db → Type 0} {m : M A}
    → ((db : Db) → E db → F db)
    → Holds P m Q E
    → Holds P m Q F
holds_weak failed h = holds_imp (λ db p. p) (λ a db q. q) failed h

-- A hypothesis that does not speak of the database.
pub holds_given :
    {A : Type 0} {F : Type 0} {P : Db → Type 0} {Q : A → Db → Type 0} {E : Db → Type 0} {m : M A}
    → (F → Holds P m Q E)
    → Holds (λ db. P db × F) m Q E
holds_given h = record { runs = λ w p. (h p.1).runs w p.0 }

-- A run of which nothing is said.
pub anything : {A : Type 0} {P : Db → Type 0} {m : M A} → Holds P m (λ _ _. Unit) (λ _. Unit)
anything {m} = record { runs = λ w p. trivial (m w) }
  where
    trivial : {A : Type 0} (r : Result A × World) → Outcome {A = A} (λ _ _. Unit) (λ _. Unit) r
    trivial (ok a, w) = tt
    trivial (err e, w) = tt

-- A value that a run returned is what it answered in some world that had P.
abbrev pub Answered : {A : Type 0} → (Db → Type 0) → M A → A → Type 0
Answered P m a = (w : World) × P w.db × ((m w).0 ≡ ok a)

module _ {A : Type 0} (P E : Db → Type 0) (Q : A → Db → Type 0) (m : M A) where
  answered :
      (w : World)
      → P w.db
      → (r : Result A × World) → (m w).0 ≡ r.0
      → Outcome Q E r
      → Outcome (λ a db. Q a db × Answered P m a) E r
  answered w p (ok a, v) e h = (h, (w, p, e))
  answered w p (err failure, v) e h = h

pub holds_answered :
    {A : Type 0} {P E : Db → Type 0} {Q : A → Db → Type 0} {m : M A}
    → Holds P m Q E
    → Holds P m (λ a db. Q a db × Answered P m a) E
holds_answered {A} {P} {E} {Q} {m} h = record {
  runs = λ w p. answered P E Q m w p (m w) refl (h.runs w p);
}
