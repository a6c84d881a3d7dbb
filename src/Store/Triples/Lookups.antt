-- ===== src/Store/Triples/Lookups.antt =====
-- Triples on lookups: a missing row is a branch, and a run that fails can leave no trace.
use proto_radar.Prelude.{
  ◌≡◌, refl, sym, ap, ◌∙◌, subst, Bool, false, Option, some, none, List, inl, inr, Bool-cases,
}
use proto_radar.Domain.Errors.{Err, Result, ok, err, is_not_found}
use proto_radar.Store.Db.{Db}
use proto_radar.Store.World.{
  World, M, call, statement, returning, on_returned, within_transaction, find_row, found_on,
  list_or_empty, list_on,
}
use proto_radar.Store.Triples.{
  Holds, Outcome, Outcome-imp, Keeps, called, holds_imp, holds_statement, holds_within_transaction,
  anything,
}

module _ (P : Db → Type 0) where
  found_keeps :
      {A : Type 0} (r : Result A × World) → Outcome (λ _. P) P r → Outcome (λ _. P) P (found_on r)
  found_keeps (ok a, w) h = h
  found_keeps (err e, w) h = elim (Bool-cases (is_not_found e)) [
    | inl missing ↦ rw missing h
    | inr other ↦ rw other h
  ]

  list_keeps :
      {A : Type 0} (r : Result (List A) × World)
      → Outcome (λ _. P) P r
      → Outcome (λ _. P) P (list_on r)
  list_keeps (ok a, w) h = h
  list_keeps (err e, w) h = elim (Bool-cases (is_not_found e)) [
    | inl missing ↦ rw missing h
    | inr other ↦ rw other h
  ]

  pub found : {A : Type 0} {m : M A} → Keeps P m → Keeps P (find_row m)
  found {A} {m} h = record { runs = λ w p. found_keeps (m w) (h.runs w p) }

  pub listed : {A : Type 0} {m : M (List A)} → Keeps P m → Keeps P (list_or_empty m)
  listed {A} {m} h = record { runs = λ w p. list_keeps (m w) (h.runs w p) }

  pub reads : {A : Type 0} {m : M A} → ((before : Db) → Keeps (λ db. db ≡ before) m) → Keeps P m
  reads {A} {m} h = record {
    runs = λ w p.
        Outcome-imp (λ _ db. db ≡ w.db) (λ db. db ≡ w.db) (λ _. P) P (m w)
          (λ _ db e. subst P (sym e) p) (λ db e. subst P (sym e) p) ((h w.db).runs w refl);
  }

  pub optional-Keeps :
      {A B : Type 0} (row : Option A) (missing : M B) (f : A → M B)
      → Keeps P missing
      → ((a : A) → Keeps P (f a))
      → Keeps P (elim row [ none ↦ missing | some a ↦ f a ])
  optional-Keeps none missing f h k = h
  optional-Keeps (some a) missing f h k = k a

-- Runs that leave the database as it was if they fail.
abbrev pub Undone : {A : Type 0} → Db → M A → Type 0
Undone before m = Holds (λ db. db ≡ before) m (λ _ _. Unit) (λ db. db ≡ before)

pub Keeps-Undone :
    {A : Type 0} {m : M A} (before : Db) → Keeps (λ db. db ≡ before) m → Undone before m
Keeps-Undone before h = holds_imp (λ db e. e) (λ _ db e. tt) (λ db e. e) h

-- A transaction leaves no trace if it fails, whatever it does.
pub transaction-Undone :
    {A : Type 0} (before : Db) (f : Bool → M A) → Undone before (within_transaction false f)
transaction-Undone before f = holds_within_transaction f anything

pub optional-Undone :
    {A B : Type 0} (before : Db) (row : Option A) (missing : M B) (f : A → M B)
    → Undone before missing
    → ((a : A) → Undone before (f a))
    → Undone before (elim row [ none ↦ missing | some a ↦ f a ])
optional-Undone before none missing f h k = h
optional-Undone before (some a) missing f h k = k a

-- INSERT … RETURNING
returned :
    {A : Type 0} (P : Db → Type 0) (f : Db → Result (A × Db)) (w : World)
    (faults : List (Option Err))
    → P w.db
    → (r : Result (A × Db)) → f w.db ≡ r
    → Outcome
        (λ a after. (db : Db) × P db × (f db ≡ ok (a, after)))
        P
        ((on_returned r w.db).0, record w { db = (on_returned r w.db).1; faults = faults })
returned P f w faults p (ok (a, after)) e = (w.db, p, e)
returned P f w faults p (err failure) e = p

pub holds_returning :
    {A : Type 0} {P : Db → Type 0} (f : Db → Result (A × Db))
    → Holds P (returning f) (λ a after. (db : Db) × P db × (f db ≡ ok (a, after))) P
unfolding call
holds_returning {A} {P} f = record {
  runs = λ w p.
      called (Outcome (λ a after. (db : Db) × P db × (f db ≡ ok (a, after))) P)
        (λ db. on_returned (f db) db) w.faults w (λ rest. returned P f w rest p (f w.db) refl)
        (λ e rest. p);
}

-- A hypothesis on some value that the database is read with.
pub holds_some :
    {A B : Type 0} {F : B → Type 0} {P : B → Db → Type 0} {Q : A → Db → Type 0} {E : Db → Type 0}
    {m : M A}
    → ((b : B) → F b → Holds (P b) m Q E)
    → Holds (λ db. (b : B) × F b × P b db) m Q E
holds_some h = record { runs = λ w p. (h p.0 p.1).runs w p.2 }

-- Triples from one database.
pub holds_from :
    {A : Type 0} {P : Db → Type 0} {Q : A → Db → Type 0} {E : Db → Type 0} {m : M A}
    → ((before : Db) → P before → Holds (λ db. db ≡ before) m Q E)
    → Holds P m Q E
holds_from h = record { runs = λ w p. (h w.db p).runs w refl }

pub statement_at :
    (before : Db) (f : Db → Result Db)
    → Holds (λ db. db ≡ before) (statement f) (λ _ after. f before ≡ ok after) (λ _. Unit)
statement_at before f =
    holds_imp (λ db e. e) (λ _ after (db, same, e). ap f (sym same) ∙ e) (λ db e. tt)
      (holds_statement f)

pub returning_at :
    {A : Type 0} (before : Db) (f : Db → Result (A × Db))
    → Holds (λ db. db ≡ before) (returning f) (λ a after. f before ≡ ok (a, after)) (λ _. Unit)
returning_at before f =
    holds_imp (λ db e. e) (λ a after (db, same, e). ap f (sym same) ∙ e) (λ db e. tt)
      (holds_returning f)
