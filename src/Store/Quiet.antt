-- ===== src/Store/Quiet.antt =====
-- Runs without faults: what a lookup answers then.
use proto_radar.Prelude.{◌≡◌, refl, ap, ◌∙◌, Option, none, some, [], arith, inl, inr}
use proto_radar.Domain.Errors.{Result, ok, Result-cases}
use proto_radar.Store.Db.{Db}
use proto_radar.Store.World.{World, M, ◌>>=◌, then_on, query, statement, call, find_row, found_on}
use proto_radar.Store.Modules.{row_or_not_found}

-- No call of the database fails by itself.
abbrev pub IsQuiet : World → Type 0
IsQuiet w = w.faults ≡ []

pub query_quiet : {A : Type 0} (f : Db → Result A) (w : World) → IsQuiet w → query f w ≡ (f w.db, w)
unfolding call
query_quiet f w h = ground (arith, h)

-- A statement that succeeds without faults.
pub statement_quiet :
    (f : Db → Result Db) (w : World)
    → IsQuiet w
    → (statement f w).0 ≡ ok tt
    → (after : Db) × (f w.db ≡ ok after) × (statement f w ≡ (ok tt, record w { db = after }))
unfolding call
statement_quiet f w h done = elim (Result-cases (f w.db)) [
  | inl (after, e) ↦ (after, e, rw (h, e) refl)
  | inr (failure, e) ↦ ground (arith, h, e, done)
]

found_row : {A : Type 0} (o : Option A) (w : World) → found_on (row_or_not_found o, w) ≡ (ok o, w)
found_row none w = refl
found_row (some a) w = refl

pub find_row_quiet :
    {A : Type 0} (f : Db → Result A) (o : Option A) (w : World)
    → IsQuiet w
    → f w.db ≡ row_or_not_found o
    → find_row (query f) w ≡ (ok o, w)
find_row_quiet f o w h e = ap found_on (query_quiet f w h ∙ ap (λ r. (r, w)) e) ∙ found_row o w

pub then_quiet :
    {A B : Type 0} (m : M A) (f : A → M B) (a : A) (w : World)
    → m w ≡ (ok a, w)
    → (m >>= f) w ≡ f a w
unfolding ◌>>=◌
then_quiet m f a w h = ap (λ r. then_on r f) h
