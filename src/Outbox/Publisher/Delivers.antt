-- ===== src/Outbox/Publisher/Delivers.antt =====
-- `PublishOnce` when nothing fails around it: every claimed record is published.
use proto_radar.Prelude.{
  String, eq_refl, ◌≡◌, refl, ◌∙◌, Bool, true, none, List, [], ◌∷◌, All, All-imp, All-map, inl, inr,
  Bool-cases, arith, subst, sym,
}
use proto_radar.Prelude.Int.{ℤ, nonpos, to_ℕ}
use proto_radar.Domain.Errors.{Result, ok}
use proto_radar.Domain.Records.{Time}
use proto_radar.Outbox.Record.{Record}
use proto_radar.Outbox.Table.{
  Table, add_duration, claim_row, claim_rows, claim_pending, due, has_id, update_row,
  update_existing, publish_row, mark_published,
}
use proto_radar.Outbox.Table.Claims.{All-due}
use proto_radar.Outbox.Publisher.Marks.{published}
use proto_radar.Outbox.Publisher.{
  Float64, PublisherOptions, Delivery, Iteration, settle, dispatch_record, publish_records,
  publish_once,
}

published-update_row_other :
    (id rid : String) (now : Time) (table : Table)
    → published id table ≡ true
    → published id (update_row rid (publish_row now) table) ≡ true
unfolding update_row publish_row
published-update_row_other id rid now [] h = h
published-update_row_other id rid now (r ∷ rest) h =
    ground (arith, published-update_row_other id rid now rest)

published-update_row_self :
    (id : String) (now : Time) (table : Table)
    → has_id id table ≡ true
    → published id (update_row id (publish_row now) table) ≡ true
unfolding update_row publish_row
published-update_row_self id now [] h = h
published-update_row_self id now (r ∷ rest) h =
    ground (arith, published-update_row_self id now rest)

has_id-update_publish :
    (id rid : String) (now : Time) (table : Table)
    → has_id id (update_row rid (publish_row now) table) ≡ has_id id table
unfolding update_row publish_row
has_id-update_publish id rid now [] = refl
has_id-update_publish id rid now (r ∷ rest) = ground (arith, has_id-update_publish id rid now rest)

-- Nothing goes wrong around the record.
pub record IsSmooth (d : Delivery) : Type 0 where
  pub running : d.cancelled_before ≡ none
  pub taken : d.error ≡ none
  pub stored : d.fault ≡ none

dispatch_smooth :
    (float : Float64) (options : PublisherOptions) (d : Delivery) (r : Record) (table : Table)
    → IsSmooth d
    → has_id r.id table ≡ true
    → dispatch_record float options d r table ≡ (ok tt, update_row r.id (publish_row d.now) table)
unfolding dispatch_record settle mark_published update_existing
dispatch_smooth float options d r table s h = ground arith

-- Every record of the list is a row of the table.
abbrev AreRows : Table → List Record → Type 0
AreRows table = All λ (r : Record). has_id r.id table ≡ true

AreRows-update :
    (rid : String) (now : Time) (table : Table) (rs : List Record)
    → AreRows table rs
    → AreRows (update_row rid (publish_row now) table) rs
AreRows-update rid now table rs =
    All-imp _ _ (λ r h. has_id-update_publish r.id rid now table ∙ h) rs

module _ (float : Float64) (options : PublisherOptions) (delivery : Record → Delivery) where
  -- The table after the smooth dispatch of one record.
  abbrev after_one : Record → Table → Table
  after_one r table = update_row r.id (publish_row (delivery r).now) table

  publish_records_step :
      (r : Record) (rest : List Record) (table : Table)
      → IsSmooth (delivery r)
      → has_id r.id table ≡ true
      → publish_records float options delivery (r ∷ rest) table
        ≡ publish_records float options delivery rest (after_one r table)
  unfolding publish_records
  publish_records_step r rest table s h =
      ground (arith, dispatch_smooth float options (delivery r) r table s h)

  published-publish_records_mono :
      (id : String) (rs : List Record) (table : Table)
      → All (λ r. IsSmooth (delivery r)) rs
      → AreRows table rs
      → published id table ≡ true
      → published id (publish_records float options delivery rs table).1 ≡ true
  published-publish_records_mono id [] table s a h = unfold publish_records in h
  published-publish_records_mono id (r ∷ rest) table s a h =
      rw (publish_records_step r rest table s.0 a.0) (
        published-publish_records_mono id rest (after_one r table) s.1
          (AreRows-update r.id (delivery r).now table rest a.1)
          (published-update_row_other id r.id (delivery r).now table h))

  publish_records_smooth :
      (rs : List Record) (table : Table)
      → All (λ r. IsSmooth (delivery r)) rs
      → AreRows table rs
      → ((publish_records float options delivery rs table).0 ≡ ok tt)
        × All (λ r. published r.id (publish_records float options delivery rs table).1 ≡ true) rs
  publish_records_smooth [] table s a = unfold publish_records in (refl, tt)
  publish_records_smooth (r ∷ rest) table s a =
      let later = AreRows-update r.id (delivery r).now table rest a.1 in
      let (done, all) = publish_records_smooth rest (after_one r table) s.1 later in
      let first =
        published-publish_records_mono r.id rest (after_one r table) s.1 later
          (published-update_row_self r.id (delivery r).now table a.0) in
      subst
        (λ (out : Result (Unit {0}) × Table).
          (out.0 ≡ ok tt) × All (λ (q : Record). published q.id out.1 ≡ true) (r ∷ rest))
        (sym (publish_records_step r rest table s.0 a.0)) (done, (first, all))

has_id-claim_rows :
    (id : String) (chosen : List Record) (now expires : Time) (table : Table)
    → has_id id (claim_rows chosen now expires table) ≡ has_id id table
unfolding claim_rows claim_row
has_id-claim_rows id chosen now expires [] = refl
has_id-claim_rows id chosen now expires (r ∷ rest) =
    ground (arith, has_id-claim_rows id chosen now expires rest)

AreRows-cons :
    (r : Record) (table : Table) (rs : List Record) → AreRows table rs → AreRows (r ∷ table) rs
AreRows-cons r table = All-imp _ _ (λ s h. ground arith)

AreRows-self : (table : Table) → AreRows table table
AreRows-self [] = tt
AreRows-self (r ∷ rest) =
    (ground (arith, eq_refl r.id), AreRows-cons r rest rest (AreRows-self rest))

-- A claim returns rows of the table that it leaves.
claim_pending-AreRows :
    (locked : String → Bool) (batch_size lease : ℤ) (now : Time) (table : Table)
    → let (records, claimed) = claim_pending locked batch_size lease now table in
      AreRows claimed records
unfolding claim_pending
claim_pending-AreRows locked batch_size lease now table = elim (Bool-cases (nonpos batch_size)) [
  | inl t ↦ rw t tt
  | inr f ↦
      let chosen = due locked (to_ℕ batch_size) now table in
      let expires = add_duration now lease in
      rw f (
        All-map (λ (r : Record). has_id r.id table ≡ true)
          (λ (r : Record). has_id r.id (claim_rows chosen now expires table) ≡ true)
          (claim_row now expires) (λ r h. has_id-claim_rows r.id chosen now expires table ∙ h)
          chosen
          (All-due (λ (r : Record). has_id r.id table ≡ true) locked (to_ℕ batch_size) now table
            (All-imp (λ (r : Record). has_id r.id table ≡ true) _ (λ r h _. h) table
              (AreRows-self table))))
]

-- An iteration of an enabled publisher around which nothing fails ends without error, and every
-- record that it claimed is published in the table that it leaves.
pub publish_once_delivers :
    (float : Float64) (options : PublisherOptions) (it : Iteration) (table : Table)
    → options.enabled ≡ true
    → it.cancelled ≡ none
    → it.claim_fault ≡ none
    → All
        (λ r. IsSmooth (it.delivery r))
        (claim_pending it.locked options.batch_size options.lease_duration it.now table).0
    → ((publish_once float options it table).0 ≡ ok tt)
      × All
          (λ r. published r.id (publish_once float options it table).1 ≡ true)
          (claim_pending it.locked options.batch_size options.lease_duration it.now table).0
unfolding publish_once
publish_once_delivers float options it table on running claimed smooth =
    rw (on, running, claimed)
      (publish_records_smooth float options it.delivery _ _ smooth
        (claim_pending-AreRows it.locked options.batch_size options.lease_duration it.now table))
