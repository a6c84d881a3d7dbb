-- ===== src/Outbox/Publisher/Marks.antt =====
-- `PublishOnce` and `dispatchRecord`: which rows an iteration marks as published, failed or dead.
use proto_radar.Prelude.{
  Option-cases, inr, ℕ, String, ◌==◌, eq_iff, ◌≡◌, ◌⊎◌, Bool, true, false, ◌&&◌, Option, some, none,
  List, [], ◌∷◌, any, inl, arith,
}
use proto_radar.Prelude.Int.{ℤ, to_ℕ}
use proto_radar.Domain.Errors.{Err}
use proto_radar.Domain.Records.{Time}
use proto_radar.Outbox.Record.{Record, is_published}
use proto_radar.Outbox.Table.{
  Table, Message, sent_message, stored_text, add_duration, claim_row, claim_rows, claim_pending,
  due, update_row, update_existing, publish_row, fail_row, mark_published, mark_failed,
}
use proto_radar.Outbox.Publisher.{
  truncate_message, Float64, PublisherOptions, retry_backoff, Delivery, Iteration, run_statement,
  settle, dispatch_record, publish_records, publish_once,
}

-- Some row with this identifier is published.
abbrev pub published : String → Table → Bool
published id = any λ (r : Record). r.id == id && is_published r.status

-- The dispatcher took the record.
abbrev pub accepted : Delivery → Bool
accepted d = elim d.error [ none ↦ true | some _ ↦ false ]

published-update_fail :
    (id rid message : String) (next now : Time) (max_attempts : ℕ) (table : Table)
    → published id (update_row rid (fail_row message next now max_attempts) table) ≡ true
    → published id table ≡ true
unfolding update_row fail_row
published-update_fail id rid message next now max_attempts [] h = cc
published-update_fail id rid message next now max_attempts (r ∷ rest) h =
    ground (arith, published-update_fail id rid message next now max_attempts rest)

published-update_publish :
    (id rid : String) (now : Time) (table : Table)
    → published id (update_row rid (publish_row now) table) ≡ true
    → (published id table ≡ true) ⊎ ((rid == id) ≡ true)
unfolding update_row publish_row
published-update_publish id rid now [] h = cc
published-update_publish id rid now (r ∷ rest) h = ground (
  arith,
  published-update_publish id rid now rest,
  eq_iff r.id rid,
  eq_iff r.id id,
  eq_iff rid id,
)

published-claim_rows :
    (id : String) (chosen : List Record) (now expires : Time) (table : Table)
    → published id (claim_rows chosen now expires table) ≡ true
    → published id table ≡ true
unfolding claim_rows claim_row
published-claim_rows id chosen now expires [] h = cc
published-claim_rows id chosen now expires (r ∷ rest) h =
    ground (arith, published-claim_rows id chosen now expires rest)

published-mark_failed :
    (id rid : String) (message : Message) (next now : Time) (max_attempts : ℕ) (fault : Option Err)
    (table : Table)
    → published id (run_statement fault (mark_failed rid message next now max_attempts) table).1
      ≡ true
    → published id table ≡ true
unfolding mark_failed update_existing
published-mark_failed id rid message next now max_attempts fault table h =
    elim (Option-cases (stored_text (sent_message message))) [
      | inl refused ↦ ground (arith, refused, h)
      | inr (text, stored) ↦
          ground (arith, stored, published-update_fail id rid text next now max_attempts table)
    ]

published-mark_published :
    (id rid : String) (now : Time) (fault : Option Err) (table : Table)
    → published id (run_statement fault (mark_published rid now) table).1 ≡ true
    → (published id table ≡ true) ⊎ ((rid == id) ≡ true)
unfolding mark_published update_existing
published-mark_published id rid now fault table h =
    ground (arith, published-update_publish id rid now table)

-- The record has this identifier and the dispatcher took it.
abbrev pub took : (Record → Delivery) → String → Record → Bool
took delivery id r = r.id == id && accepted (delivery r)

published-settle :
    (float : Float64) (options : PublisherOptions) (d : Delivery) (e : Option String) (id : String)
    (r : Record) (table : Table)
    → published id (settle float options d e r table).1 ≡ true
    → (published id table ≡ true) ⊎ (((r.id == id) ≡ true) × (e ≡ none))
unfolding settle
published-settle float options d none id r table h =
    ground (arith, published-mark_published id r.id d.now d.fault table)
published-settle float options d (some message) id r table h = ground (
  arith,
  published-mark_failed id r.id (truncate_message message options.error_message_max_length)
      (add_duration d.now (retry_backoff float options r.attempts)) d.now
      (to_ℕ options.max_attempts) d.fault table,
)

published-dispatch_record :
    (float : Float64) (options : PublisherOptions) (delivery : Record → Delivery) (id : String)
    (r : Record) (table : Table)
    → published id (dispatch_record float options (delivery r) r table).1 ≡ true
    → (published id table ≡ true) ⊎ (took delivery id r ≡ true)
unfolding dispatch_record
published-dispatch_record float options delivery id r table h =
    ground (arith, published-settle float options (delivery r) (delivery r).error id r table)

published-publish_records :
    (float : Float64) (options : PublisherOptions) (delivery : Record → Delivery) (id : String)
    (records : List Record) (table : Table)
    → published id (publish_records float options delivery records table).1 ≡ true
    → (published id table ≡ true) ⊎ (any (took delivery id) records ≡ true)
unfolding publish_records
published-publish_records float options delivery id [] table h = inl h
published-publish_records float options delivery id (r ∷ rest) table h = ground (
  arith,
  published-dispatch_record float options delivery id r table,
  published-publish_records float options delivery id rest
      (dispatch_record float options (delivery r) r table).1,
)

published-claim_pending :
    (locked : String → Bool) (batch_size lease : ℤ) (now : Time) (id : String) (table : Table)
    → published id (claim_pending locked batch_size lease now table).1 ≡ true
    → published id table ≡ true
unfolding claim_pending
published-claim_pending locked batch_size lease now id table h = ground (
  arith,
  published-claim_rows id (due locked (to_ℕ batch_size) now table) now (add_duration now lease)
      table,
)

-- If no row with the identifier is published before an iteration and one is after it, then the
-- iteration claimed a row with the identifier and the dispatcher took it.
pub published_needs_dispatch :
    (float : Float64) (options : PublisherOptions) (it : Iteration) (id : String) (table : Table)
    → published id table ≡ false
    → published id (publish_once float options it table).1 ≡ true
    → any
        (took it.delivery id)
        (claim_pending it.locked options.batch_size options.lease_duration it.now table).0
      ≡ true
unfolding publish_once
published_needs_dispatch float options it id table before after =
    let (records, claimed) =
      claim_pending it.locked options.batch_size options.lease_duration it.now table in
    ground (
      arith,
      published-claim_pending it.locked options.batch_size options.lease_duration it.now id table,
      published-publish_records float options it.delivery id records claimed,
    )
