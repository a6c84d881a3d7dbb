-- ===== src/Outbox/Samples.antt =====
-- The theorems on the outbox at concrete inputs.
use proto_radar.Prelude.{
  ℕ, ◌*◌, ◌^◌, ◌≤◌, ◌≡◌, refl, true, false, not, ◌&&◌, String, some, none, [], ◌∷◌, any, arith, All,
  Bool, length, leb, min,
}
use proto_radar.Prelude.Int.{pos, negsuc, nonpos, ltb_ℤ}
use proto_radar.Domain.Errors.{ok, err, driver}
use proto_radar.Outbox.Record.{Record, OutboxStatus, pending, processing, is_dead, Event}
use proto_radar.Outbox.Table.{
  Table, whole, stored_text, truncate, add_duration, claim_pending, claimable, create, mark_failed,
  due, mark_published,
}
use proto_radar.Outbox.Table.Claims.{
  IsClaimed, IsFreshFor, claim_pending_rows, claim_pending_exclusive,
}
use proto_radar.Outbox.Table.Rows.{IsValid, here, then_step, creates, claims, Reach-IsValid}
use proto_radar.Outbox.Publisher.{
  truncate_message, PublisherOptions, default_publisher_options, Float64, Delivery, Iteration,
  normalize_publisher_options, publish_once, retry_backoff, dispatch_record, doublings,
}
use proto_radar.Outbox.Publisher.Options.{
  IsUsable, normalize_publisher_options-IsUsable, normalize_publisher_options_usable,
}
use proto_radar.Outbox.Publisher.Backoff.{retry_backoff_bounds, retry_backoff_exact}
use proto_radar.Outbox.Publisher.Marks.{published, took, published_needs_dispatch}
use proto_radar.Outbox.Publisher.Delivers.{publish_once_delivers}
use proto_radar.Outbox.Publisher.Failures.{row, dispatch_failed, mark_failed_unpublishes}

-- A conversion that is exact everywhere.
abbrev wide : Float64
wide = record { scale = λ d n. pos (d * 2 ^ n); scale_exact = λ d n _ _. refl }

abbrev options : PublisherOptions
options = record default_publisher_options { enabled = true }

options-IsUsable : IsUsable options
options-IsUsable = ground arith

abbrev event : Event
event = record {
  aggregate_type = "module";
  aggregate_id = "m1";
  event_type = "protoradar.module.created";
  dedup_key = "module:m1:created";
  payload = "{}";
  occurred_at = 5;
}

abbrev row_of : Record
row_of = record {
  id = "o1";
  aggregate_type = "module";
  aggregate_id = "m1";
  event_type = "protoradar.module.created";
  dedup_key = "module:m1:created";
  payload = "{}";
  status = pending;
  attempts = 0;
  available_at = 5;
  created_at = 5;
  claimed_at = none;
  claim_expires_at = none;
  published_at = none;
  last_error = "";
  updated_at = 5;
}

abbrev table : Table
table = row_of ∷ []

abbrev unlocked : String → Bool
unlocked _ = false

claim_pending_rows_example :
    let claimed = (claim_pending unlocked (pos 10) (pos 30) 7 table).0 in
    (length claimed ≤ 10) × All (IsClaimed unlocked (pos 30) 7 table) claimed
claim_pending_rows_example = claim_pending_rows unlocked (pos 10) (pos 30) 7 table

claim_pending_exclusive_example :
    let (first, between) = claim_pending unlocked (pos 10) (pos 30) 7 table in
    All (IsFreshFor first) (claim_pending unlocked (pos 10) (pos 30) 20 between).0
claim_pending_exclusive_example =
    claim_pending_exclusive unlocked unlocked (pos 10) (pos 10) (pos 30) (pos 30) 7 20 table
      (omega arith)

Reach-IsValid_example : IsValid (claim_pending unlocked (pos 10) (pos 30) 7 table).1
unfolding create
Reach-IsValid_example = Reach-IsValid (
    then_step (then_step here (creates "o1" 0 event {after = table} refl))
      (claims unlocked (pos 10) (pos 30) 7))

normalize_publisher_options-IsUsable_example :
    IsUsable (normalize_publisher_options (record options { batch_size = negsuc 3 }))
normalize_publisher_options-IsUsable_example =
    normalize_publisher_options-IsUsable (record options { batch_size = negsuc 3 })

normalize_publisher_options_usable_example : normalize_publisher_options options ≡ options
normalize_publisher_options_usable_example =
    normalize_publisher_options_usable options options-IsUsable

retry_backoff_bounds_example :
    (nonpos (retry_backoff wide options 40) ≡ false)
    × (ltb_ℤ options.max_retry_backoff (retry_backoff wide options 40) ≡ false)
retry_backoff_bounds_example = retry_backoff_bounds wide options 40 options-IsUsable

retry_backoff_exact_example :
    retry_backoff wide options 3 ≡ pos (min (30_000_000_000 * 2 ^ doublings 3) 300_000_000_000)
retry_backoff_exact_example =
    retry_backoff_exact wide options 30_000_000_000 300_000_000_000 3 refl refl (omega arith)
      (omega arith) (omega arith)

abbrev smooth : Delivery
smooth = record {
  cancelled_before = none;
  error = none;
  cancelled_after = none;
  now = 9;
  fault = none;
}

abbrev iteration : Iteration
iteration = record {
  cancelled = none;
  now = 7;
  locked = unlocked;
  claim_fault = none;
  delivery = λ _. smooth;
}

published_needs_dispatch_example :
    any
      (took iteration.delivery "o1")
      (claim_pending unlocked (pos 50) (pos 30_000_000_000) 7 table).0
    ≡ true
unfolding publish_once claim_pending due mark_published
published_needs_dispatch_example =
    published_needs_dispatch wide options iteration "o1" table refl refl

publish_once_delivers_example :
    ((publish_once wide options iteration table).0 ≡ ok tt)
    × All
        (λ (r : Record). published r.id (publish_once wide options iteration table).1 ≡ true)
        (claim_pending unlocked (pos 50) (pos 30_000_000_000) 7 table).0
unfolding claim_pending due
publish_once_delivers_example =
    publish_once_delivers wide options iteration table refl refl refl
      (record { running = refl; taken = refl; stored = refl }, tt)

abbrev refused : Delivery
refused = record smooth { error = some "connection refused" }

abbrev taken_row : Record
taken_row = record row_of {
  status = processing;
  attempts = 2;
  claimed_at = some 7;
  claim_expires_at = some 30;
}

dispatch_failed_example :
    let out = dispatch_record wide options refused taken_row (taken_row ∷ []) in
    (out.0 ≡ ok tt)
    × ((q : Record) × (row "o1" out.1 ≡ some q)
        × (q.last_error ≡ "connection refused")
        × (q.attempts ≡ 2)
        × (is_dead q.status ≡ leb 5 2)
        × ((later : ℕ)
            → claimable later q ≡ (
                not (is_dead q.status)
                && leb (add_duration 9 (retry_backoff wide options 2)) later)))
unfolding stored_text truncate truncate_message
dispatch_failed_example =
    dispatch_failed wide options refused "connection refused" "connection refused" taken_row
      (taken_row ∷ []) refl refl refl refl refl

abbrev published_table : Table
published_table =
    record row_of { status = OutboxStatus.published; attempts = 2; published_at = some 8 } ∷ []

mark_failed_unpublishes_example :
    (after : Table) × (mark_failed "o1" (whole "timeout") 60 9 5 published_table ≡ ok after)
    × (published "o1" after ≡ false)
unfolding stored_text truncate
mark_failed_unpublishes_example =
    mark_failed_unpublishes "o1" (whole "timeout") "timeout" 60 9 5 published_table refl refl

-- A message that is cut inside a character is refused.
cut_character :
    mark_failed "o1" (record { text = "aé"; bytes = 2 }) 60 9 5 published_table ≡ err (driver 5)
unfolding mark_failed
cut_character = refl
