-- ===== src/Outbox/Publisher.antt =====
-- internal/outbox/publisher.go. Counters, statistics and logs are left out: they read the outcome of
-- an iteration and change nothing that it depends on. What surrounds the publisher in one iteration
-- is a value of `Iteration`: the clock, the context, the rows that others hold, the answers of the
-- dispatcher, and the failures of the database.
pub mod Options
pub mod Backoff
pub mod Marks
pub mod Delivers
pub mod Failures
use proto_radar.Prelude.{
  ℕ, suc, ◌-◌, ◌+◌, ◌*◌, ◌^◌, ◌≤◌, ◌<◌, ◌≡◌, String, Bool, true, false, not, ◌||◌, Option, none,
  some, List, [], ◌∷◌, leb, eqb, if◌then◌else◌,
}
use proto_radar.Prelude.Int.{ℤ, pos, negsuc, nonpos, ltb_ℤ, to_ℕ}
use proto_radar.Domain.Errors.{Result, ok, err, Err}
use proto_radar.Domain.Records.{Time}
use proto_radar.Outbox.Record.{Record}
use proto_radar.Outbox.Table.{
  Table, Message, whole, truncate, add_duration, claim_pending, mark_published, mark_failed,
}

-- `PublisherOptions`, with durations in nanoseconds.
pub record PublisherOptions : Type 0 where
  pub enabled : Bool
  pub batch_size : ℤ
  pub poll_interval : ℤ
  pub lease_duration : ℤ
  pub max_attempts : ℤ
  pub initial_retry_backoff : ℤ
  pub max_retry_backoff : ℤ
  pub error_message_max_length : ℤ

abbrev pub second : ℕ
second = 1_000_000_000

abbrev pub default_publisher_options : PublisherOptions
default_publisher_options = record {
  enabled = false;
  batch_size = pos 50;
  poll_interval = pos 5_000_000_000;
  lease_duration = pos 30_000_000_000;
  max_attempts = pos 5;
  initial_retry_backoff = pos 30_000_000_000;
  max_retry_backoff = pos 300_000_000_000;
  error_message_max_length = pos 4096;
}

-- `if option <= 0 { option = default }`
abbrev or_default : ℤ → ℤ → ℤ
or_default value fallback = if nonpos value then fallback else value

-- `normalizePublisherOptions`, in the order of its statements.
unfoldable pub normalize_publisher_options : PublisherOptions → PublisherOptions
normalize_publisher_options options =
    let initial = or_default options.initial_retry_backoff (pos 30_000_000_000) in
    let longest = or_default options.max_retry_backoff (pos 300_000_000_000) in
    record options {
      batch_size = or_default options.batch_size (pos 50);
      poll_interval = or_default options.poll_interval (pos 5_000_000_000);
      lease_duration = or_default options.lease_duration (pos 30_000_000_000);
      max_attempts = or_default options.max_attempts (pos 5);
      initial_retry_backoff = initial;
      max_retry_backoff = if ltb_ℤ longest initial then initial else longest;
      error_message_max_length = or_default options.error_message_max_length (pos 4096);
    }

-- `time.Duration(float64(d) * math.Pow(2, float64(n)))`: `scale d n`. Go fixes its value where the
-- product is exact and fits in an int64; beyond that the conversion's result is left to the machine.
pub record Float64 : Type 0 where
  pub scale : ℕ → ℕ → ℤ
  pub scale_exact : (d n : ℕ) → d ≤ 2 ^ 53 → d * 2 ^ n < 2 ^ 63 → scale d n ≡ pos (d * 2 ^ n)

-- `attempts - 1`, at least 0
abbrev pub doublings : ℕ → ℕ
doublings attempts = attempts - 1

unfoldable pub retry_backoff : Float64 → PublisherOptions → ℕ → ℤ
retry_backoff float options attempts =
    let backoff = float.scale (to_ℕ options.initial_retry_backoff) (doublings attempts) in
    if nonpos backoff || ltb_ℤ options.max_retry_backoff backoff
    then options.max_retry_backoff
    else backoff

-- What happens around one record: the context before and after the dispatch, the dispatcher's error
-- if it returns one, the clock when the record is marked, and the database's failure at the mark.
pub record Delivery : Type 0 where
  pub cancelled_before : Option Err
  pub error : Option String
  pub cancelled_after : Option Err
  pub now : Time
  pub fault : Option Err

pub record Iteration : Type 0 where
  pub cancelled : Option Err
  pub now : Time
  pub locked : String → Bool
  pub claim_fault : Option Err
  pub delivery : Record → Delivery

-- A statement of the repository that the database may refuse to run.
abbrev run_statement : Option Err → (Table → Result Table) → Table → Result (Unit {0}) × Table
run_statement (some e) f table = (err e, table)
run_statement none f table = elim (f table) [ ok after ↦ (ok tt, after) | err e ↦ (err e, table) ]

-- `truncateMessage`
unfoldable pub truncate_message : String → ℤ → Message
unfolding truncate
truncate_message message max_length =
    if nonpos max_length then whole message else truncate (whole message) (to_ℕ max_length)

-- `dispatchRecord` behind the dispatcher's answer.
settle :
    Float64
    → PublisherOptions
    → Delivery
    → Option String
    → Record
    → Table
    → Result (Unit {0}) × Table
settle float options d none r table = run_statement d.fault (mark_published r.id d.now) table
settle float options d (some message) r table = elim d.cancelled_after [
  | some e ↦ (err e, table)
  | none ↦
      run_statement d.fault
        (mark_failed r.id (truncate_message message options.error_message_max_length)
          (add_duration d.now (retry_backoff float options r.attempts)) d.now
          (to_ℕ options.max_attempts))
        table
]

unfoldable pub dispatch_record :
    Float64 → PublisherOptions → Delivery → Record → Table → Result (Unit {0}) × Table
unfolding settle
dispatch_record float options d r table = settle float options d d.error r table

-- The loop of `PublishOnce` over the claimed records: it stops at the first error.
unfoldable pub publish_records :
    Float64
    → PublisherOptions
    → (Record → Delivery)
    → List Record
    → Table
    → Result (Unit {0}) × Table
unfolding dispatch_record
publish_records float options delivery [] table = (ok tt, table)
publish_records float options delivery (r ∷ rest) table =
    let d = delivery r in
    elim d.cancelled_before [
      | some e ↦ (err e, table)
      | none ↦
          let (result, after) = dispatch_record float options d r table in
          elim result [
            | err e ↦ (err e, after)
            | ok _ ↦ publish_records float options delivery rest after
          ]
    ]

unfoldable pub publish_once :
    Float64 → PublisherOptions → Iteration → Table → Result (Unit {0}) × Table
unfolding publish_records
publish_once float options it table =
    if not options.enabled then (ok tt, table) else elim it.cancelled [
      | some e ↦ (err e, table)
      | none ↦ elim it.claim_fault [
        | some e ↦ (err e, table)
        | none ↦
            let (records, claimed) =
              claim_pending it.locked options.batch_size options.lease_duration it.now table in
            publish_records float options it.delivery records claimed
      ]
    ]
