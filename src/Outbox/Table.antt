-- ===== src/Outbox/Table.antt =====
-- internal/repository/postgres/outbox.go: each method is its SQL statement on the rows of
-- `outbox_records`. A statement is atomic; the database picks the identifier of a new row.
pub mod Claims
pub mod Rows
use Prim.Native.String.{slice}
use proto_radar.Prelude.{
  ℕ, zero, suc, ◌+◌, ◌-◌, String, len, ◌==◌, Bool, true, false, not, ◌&&◌, ◌||◌, Option, none, some,
  List, [], ◌∷◌, ◌++◌, map, any, filter, take, length, leb, ltb, eqb, all_codes, if◌then◌else◌,
}
use proto_radar.Prelude.Int.{ℤ, pos, negsuc, nonpos, to_ℕ}
use proto_radar.Domain.Errors.{Result, ok, err, Err, domain, DomainError, driver}
use proto_radar.Domain.Records.{Time}
use proto_radar.Outbox.Record.{
  OutboxStatus, pending, processing, published, failed, dead, Record, Event, Stats,
}

abbrev pub Table : Type 0
Table = List Record

abbrev pub max_last_error_bytes : ℕ
max_last_error_bytes = 4096

-- A Go string that is cut: the first bytes of a text, which may end inside a character.
pub record Message : Type 0 where
  pub text : String
  pub bytes : ℕ

abbrev pub whole : String → Message
whole text = record { text = text; bytes = len text }

-- `truncateOutboxError`, and `truncateMessage` of the publisher at a positive length.
unfoldable pub truncate : Message → ℕ → Message
truncate message limit =
    if leb message.bytes limit then message else record message { bytes = limit }

-- A text without the character 0, which Postgres does not take.
abbrev pub no_nul : String → Option String
no_nul text = if all_codes (λ c. not (eqb c 0)) text then some text else none

-- What Postgres stores for a message: none, if it is no UTF-8 or has a character 0. `slice` goes back to
-- the start of the character that it would cut.
unfoldable pub stored_text : Message → Option String
stored_text message =
    if leb (len message.text) message.bytes
    then no_nul message.text
    else (let cut = slice message.text 0 message.bytes in
        if eqb (len cut) message.bytes then no_nul cut else none)

-- `time.Time.Add`
abbrev pub add_duration : Time → ℤ → Time
add_duration t (pos d) = t + d
add_duration t (negsuc d) = t - suc d

new_record : String → Event → Time → Record
new_record id event occurred_at = record {
  id = id;
  aggregate_type = event.aggregate_type;
  aggregate_id = event.aggregate_id;
  event_type = event.event_type;
  dedup_key = event.dedup_key;
  payload = event.payload;
  status = pending;
  attempts = 0;
  available_at = occurred_at;
  created_at = occurred_at;
  claimed_at = none;
  claim_expires_at = none;
  published_at = none;
  last_error = "";
  updated_at = occurred_at;
}

-- `Create`: `clock` is `time.Now()`, used for an event with the zero time. A second row with the
-- identifier or the dedup key of a row is a unique violation.
unfoldable pub create : String → Time → Event → Table → Result Table
unfolding new_record
create id clock event table =
    let occurred_at = if eqb event.occurred_at 0 then clock else event.occurred_at in
    if any (λ r. r.dedup_key == event.dedup_key) table || any (λ r. r.id == id) table
    then err (domain DomainError.duplicate)
    else ok (table ++ new_record id event occurred_at ∷ [])

abbrev pub expired : Option Time → Time → Bool
expired none now = false
expired (some t) now = leb t now

abbrev pub claimable_status : OutboxStatus → Record → Time → Bool
claimable_status pending r now = leb r.available_at now
claimable_status failed r now = leb r.available_at now
claimable_status processing r now = expired r.claim_expires_at now
claimable_status published r now = false
claimable_status dead r now = false

-- The WHERE clause of the claim.
unfoldable pub claimable : Time → Record → Bool
claimable now r = claimable_status r.status r now

-- ORDER BY available_at, created_at
abbrev due_before : Record → Record → Bool
due_before r s =
    ltb r.available_at s.available_at
    || (eqb r.available_at s.available_at && leb r.created_at s.created_at)

insert_due : Record → List Record → List Record
insert_due r [] = r ∷ []
insert_due r (s ∷ rest) = if due_before r s then r ∷ s ∷ rest else s ∷ insert_due r rest

sort_due : List Record → List Record
unfolding insert_due
sort_due [] = []
sort_due (r ∷ rest) = insert_due r (sort_due rest)

-- The SET clause of the claim.
unfoldable pub claim_row : Time → Time → Record → Record
claim_row now expires r = record r {
  status = processing;
  claimed_at = some now;
  claim_expires_at = some expires;
  attempts = r.attempts + 1;
  updated_at = now;
}

-- The rows that the claim selects: `locked` are those that other transactions hold (SKIP LOCKED).
unfoldable pub due : (String → Bool) → ℕ → Time → Table → List Record
unfolding sort_due claimable
due locked batch_size now table =
    take batch_size (sort_due (filter (λ r. claimable now r && not (locked r.id)) table))

-- A row of the list has this identifier.
abbrev pub has_id : String → List Record → Bool
has_id id = any λ r. r.id == id

-- UPDATE … WHERE id = $1
unfoldable pub update_row : String → (Record → Record) → Table → Table
update_row id f [] = []
update_row id f (r ∷ rest) = (if r.id == id then f r else r) ∷ update_row id f rest

-- UPDATE … FROM claimable WHERE records.id = claimable.id
unfoldable pub claim_rows : List Record → Time → Time → Table → Table
unfolding claim_row
claim_rows chosen now expires [] = []
claim_rows chosen now expires (r ∷ rest) =
    (if has_id r.id chosen then claim_row now expires r else r) ∷ claim_rows chosen now expires rest

-- `ClaimPending`, with the rows it returns in the order of the selection.
unfoldable pub claim_pending : (String → Bool) → ℤ → ℤ → Time → Table → List Record × Table
unfolding due claim_row claim_rows
claim_pending locked batch_size lease now table =
    if nonpos batch_size
    then ([], table)
    else (let chosen = due locked (to_ℕ batch_size) now table in
        let expires = add_duration now lease in
        (map (claim_row now expires) chosen, claim_rows chosen now expires table))

abbrev coalesce : Option Time → Time → Time
coalesce none t = t
coalesce (some u) t = u

unfoldable pub publish_row : Time → Record → Record
publish_row now r = record r {
  status = published;
  published_at = some (coalesce r.published_at now);
  claimed_at = none;
  claim_expires_at = none;
  updated_at = now;
}

-- An UPDATE by identifier, then `ensureOutboxRecordExists`.
unfoldable pub update_existing : String → (Record → Record) → Table → Result Table
unfolding update_row
update_existing id f table =
    if has_id id table then ok (update_row id f table) else err (domain DomainError.not_found)

unfoldable pub mark_published : String → Time → Table → Result Table
unfolding update_existing publish_row
mark_published id now table = update_existing id (publish_row now) table

unfoldable pub fail_row : String → Time → Time → ℕ → Record → Record
fail_row message next_attempt_at now max_attempts r =
    let exhausted = leb max_attempts r.attempts in
    record r {
      status = if exhausted then dead else failed;
      last_error = message;
      available_at = if exhausted then r.available_at else next_attempt_at;
      claimed_at = none;
      claim_expires_at = none;
      updated_at = now;
    }

-- The message as it is sent, and as the statement stores it. A text that Postgres does not take is an
-- error that `mapError` leaves alone.
abbrev pub sent_message : Message → Message
sent_message message = truncate message max_last_error_bytes

unfoldable pub mark_failed : String → Message → Time → Time → ℕ → Table → Result Table
unfolding truncate stored_text update_existing fail_row
mark_failed id message next_attempt_at now max_attempts table =
    elim (stored_text (sent_message message)) [
      | none ↦ err (driver 5)
      | some text ↦ update_existing id (fail_row text next_attempt_at now max_attempts) table
    ]

abbrev bump : OutboxStatus → Stats → Stats
bump pending s = record s { pending = s.pending + 1 }
bump processing s = record s { processing = s.processing + 1 }
bump published s = record s { published = s.published + 1 }
bump failed s = record s { failed = s.failed + 1 }
bump dead s = record s { dead = s.dead + 1 }

unfoldable pub stats : Table → Stats
stats [] = record { pending = 0; processing = 0; published = 0; failed = 0; dead = 0 }
stats (r ∷ rest) = bump r.status (stats rest)
