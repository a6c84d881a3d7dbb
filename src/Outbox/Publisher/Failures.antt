-- ===== src/Outbox/Publisher/Failures.antt =====
-- What a failed dispatch leaves: the retry of the record, its death, and what it does to a record that
-- somebody else has published.
use proto_radar.Prelude.{
  ℕ, String, ◌==◌, ◌≡◌, refl, true, false, not, ◌&&◌, Option, some, none, [], ◌∷◌, find, inl, inr,
  Bool-cases, arith, leb,
}
use proto_radar.Prelude.Int.{to_ℕ}
use proto_radar.Domain.Errors.{ok}
use proto_radar.Domain.Records.{Time}
use proto_radar.Outbox.Record.{Record, is_dead}
use proto_radar.Outbox.Table.{
  Table, Message, sent_message, stored_text, add_duration, claimable, has_id, update_row,
  update_existing, fail_row, mark_failed,
}
use proto_radar.Outbox.Publisher.{
  truncate_message, Float64, PublisherOptions, retry_backoff, Delivery, settle, dispatch_record,
}
use proto_radar.Outbox.Publisher.Marks.{published}

-- The row with an identifier.
abbrev pub row : String → Table → Option Record
row id = find λ (r : Record). r.id == id

row-update_row :
    (id : String) (f : Record → Record) (table : Table) (r : Record)
    → ((q : Record) → (f q).id ≡ q.id)
    → row id table ≡ some r
    → row id (update_row id f table) ≡ some (f r)
unfolding update_row
row-update_row id f [] r keeps h = cc
row-update_row id f (q ∷ rest) r keeps h = ground (arith, keeps q, row-update_row id f rest r keeps)

has_id_of_row :
    (id : String) (table : Table) (r : Record) → row id table ≡ some r → has_id id table ≡ true
has_id_of_row id [] r h = cc
has_id_of_row id (q ∷ rest) r h = ground (arith, has_id_of_row id rest r)

fail_row-status :
    (message : String) (next now : Time) (max_attempts : ℕ) (r : Record)
    → is_dead (fail_row message next now max_attempts r).status ≡ leb max_attempts r.attempts
unfolding fail_row
fail_row-status message next now max_attempts r = ground arith

claimable-fail_row :
    (message : String) (next now later : Time) (max_attempts : ℕ) (r : Record)
    → claimable later (fail_row message next now max_attempts r)
      ≡ (not (is_dead (fail_row message next now max_attempts r).status) && leb next later)
unfolding fail_row claimable
claimable-fail_row message next now later max_attempts r =
    elim (Bool-cases (leb max_attempts r.attempts)) [ inl t ↦ rw t | inr f ↦ rw f ]

-- The row of a record whose dispatch failed.
abbrev failed_row : Float64 → PublisherOptions → Delivery → String → Record → Record
failed_row float options d message r =
    fail_row message (add_duration d.now (retry_backoff float options r.attempts)) d.now
      (to_ℕ options.max_attempts) r

dispatch_failed_update :
    (float : Float64) (options : PublisherOptions) (d : Delivery) (message text : String)
    (r : Record) (table : Table)
    → d.error ≡ some message
    → stored_text (sent_message (truncate_message message options.error_message_max_length))
      ≡ some text
    → d.cancelled_after ≡ none
    → d.fault ≡ none
    → has_id r.id table ≡ true
    → dispatch_record float options d r table ≡ (
      ok tt,
      update_row r.id
          (fail_row text
            (add_duration d.now (retry_backoff float options r.attempts))
            d.now
            (to_ℕ options.max_attempts))
          table,
    )
unfolding dispatch_record settle mark_failed update_existing
dispatch_failed_update float options d message text r table failed kept running stored present =
    ground arith

-- If the dispatch of a row of the table fails, the context is not cancelled afterwards, the database runs
-- the statement, and Postgres takes the shortened message, then the iteration goes on: the row has the
-- message and has kept its attempts, it is dead exactly if they have reached the limit, and otherwise it
-- is due again once the backoff has passed.
pub dispatch_failed :
    (float : Float64) (options : PublisherOptions) (d : Delivery) (message text : String)
    (r : Record) (table : Table)
    → d.error ≡ some message
    → stored_text (sent_message (truncate_message message options.error_message_max_length))
      ≡ some text
    → d.cancelled_after ≡ none
    → d.fault ≡ none
    → row r.id table ≡ some r
    → let out = dispatch_record float options d r table in
      (out.0 ≡ ok tt)
      × ((q : Record) × (row r.id out.1 ≡ some q)
          × (q.last_error ≡ text)
          × (q.attempts ≡ r.attempts)
          × (is_dead q.status ≡ leb (to_ℕ options.max_attempts) r.attempts)
          × ((later : Time)
              → claimable later q ≡ (
                  not (is_dead q.status)
                  && leb (add_duration d.now (retry_backoff float options r.attempts)) later)))
dispatch_failed float options d message text r table failed kept running stored present =
    rw
      (dispatch_failed_update float options d message text r table failed kept running stored
        (has_id_of_row r.id table r present))
      (
        refl,
        (
          failed_row float options d text r,
          row-update_row r.id _ table r (unfold fail_row in λ q. refl) present,
          unfold fail_row in refl,
          unfold fail_row in refl,
          fail_row-status _ _ d.now (to_ℕ options.max_attempts) r,
          λ later. claimable-fail_row _ _ d.now later (to_ℕ options.max_attempts) r,
        ),
      )

published-update_failed :
    (id message : String) (next now : Time) (max_attempts : ℕ) (table : Table)
    → published id (update_row id (fail_row message next now max_attempts) table) ≡ false
unfolding update_row fail_row
published-update_failed id message next now max_attempts [] = refl
published-update_failed id message next now max_attempts (r ∷ rest) =
    ground (arith, published-update_failed id message next now max_attempts rest)

has_id_of_published :
    (id : String) (table : Table) → published id table ≡ true → has_id id table ≡ true
has_id_of_published id [] h = cc
has_id_of_published id (r ∷ rest) h = ground (arith, has_id_of_published id rest)

-- `MarkFailed` on the identifier of a published row succeeds if Postgres takes the shortened message, and
-- afterwards no row with the identifier is published.
pub mark_failed_unpublishes :
    (id : String) (message : Message) (text : String) (next now : Time) (max_attempts : ℕ)
    (table : Table)
    → stored_text (sent_message message) ≡ some text
    → published id table ≡ true
    → (after : Table) × (mark_failed id message next now max_attempts table ≡ ok after)
      × (published id after ≡ false)
unfolding mark_failed update_existing
mark_failed_unpublishes id message text next now max_attempts table kept h = (
  update_row id (fail_row text next now max_attempts) table,
  ground (arith, kept, has_id_of_published id table),
  published-update_failed id text next now max_attempts table,
)
