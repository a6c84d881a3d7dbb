-- ===== src/Store/Triples/Outbox.antt =====
-- Triples on `OutboxWriter.Create`.
use proto_radar.Prelude.{String, ◌≡◌, sym, arith, inl, inr}
use proto_radar.Domain.Errors.{Result, ok, err, Result-cases}
use proto_radar.Domain.Errors
use proto_radar.Domain.Records.{Time}
use proto_radar.Outbox.Record.{Event}
use proto_radar.Outbox.Table.{Table, create}
use proto_radar.Store.Db.{Db}
use proto_radar.Store.OutboxWriter.{write_event}
use proto_radar.Store.Triples.{Holds, holds_then, holds_imp, holds_statement, holds_random_uuid}

-- The event stands in the outbox, and nothing else changed.
pub record IsWrittenEvent (now : Time) (event : Event) (before after : Db) : Type 0 where
  pub id : String
  pub outbox : Table
  pub created : create id now event before.outbox ≡ ok outbox
  pub is_after : after ≡ record before { outbox = outbox }

event_written :
    (id : String) (now : Time) (event : Event) (before after : Db)
    → (Errors.◌>>=◌
        (create id now event before.outbox)
        λ outbox. ok (record before { outbox = outbox }))
      ≡ ok after
    → IsWrittenEvent now event before after
event_written id now event before after h =
    elim (Result-cases (create id now event before.outbox)) [
      | inr bad ↦ ground (arith, bad.1, h)
      | inl (outbox, e) ↦ record {
        id = id;
        outbox = outbox;
        created = e;
        is_after = ground (arith, e, h);
      }
    ]

pub write_event-IsWrittenEvent :
    (now : Time) (event : Event) (before : Db)
    → Holds
        (λ db. db ≡ before)
        (write_event now event)
        (λ _. IsWrittenEvent now event before)
        (λ _. Unit)
unfolding write_event
write_event-IsWrittenEvent now event before =
    holds_imp (λ db e. e) (λ _ db q. q) (λ db e. tt)
      (holds_then holds_random_uuid (λ id.
        holds_imp (λ db e. e)
          (λ _ after (db, same, e). event_written id now event before after (rw (sym same) e))
          (λ db e. e) (holds_statement _)))
