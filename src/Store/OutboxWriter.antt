-- ===== src/Store/OutboxWriter.antt =====
-- `OutboxWriter.Create` of internal/repository/postgres/outbox.go, in the transaction of its caller.
use proto_radar.Domain.Errors.{Result, ok, err}
use proto_radar.Domain.Records.{Time}
use proto_radar.Outbox.Record.{Event}
use proto_radar.Outbox.Table.{create}
use proto_radar.Store.World.{M, statement, random_uuid, ◌>>=◌}
use proto_radar.Domain.Errors

unfoldable pub write_event : Time → Event → M (Unit {0})
unfolding random_uuid
write_event now event = do
  id ← random_uuid
  statement λ db.
      Errors.◌>>=◌ (create id now event db.outbox) λ outbox. ok (record db { outbox = outbox })
