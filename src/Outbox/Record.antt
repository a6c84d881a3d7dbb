-- ===== src/Outbox/Record.antt =====
-- internal/outbox/record.go and repository.go: a stored event and the counts of `Stats`.
use proto_radar.Prelude.{ℕ, String, Option, Bool, true, false}
use proto_radar.Domain.Records.{Time}

-- The `outboxStatus…` constants of internal/repository/postgres/outbox.go.
pub data OutboxStatus : Type 0 where
  pending processing published failed dead : OutboxStatus

pub record Record : Type 0 where
  pub id : String
  pub aggregate_type : String
  pub aggregate_id : String
  pub event_type : String
  pub dedup_key : String
  pub payload : String
  pub status : OutboxStatus
  pub attempts : ℕ
  pub available_at : Time
  pub created_at : Time
  pub claimed_at : Option Time
  pub claim_expires_at : Option Time
  pub published_at : Option Time
  pub last_error : String
  pub updated_at : Time

-- What a use case hands to `Writer.Create`.
pub record Event : Type 0 where
  pub aggregate_type : String
  pub aggregate_id : String
  pub event_type : String
  pub dedup_key : String
  pub payload : String
  pub occurred_at : Time

pub record Stats : Type 0 where
  pub pending : ℕ
  pub processing : ℕ
  pub published : ℕ
  pub failed : ℕ
  pub dead : ℕ

abbrev pub is_processing : OutboxStatus → Bool
is_processing processing = true
is_processing _ = false

abbrev pub is_published : OutboxStatus → Bool
is_published published = true
is_published _ = false

abbrev pub is_dead : OutboxStatus → Bool
is_dead dead = true
is_dead _ = false
