-- ===== src/Outbox.antt =====
-- internal/outbox and internal/repository/postgres/outbox.go: the transactional outbox.
pub mod Record
pub mod Table
pub mod Publisher
mod Samples
