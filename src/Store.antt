-- ===== src/Store.antt =====
-- internal/repository/postgres: the tables of the governance schema and the statements on them.
pub mod Db
pub mod World
pub mod Modules
pub mod Owners
pub mod Versions
pub mod Dependencies
pub mod Runtime
pub mod Approvals
pub mod AuditEvents
pub mod OutboxWriter
pub mod Triples
pub mod Quiet
pub mod Plain
