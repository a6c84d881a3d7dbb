-- ===== src/Access.antt =====
-- internal/identity, internal/authorization and the guards of internal/transport/http/server.go.
pub mod Identity
pub mod Authorization
pub mod Guards
pub mod Tokens
pub mod Admission
pub mod Admits
mod Samples
