-- ===== src/Inventory.antt =====
-- internal/usecase/runtimeinventory: what a service reports of the module versions it runs.
pub mod References
pub mod Drift
pub mod Report
pub mod Services
pub mod Writes
pub mod Resolving
pub mod Resolved
pub mod Effects
mod Samples
pub mod Queries
