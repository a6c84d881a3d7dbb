-- ===== src/Governance/Approvals.antt =====
-- internal/usecase/governance/approval_service.go: approval requests and the decisions on their
-- requirements. `recordDecision` reads first and writes in a transaction at its end: the two parts are
-- `prepare_decision` and `commit_decision`, so that those of several calls can be interleaved.
pub mod Prepare
pub mod Commit
pub mod Context
pub mod Create
pub mod Tally
pub mod Consistency
pub mod Decided
pub mod Writes
pub mod Announced
pub mod Loaded
pub mod Deciding
pub mod Admitted
pub mod Integrity
pub mod Committed
pub mod Interleavings
pub mod Stored
pub mod Built
pub mod Inserted
pub mod Created
pub mod Reads
pub mod Creation
pub mod CreationErrors
mod CreationSamples
pub mod Filled
mod Samples
