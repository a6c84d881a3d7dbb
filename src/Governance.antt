-- ===== src/Governance.antt =====
-- internal/usecase/governance: the approval policy, the actor of a request, module owners and
-- approval requests.
pub mod Types
pub mod Policy
pub mod Actor
pub mod Owners
pub mod Approvals
mod Samples
mod OwnerSamples
