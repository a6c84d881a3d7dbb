-- ===== src/Graph.antt =====
-- internal/usecase/dependencygraph/service.go and internal/usecase/registry/dependencies.go.
pub mod Providers
pub mod Resolving
pub mod References
pub mod Progress
pub mod Additions
pub mod Steps
pub mod Traversal
pub mod Coverage
pub mod Resolved
pub mod Completes
pub mod Rebuild
pub mod Effects
mod Samples
