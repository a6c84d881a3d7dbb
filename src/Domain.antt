-- ===== src/Domain.antt =====
-- internal/domain: errors, identifiers, validated names, enumerations, and the records that the
-- other packages pass around.
pub mod Errors
pub mod Ids
pub mod Names
pub mod Enums
pub mod Records
pub mod Versions
pub mod Runtime
pub mod Dependencies
pub mod Metadata
mod Samples
