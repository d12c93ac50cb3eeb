-- ===== src/Edge.antt =====
-- Reports of the desktop pets (apps/control-plane/src/modules/presence).
pub mod Problem
pub mod Types
pub mod Store
pub mod Validator
pub mod Boot
pub mod Activity
pub mod Rollover
pub mod Constraints
pub mod Commit
pub mod Ingest
pub mod Invariant
pub mod Lease
pub mod Idle
mod Samples
