-- ===== src/Office.antt =====
-- Public offices (apps/control-plane/src/modules/public-office).
pub mod Intervals
pub mod Scoring
pub mod Snapshot
pub mod Revisions
pub mod Reader
pub mod Consent
pub mod Leaderboard
pub mod Cursor
pub mod Contract
pub mod Stream
mod Samples
mod StreamSamples
