-- ===== src/Limits.antt =====
-- The rate limits of apps/control-plane/src/modules: one abstract window, and the three limiters that
-- implement it.
pub mod Window
pub mod Table
pub mod Counter
pub mod Ingress
pub mod Report
pub mod Onboarding
mod Samples
