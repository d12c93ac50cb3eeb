-- ===== src/Enrollment.antt =====
-- From the creation of an office to the first report of its pet: apps/control-plane/src/modules/
-- onboarding and enrollment.
pub mod Problem
pub mod Rows
pub mod Request
pub mod Issue
pub mod Claim
pub mod FirstReport
pub mod OfficeRows
pub mod NewOffice
pub mod Service
pub mod Input
pub mod Routes
mod Samples
