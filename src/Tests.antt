-- ===== src/Tests.antt =====
-- Tests and the properties at concrete inputs.
mod Samples
mod Shared
mod Session
mod Commands
mod Recording
pub mod Context
pub mod Service
pub mod Company
pub mod Consent
pub mod Criteria
pub mod Reporting
pub mod Analysis
pub mod Reports
pub mod Transcript
pub mod Messaging
pub mod Jobs
pub mod Submission
