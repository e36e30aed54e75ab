-- ===== src/Reporting.antt =====
-- backend/src/interview_evidence/reporting and workers/reporting: recordings, reports and deletion.
pub mod Timeline
pub mod Media
pub mod Deletion
pub mod Review
pub mod Report
pub mod Transcript
