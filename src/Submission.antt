-- ===== src/Submission.antt =====
-- backend/src/interview_evidence/submission_analysis: what applicants hand in.
pub mod Status
pub mod Repository
pub mod Storage
