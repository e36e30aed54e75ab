-- ===== src/Analysis.antt =====
-- backend/src/interview_evidence/workers/analysis: what becomes of submitted material.
pub mod Chunker
pub mod Job
pub mod Jobs
