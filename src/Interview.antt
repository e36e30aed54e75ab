-- ===== src/Interview.antt =====
-- backend/src/interview_evidence/interview_engine: the live interview.
pub mod Text
pub mod Session
pub mod Turn
pub mod Idempotency
pub mod Checkpoints
pub mod Recording
pub mod Context
pub mod Questions
pub mod Dialogue
pub mod Generator
pub mod Service
