-- ===== src/Messaging.antt =====
-- backend/src/interview_evidence/shared/messaging and what it validates with.
pub mod Shapes
pub mod Payload
pub mod Registry
pub mod Outbox
pub mod Processed
