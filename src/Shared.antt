-- ===== src/Shared.antt =====
-- backend/src/interview_evidence/shared: what the lanes have in common.
pub mod Errors
pub mod Ids
pub mod Tenant
