-- ===== src/Company.antt =====
-- backend/src/interview_evidence/company_management: hiring.
pub mod Invitation
pub mod Campaign
pub mod Consent
pub mod Criteria
