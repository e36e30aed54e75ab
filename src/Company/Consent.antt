-- ===== src/Company/Consent.antt =====
-- company_management/domain/applicant_access.py: consents and what they authorize.
pub mod Authorized
use gbsa_aws_project.Base.{
  ℕ, Bool, true, false, not, ◌&&◌, ◌||◌, Option, none, some, List, ltb, leb, ◌==◌, length, any,
  if◌then◌else◌,
}
use gbsa_aws_project.Base.Exec.{ok, err, raise_if, ◌>>=◌, ◌>>◌}
use gbsa_aws_project.Shared.Errors.{Outcome, value_error, safe, forbidden}
use gbsa_aws_project.Shared.Ids.{OpaqueId, Instant}
use gbsa_aws_project.Shared.Tenant.{TenantContext, ApplicantScope, ensure_applicant_scope}
use gbsa_aws_project.Interview.Text.{Text, strip}
use gbsa_aws_project.Interview.Session.{is_some}
use gbsa_aws_project.Interview.Questions.{is_empty}
use gbsa_aws_project.Company.Invitation.{Invitation, InvitationState}

pub data ConsentPurpose : Type 0 where
  document_analysis recording ai_assessment : ConsentPurpose

abbrev pub is_purpose : ConsentPurpose → ConsentPurpose → Bool
is_purpose ConsentPurpose.document_analysis ConsentPurpose.document_analysis = true
is_purpose ConsentPurpose.recording ConsentPurpose.recording = true
is_purpose ConsentPurpose.ai_assessment ConsentPurpose.ai_assessment = true
is_purpose _ _ = false

-- The set of purposes is a list.
pub record ConsentRecord : Type 0 where
  pub scope : ApplicantScope
  pub consent_record_id : OpaqueId
  pub policy_version : Text
  pub purposes : List ConsentPurpose
  pub retention_days : ℕ
  pub accepted_at : Instant
  pub evidence_digest : Text
  pub withdrawn_at : Option Instant

-- `ConsentRecord.__post_init__`
unfoldable pub consent_post_init : ConsentRecord → Outcome ConsentRecord
consent_post_init c = do
  let policy_version = strip c.policy_version
  raise_if (is_empty policy_version || ltb 128 (length policy_version))
      (value_error "policy_version must be present")
  raise_if (ltb c.retention_days 1) (value_error "retention_days must be positive")
  raise_if (not (length c.evidence_digest == 64))
      (value_error "evidence_digest must be a SHA-256 hex digest")
  ok (record c { policy_version = policy_version })

-- `ConsentRecord.accept`
unfoldable pub accept_consent :
    (sha256 : Text → Text) → (displayed_content : Text) → ConsentRecord → Outcome ConsentRecord
unfolding consent_post_init
accept_consent sha256 displayed_content c =
    consent_post_init (record c { evidence_digest = sha256 displayed_content; withdrawn_at = none })

-- `ConsentRecord.withdraw`
unfoldable pub withdraw : TenantContext → Instant → ConsentRecord → Outcome ConsentRecord
unfolding consent_post_init
withdraw context withdrawn_at c =
    ensure_applicant_scope (some context) c.scope
    >> (if is_some c.withdrawn_at
        then ok c
        else consent_post_init (record c { withdrawn_at = some withdrawn_at }))

-- the states in which an applicant's data may be processed
abbrev pub is_processable : InvitationState → Bool
is_processable InvitationState.identity_verified = true
is_processable InvitationState.consented = true
is_processable InvitationState.materials_submitted = true
is_processable InvitationState.analyzing = true
is_processable InvitationState.ready = true
is_processable InvitationState.interviewing = true
is_processable InvitationState.interrupted = true
is_processable InvitationState.completed = true
is_processable InvitationState.reviewed = true
is_processable _ = false

abbrev pub consent_for : Invitation → ConsentPurpose → Option ConsentRecord → Outcome ConsentRecord
consent_for invitation purpose none = err (safe forbidden)
consent_for invitation purpose (some c) = do
  raise_if (not (c.scope.company_id == invitation.company_id)) (safe forbidden)
  raise_if (not (c.scope.invitation_id == invitation.invitation_id)) (safe forbidden)
  raise_if (not (c.scope.applicant_id == invitation.applicant_id)) (safe forbidden)
  raise_if (is_some c.withdrawn_at) (safe forbidden)
  raise_if (not (any (is_purpose purpose) c.purposes)) (safe forbidden)
  ok c

-- `ProcessingAuthorization.require`
unfoldable pub require :
    Invitation → Option ConsentRecord → ConsentPurpose → (now : Instant) → Outcome ConsentRecord
require invitation consent purpose now = do
  raise_if (leb invitation.expires_at now) (safe forbidden)
  raise_if (not (is_processable invitation.state)) (safe forbidden)
  consent_for invitation purpose consent
