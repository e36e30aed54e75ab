-- ===== src/Tests/Consent.antt =====
-- A consent to the analysis of documents.
use gbsa_aws_project.Base.{◌≡◌, ◌↔◌, refl, Option, some, none, [], ◌∷◌}
use gbsa_aws_project.Base.Exec.{ok}
use gbsa_aws_project.Interview.Text.{codes}
use gbsa_aws_project.Company.Consent.{
  ConsentPurpose, ConsentRecord, accept_consent, withdraw, require,
}
use gbsa_aws_project.Company.Consent.Authorized.{IsAuthorized, require_iff}
use gbsa_aws_project.Tests.Company.{sha256, consenting}
use gbsa_aws_project.Tests.Samples.{scope, applicant}

abbrev consent : ConsentRecord
consent = record {
  scope = scope;
  consent_record_id = 80;
  policy_version = codes "2026-01";
  purposes = ConsentPurpose.document_analysis ∷ [];
  retention_days = 180;
  accepted_at = 20;
  evidence_digest = sha256 [];
  withdrawn_at = none;
}

accepts : accept_consent sha256 (codes "We read what you send.") consent ≡ ok consent
unfolding accept_consent gbsa_aws_project.Interview.Text.strip
    gbsa_aws_project.Interview.Text.is_space
accepts = refl

require_iff_example :
    (require consenting (some consent) ConsentPurpose.document_analysis 30 ≡ ok consent) ↔ (
      (◌≡◌ {A = Option ConsentRecord} (some consent) (some consent))
      × IsAuthorized consenting consent ConsentPurpose.document_analysis 30)
require_iff_example =
    require_iff consenting ConsentPurpose.document_analysis 30 (some consent) consent

authorizes : require consenting (some consent) ConsentPurpose.document_analysis 30 ≡ ok consent
unfolding require
authorizes = refl

abbrev withdrawn : ConsentRecord
withdrawn = record consent { withdrawn_at = some 40 }

withdraws : withdraw applicant 40 consent ≡ ok withdrawn
unfolding withdraw gbsa_aws_project.Shared.Tenant.ensure_applicant_scope
    gbsa_aws_project.Interview.Text.strip gbsa_aws_project.Interview.Text.is_space
withdraws = refl
