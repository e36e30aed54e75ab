-- ===== src/Submission/Status.antt =====
-- submission_analysis/domain/submission.py: a submission and its states.
use gbsa_aws_project.Base.{ℕ, Bool, true, false, not, ◌&&◌, Option, none, some, ltb}
use gbsa_aws_project.Base.Exec.{ok, raise_if, ◌>>◌}
use gbsa_aws_project.Shared.Errors.{Outcome, value_error}
use gbsa_aws_project.Shared.Ids.{OpaqueId, Instant}
use gbsa_aws_project.Shared.Tenant.{ApplicantScope}
use gbsa_aws_project.Interview.Text.{Text}
use gbsa_aws_project.Interview.Questions.{is_empty}

pub data SourceType : Type 0 where
  cover_letter resume pdf public_git public_url : SourceType

pub data SubmissionStatus : Type 0 where
  received validating analyzing ready partial failed deleted : SubmissionStatus

-- `target in _TRANSITIONS[status]`
abbrev pub allowed : SubmissionStatus → SubmissionStatus → Bool
allowed SubmissionStatus.received SubmissionStatus.validating = true
allowed SubmissionStatus.received SubmissionStatus.failed = true
allowed SubmissionStatus.validating SubmissionStatus.analyzing = true
allowed SubmissionStatus.validating SubmissionStatus.failed = true
allowed SubmissionStatus.analyzing SubmissionStatus.ready = true
allowed SubmissionStatus.analyzing SubmissionStatus.partial = true
allowed SubmissionStatus.analyzing SubmissionStatus.failed = true
allowed SubmissionStatus.ready SubmissionStatus.deleted = true
allowed SubmissionStatus.partial SubmissionStatus.analyzing = true
allowed SubmissionStatus.partial SubmissionStatus.deleted = true
allowed SubmissionStatus.failed SubmissionStatus.analyzing = true
allowed SubmissionStatus.failed SubmissionStatus.deleted = true
allowed _ _ = false

pub record Submission : Type 0 where
  pub submission_id : OpaqueId
  pub scope : ApplicantScope
  pub source_type : SourceType
  pub source_uri : Text
  pub original_filename : Option Text
  pub content_hash : Option Text
  pub byte_size : Option ℕ
  pub media_type : Option Text
  pub status : SubmissionStatus
  pub created_at : Instant
  pub failure_code : Option Text
  pub impact_summary : Option Text

-- `self.byte_size is not None and self.byte_size < 1`
abbrev pub is_bad_size : Option ℕ → Bool
is_bad_size none = false
is_bad_size (some n) = ltb n 1

-- `Submission.__post_init__`
unfoldable pub submission_post_init : Submission → Outcome Submission
submission_post_init s = do
  raise_if (is_bad_size s.byte_size) (value_error "submission byte size must be positive")
  ok s

-- `target in {PARTIAL, FAILED}`
abbrev pub is_impaired : SubmissionStatus → Bool
is_impaired SubmissionStatus.partial = true
is_impaired SubmissionStatus.failed = true
is_impaired _ = false

-- `bool(text)`
abbrev pub is_given : Option Text → Bool
is_given none = false
is_given (some t) = not (is_empty t)

abbrev pub moved : SubmissionStatus → Option Text → Option Text → Submission → Submission
moved target failure_code impact_summary s = record s {
  status = target;
  failure_code = failure_code;
  impact_summary = impact_summary;
}

-- `Submission.transition`
unfoldable pub transition :
    (target : SubmissionStatus)
    → (failure_code impact_summary : Option Text) → Submission
    → Outcome Submission
transition target failure_code impact_summary s = do
  raise_if (not (allowed s.status target)) (value_error "invalid submission transition")
  raise_if (is_impaired target && not (is_given impact_summary))
      (value_error "partial and failed submissions require an impact summary")
  submission_post_init (moved target failure_code impact_summary s)
