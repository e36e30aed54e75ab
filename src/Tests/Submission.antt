-- ===== src/Tests/Submission.antt =====
-- A submission in its table, and an upload.
use gbsa_aws_project.Base.{ℕ, ◌≡◌, ◌⊎◌, ◌↔◌, refl, true, false, some, none, List, [], ◌∷◌, arith}
use gbsa_aws_project.Base.Equality.{nat_eq, list_eq, pair_eq}
use gbsa_aws_project.Base.Dict.{lookup, insert}
use gbsa_aws_project.Base.Exec.{ok, err}
use gbsa_aws_project.Shared.Errors.{Error, value_error}
use gbsa_aws_project.Shared.Tenant.{ApplicantScope}
use gbsa_aws_project.Interview.Text.{Text, codes}
use gbsa_aws_project.Submission.Status.{SourceType, SubmissionStatus, Submission, moved}
use gbsa_aws_project.Submission.Repository.{
  Submissions, add_submission, mark_submission_analyzing, complete_submission,
  mark_submission_ready,
}
use gbsa_aws_project.Submission.Repository.Rows.{is_closed}
use gbsa_aws_project.Submission.Repository.History.{Later, Passes, Later-Passes}
use gbsa_aws_project.Submission.Repository.Ready.{mark_submission_ready_cases}
use gbsa_aws_project.Submission.Storage.{
  UploadIntentRecord, SubmissionObjectStorage, UploadRequest, intent_of, accept_upload,
  delete_upload,
}
use gbsa_aws_project.Submission.Storage.Accepted.{IsDue, accept_upload_iff}
use gbsa_aws_project.Submission.Storage.Foreign.{Untouched, Foreign, Foreign-Untouched}
use gbsa_aws_project.Tests.Samples.{scope, applicant, reviewer, applicant-MayAct}

abbrev submission : Submission
submission = record {
  submission_id = 40;
  scope = scope;
  source_type = SourceType.resume;
  source_uri = codes "object:41";
  original_filename = some (codes "cv.pdf");
  content_hash = none;
  byte_size = some 3;
  media_type = some (codes "application/pdf");
  status = SubmissionStatus.received;
  created_at = 100;
  failure_code = none;
  impact_summary = none;
}

abbrev rows : Submissions
rows = (40, submission) ∷ []

added : add_submission applicant submission [] ≡ (ok submission, rows)
unfolding add_submission gbsa_aws_project.Shared.Tenant.ensure_applicant_scope insert
added = refl

abbrev partly : Submissions
partly =
    (complete_submission applicant 40 SubmissionStatus.partial none (some (codes "no text"))
      (mark_submission_analyzing applicant 40 rows).1).1

partly_rows :
    partly ≡ ((40, moved SubmissionStatus.partial none (some (codes "no text")) submission) ∷ [])
unfolding complete_submission mark_submission_analyzing
    gbsa_aws_project.Submission.Repository.get_submission lookup
    gbsa_aws_project.Submission.Repository.toward_analysis
    gbsa_aws_project.Submission.Status.transition
    gbsa_aws_project.Submission.Status.submission_post_init
    gbsa_aws_project.Shared.Tenant.ensure_applicant_scope insert
    gbsa_aws_project.Submission.Repository.completed
partly_rows = refl

rows-Later : Later [] rows
unfolding add_submission lookup gbsa_aws_project.Shared.Tenant.ensure_applicant_scope insert
rows-Later = Later.adds {now = []} applicant submission refl refl Later.here

Later-Passes_example : Passes [] partly
Later-Passes_example =
    Later-Passes [] partly (λ k v e. absurd (unfold lookup in ground arith))
      (Later.completes applicant 40 SubmissionStatus.partial none (some (codes "no text"))
        (Later.marks applicant 40 rows-Later))

mark_submission_ready_cases_example :
    let done = moved SubmissionStatus.ready none none submission in
    ((is_closed SubmissionStatus.received ≡ true)
      × (mark_submission_ready applicant 40 rows
          ≡ (err (value_error "submission must be analyzing before completion"), rows)))
    ⊎ ((is_closed SubmissionStatus.received ≡ false)
        × (mark_submission_ready applicant 40 rows ≡ (ok done, insert 40 done rows)))
mark_submission_ready_cases_example =
    mark_submission_ready_cases applicant 40 rows submission (unfold lookup in refl) refl
      applicant-MayAct refl

-- The digest of a content is its text.
abbrev sha256 : List ℕ → Text
sha256 content = content

abbrev request : UploadRequest
request = record {
  source_type = codes "resume";
  filename = codes "cv.pdf";
  media_type = codes "application/pdf";
  byte_size = 3;
  sha256 = codes "abc";
  upload_id = 50;
  object_id = 51;
  now = 100;
}

abbrev intents : SubmissionObjectStorage
intents = ((1, 50), intent_of scope request) ∷ []

accept_upload_iff_example :
    let call =
      accept_upload sha256 applicant scope 50
        (codes "abc")
        (codes "application/pdf")
        200
        (ok tt)
        intents in
    let Due =
      IsDue sha256 applicant scope 50 (codes "abc") (codes "application/pdf") 200 (ok tt) intents in
    (((v : UploadIntentRecord) × (call.0 ≡ ok v)) ↔ ((r : UploadIntentRecord) × Due r))
    × ((r : UploadIntentRecord)
        → Due r
        → call.1 ≡ insert (1, 50) (record r { uploaded = true }) intents)
    × ((x : Error) → call.0 ≡ err x → call.1 ≡ intents)
accept_upload_iff_example =
    accept_upload_iff sha256 applicant scope 50 (codes "abc") (codes "application/pdf") 200 (ok tt)
      intents

accepted :
    accept_upload sha256 applicant scope 50
      (codes "abc")
      (codes "application/pdf")
      200
      (ok tt)
      intents
    ≡ (
      ok (record (intent_of scope request) { uploaded = true }),
      ((1, 50), record (intent_of scope request) { uploaded = true }) ∷ [],
    )
unfolding accept_upload gbsa_aws_project.Shared.Tenant.ensure_applicant_scope lookup insert
accepted = refl

abbrev neighbour : ApplicantScope
neighbour = record scope { applicant_id = 6; invitation_id = 7 }

Foreign-Untouched_example :
    Untouched scope intents (delete_upload reviewer neighbour 50 (ok true) intents).1
Foreign-Untouched_example =
    Foreign-Untouched sha256 scope intents (delete_upload reviewer neighbour 50 (ok true) intents).1
      (Foreign.deletes reviewer neighbour 50 (ok true) (λ e. ground arith) Foreign.here)
