-- ===== src/Submission/Repository.antt =====
-- submission_analysis/repositories/postgres.py: the table of submissions.
pub mod Rows
pub mod History
pub mod Ready
use gbsa_aws_project.Base.{
  ℕ, Bool, true, false, not, ◌&&◌, ◌||◌, Option, none, some, List, [], ◌∷◌, ◌==◌, ltb, leb, map,
  keep, if◌then◌else◌,
}
use gbsa_aws_project.Base.Equality.{eq, nat_eq}
use gbsa_aws_project.Base.Dict.{Dict, lookup, insert}
use gbsa_aws_project.Base.Exec.{ok, err, raise_if, or_raise, ◌>>=◌, ◌>>◌}
use gbsa_aws_project.Shared.Errors.{
  Outcome, Method, value_error, safe, resource_not_found, tenant_scope_denied,
}
use gbsa_aws_project.Shared.Ids.{OpaqueId}
use gbsa_aws_project.Shared.Tenant.{TenantContext, ApplicantScope, ensure_applicant_scope}
use gbsa_aws_project.Interview.Text.{Text}
use gbsa_aws_project.Submission.Status.{SubmissionStatus, Submission, is_impaired, transition}

-- The rows by their primary key.
abbrev pub Submissions : Type 0
Submissions = Dict OpaqueId Submission

abbrev pub store_row : Submission → Outcome ApplicantScope → Method Submissions Submission
store_row s (err e) rows = (err e, rows)
store_row s (ok _) rows = (ok s, insert s.submission_id s rows)

-- `SubmissionAnalysisRepository.add_submission`
unfoldable pub add_submission : TenantContext → Submission → Method Submissions Submission
add_submission context s rows = store_row s (ensure_applicant_scope (some context) s.scope) rows

-- `SubmissionAnalysisRepository.get_submission`
unfoldable pub get_submission :
    TenantContext → (submission_id : OpaqueId) → Submissions → Outcome Submission
get_submission context submission_id rows = do
  row ← or_raise (lookup submission_id rows) (safe resource_not_found)
  raise_if (not (row.scope.company_id == context.company_id)) (safe tenant_scope_denied)
  ok row

abbrev is_in_scope : ApplicantScope → Submission → Bool
is_in_scope scope s =
    s.scope.company_id == scope.company_id
    && s.scope.applicant_id == scope.applicant_id
    && s.scope.invitation_id == scope.invitation_id

-- a row in front of the first that is later
insert_row : Submission → List Submission → List Submission
insert_row s [] = s ∷ []
insert_row s (t ∷ ts) =
    if ltb s.created_at t.created_at
      || s.created_at == t.created_at && leb s.submission_id t.submission_id
    then s ∷ t ∷ ts
    else t ∷ insert_row s ts

-- `ORDER BY created_at, submission_id`: texts of identifiers compare as their numbers do.
order_rows : List Submission → List Submission
unfolding insert_row
order_rows [] = []
order_rows (s ∷ ss) = insert_row s (order_rows ss)

-- `SubmissionAnalysisRepository.list_submissions`
unfoldable pub list_submissions :
    TenantContext → ApplicantScope → Submissions → Outcome (List Submission)
unfolding order_rows
list_submissions context scope rows = do
  ensure_applicant_scope (some context) scope
  ok (order_rows (keep (is_in_scope scope) (map (λ x. x.1) rows)))

abbrev pub store_result : TenantContext → Outcome Submission → Method Submissions Submission
store_result context (err e) rows = (err e, rows)
store_result context (ok s) rows = add_submission context s rows

abbrev pub is_received : SubmissionStatus → Bool
is_received SubmissionStatus.received = true
is_received _ = false

abbrev pub is_validating : SubmissionStatus → Bool
is_validating SubmissionStatus.validating = true
is_validating _ = false

abbrev pub is_analyzing : SubmissionStatus → Bool
is_analyzing SubmissionStatus.analyzing = true
is_analyzing _ = false

-- `if test: submission = submission.transition(target)`
abbrev pub transition_if : Bool → SubmissionStatus → Submission → Outcome Submission
transition_if true target s = transition target none none s
transition_if false target s = ok s

-- the two steps to the analysis
unfoldable pub toward_analysis : Submission → Outcome Submission
toward_analysis s = do
  checked ← transition_if (is_received s.status) SubmissionStatus.validating s
  transition_if (is_validating checked.status) SubmissionStatus.analyzing checked

-- `SubmissionAnalysisRepository.mark_submission_analyzing`
unfoldable pub mark_submission_analyzing :
    TenantContext → (submission_id : OpaqueId) → Method Submissions Submission
unfolding add_submission
mark_submission_analyzing context submission_id rows =
    store_result context (get_submission context submission_id rows >>= toward_analysis) rows

-- the end of the analysis of a submission
unfoldable pub completed :
    SubmissionStatus → (failure_code impact_summary : Option Text) → Submission → Outcome Submission
completed status failure_code impact_summary s = do
  again ← transition_if (is_impaired s.status) SubmissionStatus.analyzing s
  raise_if (not (is_analyzing again.status))
      (value_error "submission must be analyzing before completion")
  transition status failure_code impact_summary again

-- `SubmissionAnalysisRepository.complete_submission`
unfoldable pub complete_submission :
    TenantContext
    → (submission_id : OpaqueId) → (status : SubmissionStatus)
    → (failure_code impact_summary : Option Text) → Method Submissions Submission
unfolding add_submission
complete_submission context submission_id status failure_code impact_summary rows =
    store_result context
      (get_submission context submission_id rows >>= completed status failure_code impact_summary)
      rows

abbrev complete_ready : TenantContext → Outcome Submission → Method Submissions Submission
complete_ready context (err e) rows = (err e, rows)
complete_ready context (ok s) rows =
    complete_submission context s.submission_id SubmissionStatus.ready none none rows

-- `SubmissionAnalysisRepository.mark_submission_ready`
unfoldable pub mark_submission_ready :
    TenantContext → (submission_id : OpaqueId) → Method Submissions Submission
unfolding mark_submission_analyzing complete_submission
mark_submission_ready context submission_id rows =
    let (r, rows') = mark_submission_analyzing context submission_id rows in
    complete_ready context r rows'
