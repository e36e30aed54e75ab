-- ===== src/Submission/Repository/Ready.antt =====
-- When a submission can be made ready.
use gbsa_aws_project.Base.{
  ◌≡◌, ◌⊎◌, refl, sym, ap, ◌∙◌, true, false, none, some, arith, inl, inr, Bool-cases,
}
use gbsa_aws_project.Base.Equality.{nat_eq}
use gbsa_aws_project.Base.Dict.{lookup, insert, lookup-insert_self, insert-lookup, insert-insert}
use gbsa_aws_project.Base.Exec.{ok, err}
use gbsa_aws_project.Shared.Errors.{value_error}
use gbsa_aws_project.Shared.Ids.{OpaqueId}
use gbsa_aws_project.Shared.Tenant.{TenantContext}
use gbsa_aws_project.Shared.Tenant.Isolation.{MayAct, ensure_applicant_scope_iff}
use gbsa_aws_project.Submission.Status.{
  SubmissionStatus, Submission, is_bad_size, submission_post_init, moved, transition,
}
use gbsa_aws_project.Submission.Repository.{
  Submissions, add_submission, get_submission, toward_analysis, mark_submission_analyzing,
  completed, complete_submission, mark_submission_ready,
}
use gbsa_aws_project.Submission.Repository.Rows.{is_closed}

-- What the two first steps make of an open submission, from where it can be completed.
abbrev Opened : Submission → Type 0
Opened s =
    (t : Submission) × (toward_analysis s ≡ ok t)
    × (t.submission_id ≡ s.submission_id)
    × (t.scope ≡ s.scope)
    × (completed SubmissionStatus.ready none none t ≡ ok (moved SubmissionStatus.ready none none s))

module _ (s : Submission) (size : is_bad_size s.byte_size ≡ false) where
  opened : (st : SubmissionStatus) → s.status ≡ st → is_closed st ≡ false → Opened s
  unfolding toward_analysis transition submission_post_init completed
  opened SubmissionStatus.received e live =
      (moved SubmissionStatus.analyzing none none s, ground arith, refl, refl, ground arith)
  opened SubmissionStatus.validating e live =
      (moved SubmissionStatus.analyzing none none s, ground arith, refl, refl, ground arith)
  opened SubmissionStatus.analyzing e live = (s, ground arith, refl, refl, ground arith)
  opened SubmissionStatus.partial e live = (s, ground arith, refl, refl, ground arith)
  opened SubmissionStatus.failed e live = (s, ground arith, refl, refl, ground arith)
  opened SubmissionStatus.ready e live = absurd (ground arith)
  opened SubmissionStatus.deleted e live = absurd (ground arith)

-- A closed submission passes the two first steps as it is, and is not completed.
closed_same :
    (s : Submission) (st : SubmissionStatus)
    → s.status ≡ st
    → is_closed st ≡ true
    → (toward_analysis s ≡ ok s)
      × (completed SubmissionStatus.ready none none s
          ≡ err (value_error "submission must be analyzing before completion"))
unfolding toward_analysis completed
closed_same s SubmissionStatus.ready e c = (ground arith, ground arith)
closed_same s SubmissionStatus.deleted e c = (ground arith, ground arith)
closed_same s _ e c = absurd (ground arith)

module _ (context : TenantContext) (id : OpaqueId) (rows : Submissions) (s : Submission)
    (at : lookup id rows ≡ some s) (key : s.submission_id ≡ id) (may : MayAct context s.scope) where
  found_row :
      (now : Submissions) (t : Submission)
      → lookup id now ≡ some t
      → t.scope ≡ s.scope
      → get_submission context id now ≡ ok t
  unfolding get_submission
  found_row now t there scope =
      let p : t.scope.company_id ≡ context.company_id =
        ap (λ c. c.company_id) scope ∙ sym may.company in
      rw there (ground arith)

  added_row :
      (now : Submissions) (t : Submission)
      → t.submission_id ≡ id
      → t.scope ≡ s.scope
      → add_submission context t now ≡ (ok t, insert id t now)
  unfolding add_submission
  added_row now t ident scope =
      rw (scope, (ensure_applicant_scope_iff context s.scope).1 may, ident) refl

  -- A submission on record, of no size or a positive one, that an actor of its scope makes ready: if
  -- it was ready or deleted, the call raises and the table stays as it is; from every other state
  -- the submission is ready, with neither failure nor impact, and the other rows stay.
  pub mark_submission_ready_cases :
      is_bad_size s.byte_size ≡ false
      → let done = moved SubmissionStatus.ready none none s in
        ((is_closed s.status ≡ true)
          × (mark_submission_ready context id rows
              ≡ (err (value_error "submission must be analyzing before completion"), rows)))
        ⊎ ((is_closed s.status ≡ false)
            × (mark_submission_ready context id rows ≡ (ok done, insert id done rows)))
  unfolding mark_submission_ready mark_submission_analyzing complete_submission
  mark_submission_ready_cases size = elim (Bool-cases (is_closed s.status)) [
    | inl closed ↦
        let (first, last) = closed_same s s.status refl closed in
        inl (
          closed,
          rw
              (
                found_row rows s at refl,
                first,
                added_row rows s key refl,
                insert-lookup id s rows at,
                key,
                found_row rows s at refl,
                last,
              )
              refl,
        )
    | inr open_ ↦
        let (t, first, ident, scope, last) = opened s size s.status refl open_ in
        let done = moved SubmissionStatus.ready none none s in
        inr (
          open_,
          rw
              (
                found_row rows s at refl,
                first,
                added_row rows t (ident ∙ key) scope,
                ident ∙ key,
                found_row (insert id t rows) t (lookup-insert_self id t rows) scope,
                last,
                added_row (insert id t rows) done key refl,
                insert-insert id t done rows,
              )
              refl,
        )
  ]
