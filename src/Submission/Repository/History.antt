-- ===== src/Submission/Repository/History.antt =====
-- The table over any number of operations.
use gbsa_aws_project.Base.{
  ◌≡◌, refl, sym, ◌∙◌, subst, true, Option, none, some, arith, inl, inr, Bool-cases, Option-cases,
}
use gbsa_aws_project.Base.Equality.{eq, nat_eq, eq→≡}
use gbsa_aws_project.Base.Dict.{lookup, insert, lookup-insert, Holds, insert-Holds}
use gbsa_aws_project.Base.Exec.{ok, Result-cases, ◌>>=◌}
use gbsa_aws_project.Shared.Errors.{Outcome}
use gbsa_aws_project.Shared.Ids.{OpaqueId}
use gbsa_aws_project.Shared.Tenant.{TenantContext, ensure_applicant_scope}
use gbsa_aws_project.Interview.Text.{Text}
use gbsa_aws_project.Submission.Status.{SubmissionStatus, Submission}
use gbsa_aws_project.Submission.Repository.{
  Submissions, add_submission, get_submission, store_result, is_received, toward_analysis,
  mark_submission_analyzing, completed, complete_submission, mark_submission_ready,
}
use gbsa_aws_project.Submission.Repository.Rows.{
  IsUpdate, IsUpdate-refl, IsUpdate-trans, IsExplained, toward_analysis-IsUpdate,
  completed-IsUpdate,
}

-- A row stands under its identifier, and says what an impairment means.
abbrev pub IsRow : OpaqueId → Submission → Type 0
IsRow k s = (s.submission_id ≡ k) × IsExplained s

-- Every row is still there, at most updated.
abbrev pub Kept : Submissions → Submissions → Type 0
Kept rows rows' =
    (k : OpaqueId) (s : Submission)
    → lookup k rows ≡ some s
    → (s' : Submission) × (lookup k rows' ≡ some s') × IsUpdate s s'

-- Both.
abbrev pub Passes : Submissions → Submissions → Type 0
Passes rows rows' = Holds IsRow rows' × Kept rows rows'

Passes-refl : (rows : Submissions) → Holds IsRow rows → Passes rows rows
Passes-refl rows h = (h, λ k s at. (s, at, IsUpdate-refl s (h k s at).1))

Passes-trans : (a b c : Submissions) → Passes a b → Passes b c → Passes a c
Passes-trans a b c p q = (
  q.0,
  λ k s at.
      let (t, there, u) = p.1 k s at in
      let (v, then_there, w) = q.1 k t there in (v, then_there, IsUpdate-trans s t v u w),
)

insert-Passes :
    (rows : Submissions) (s s' : Submission)
    → Holds IsRow rows
    → lookup s'.submission_id rows ≡ some s
    → IsUpdate s s'
    → Passes rows (insert s'.submission_id s' rows)
insert-Passes rows s s' h at u = (
  insert-Holds IsRow s'.submission_id s' rows (refl, u.explained) h,
  λ k t there. elim (Bool-cases (eq s'.submission_id k)) [
    | inr other ↦ (
      t,
      (rw other at (lookup-insert k s'.submission_id s' rows)) ∙ there,
      IsUpdate-refl t (h k t there).1,
    )
    | inl same ↦
        let p = eq→≡ s'.submission_id k same in
        let there' = subst (λ i. lookup i rows ≡ some t) (sym p) there in
        let q : s ≡ t = ground arith in
        (s', rw same at (lookup-insert k s'.submission_id s' rows), subst (λ r. IsUpdate r s') q u)
  ],
)

add_submission-Passes :
    (context : TenantContext) (rows : Submissions) (s s' : Submission)
    → Holds IsRow rows
    → lookup s'.submission_id rows ≡ some s
    → IsUpdate s s'
    → Passes rows (add_submission context s' rows).1
unfolding add_submission
add_submission-Passes context rows s s' h at u =
    elim (Result-cases (ensure_applicant_scope (some context) s'.scope)) [
      | inr (x, denied) ↦ rw denied (Passes-refl rows h)
      | inl (c, checked) ↦ rw checked (insert-Passes rows s s' h at u)
    ]

get_submission-row :
    (context : TenantContext) (id : OpaqueId) (rows : Submissions) {s : Submission}
    → get_submission context id rows ≡ ok s
    → lookup id rows ≡ some s
unfolding get_submission
get_submission-row context id rows h = elim (Option-cases (lookup id rows)) [
  | inl missing ↦ let h' = rw missing at h in absurd (ground arith)
  | inr (r, found) ↦ let h' = rw found at h in ground arith
]

-- A row is read, changed by `f` and written.
update-Passes :
    (context : TenantContext) (id : OpaqueId) (f : Submission → Outcome Submission)
    (rows : Submissions)
    → ((s s' : Submission) → IsExplained s → f s ≡ ok s' → IsUpdate s s')
    → Holds IsRow rows
    → Passes rows (store_result context (get_submission context id rows >>= f) rows).1
update-Passes context id f rows updates h = elim (Result-cases (get_submission context id rows)) [
  | inr (x, missing) ↦ rw missing (Passes-refl rows h)
  | inl (s, found) ↦ elim (Result-cases (f s)) [
    | inr (x, failed) ↦ rw (found, failed) (Passes-refl rows h)
    | inl (s', passed) ↦
        let at = get_submission-row context id rows found in
        let row = h id s at in
        let u = updates s s' row.1 passed in
        rw (found, passed)
          (add_submission-Passes context rows s s' h
            (subst (λ k. lookup k rows ≡ some s) (sym (u.ident ∙ row.0)) at) u)
  ]
]

mark_analyzing-Passes :
    (context : TenantContext) (id : OpaqueId) (rows : Submissions)
    → Holds IsRow rows
    → Passes rows (mark_submission_analyzing context id rows).1
unfolding mark_submission_analyzing
mark_analyzing-Passes context id rows h =
    update-Passes context id toward_analysis rows (λ s s'. toward_analysis-IsUpdate s) h

complete-Passes :
    (context : TenantContext) (id : OpaqueId) (status : SubmissionStatus) (f i : Option Text)
    (rows : Submissions)
    → Holds IsRow rows
    → Passes rows (complete_submission context id status f i rows).1
unfolding complete_submission
complete-Passes context id status f i rows h =
    update-Passes context id (completed status f i) rows (λ s s'. completed-IsUpdate status f i s) h

mark_ready-Passes :
    (context : TenantContext) (id : OpaqueId) (rows : Submissions)
    → Holds IsRow rows
    → Passes rows (mark_submission_ready context id rows).1
unfolding mark_submission_ready
mark_ready-Passes context id rows h =
    let first = mark_analyzing-Passes context id rows h in
    elim (Result-cases (mark_submission_analyzing context id rows).0) [
      | inr (x, failed) ↦ rw failed first
      | inl (s, passed) ↦ rw passed (
          Passes-trans rows _ _ first (
            complete-Passes context s.submission_id SubmissionStatus.ready none none
              (mark_submission_analyzing context id rows).1 first.0))
    ]

-- What operations leave of a table, be it after they raised. `add_submission` writes over a row of
-- the same identifier; here, as the service calls it, a submission that is added is received and its
-- identifier is not on record.
pub data Later (rows : Submissions) : Submissions → Type 0 where
  here : Later rows rows
  adds :
      {now : Submissions} (context : TenantContext) (s : Submission)
      → is_received s.status ≡ true
      → lookup s.submission_id now ≡ none
      → Later rows now
      → Later rows (add_submission context s now).1
  marks :
      {now : Submissions} (context : TenantContext) (id : OpaqueId)
      → Later rows now
      → Later rows (mark_submission_analyzing context id now).1
  completes :
      {now : Submissions} (context : TenantContext) (id : OpaqueId) (status : SubmissionStatus)
      (f i : Option Text)
      → Later rows now
      → Later rows (complete_submission context id status f i now).1
  readies :
      {now : Submissions} (context : TenantContext) (id : OpaqueId)
      → Later rows now
      → Later rows (mark_submission_ready context id now).1

received-IsExplained : (s : Submission) → is_received s.status ≡ true → IsExplained s
received-IsExplained s h = λ c. absurd (ground arith)

insert_new-Passes :
    (rows : Submissions) (s : Submission)
    → Holds IsRow rows
    → lookup s.submission_id rows ≡ none
    → IsExplained s
    → Passes rows (insert s.submission_id s rows)
insert_new-Passes rows s h new e = (
  insert-Holds IsRow s.submission_id s rows (refl, e) h,
  λ k t there. elim (Bool-cases (eq s.submission_id k)) [
    | inl same ↦
        let p = eq→≡ s.submission_id k same in
        let there' = subst (λ i. lookup i rows ≡ some t) (sym p) there in absurd (ground arith)
    | inr other ↦ (
      t,
      (rw other at (lookup-insert k s.submission_id s rows)) ∙ there,
      IsUpdate-refl t (h k t there).1,
    )
  ],
)

add_new-Passes :
    (context : TenantContext) (rows : Submissions) (s : Submission)
    → is_received s.status ≡ true
    → lookup s.submission_id rows ≡ none
    → Holds IsRow rows
    → Passes rows (add_submission context s rows).1
unfolding add_submission
add_new-Passes context rows s r new h =
    elim (Result-cases (ensure_applicant_scope (some context) s.scope)) [
      | inr (x, denied) ↦ rw denied (Passes-refl rows h)
      | inl (c, checked) ↦ rw checked (insert_new-Passes rows s h new (received-IsExplained s r))
    ]

-- Whatever operations follow on a table of proper rows, such as the empty one, if each submission
-- that is added is received and its identifier is not on record: every row stays under its
-- identifier, with its scope, source, size and instant; a row that is ready or deleted stays as it
-- is; and a row that is partial or failed has an impact summary.
pub Later-Passes : (rows now : Submissions) → Holds IsRow rows → Later rows now → Passes rows now
Later-Passes rows _ h here = Passes-refl rows h
Later-Passes rows _ h (adds {now} context s r new l) =
    let before = Later-Passes rows now h l in
    Passes-trans rows now _ before (add_new-Passes context now s r new before.0)
Later-Passes rows _ h (marks {now} context id l) =
    let before = Later-Passes rows now h l in
    Passes-trans rows now _ before (mark_analyzing-Passes context id now before.0)
Later-Passes rows _ h (completes {now} context id status f i l) =
    let before = Later-Passes rows now h l in
    Passes-trans rows now _ before (complete-Passes context id status f i now before.0)
Later-Passes rows _ h (readies {now} context id l) =
    let before = Later-Passes rows now h l in
    Passes-trans rows now _ before (mark_ready-Passes context id now before.0)
