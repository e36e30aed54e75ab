-- ===== src/Submission/Repository/Rows.antt =====
-- What the operations on the table make of a row.
use gbsa_aws_project.Base.{
  ◌≡◌, refl, sym, ◌∙◌, subst, Bool, true, false, not, ◌&&◌, Option, none, arith, inl, inr,
  Bool-cases,
}
use gbsa_aws_project.Base.Equality.{nat_eq}
use gbsa_aws_project.Base.Exec.{ok, Result-cases}
use gbsa_aws_project.Interview.Text.{Text}
use gbsa_aws_project.Submission.Status.{
  SubmissionStatus, Submission, submission_post_init, is_impaired, is_given, moved, transition,
}
use gbsa_aws_project.Submission.Repository.{
  is_received, is_validating, is_analyzing, transition_if, toward_analysis, completed,
}

-- The states that no analysis leaves.
abbrev pub is_closed : SubmissionStatus → Bool
is_closed SubmissionStatus.ready = true
is_closed SubmissionStatus.deleted = true
is_closed _ = false

-- What an operation leaves of a row: the submission is the same, it is not reopened, and it says
-- what an impairment means.
pub record IsUpdate (s s' : Submission) : Type 0 where
  pub ident : s'.submission_id ≡ s.submission_id
  pub scope : s'.scope ≡ s.scope
  pub source : s'.source_uri ≡ s.source_uri
  pub size : s'.byte_size ≡ s.byte_size
  pub created : s'.created_at ≡ s.created_at
  pub final : is_closed s.status ≡ true → s' ≡ s
  pub explained : is_impaired s'.status ≡ true → is_given s'.impact_summary ≡ true

pub IsUpdate-refl :
    (s : Submission)
    → (is_impaired s.status ≡ true → is_given s.impact_summary ≡ true)
    → IsUpdate s s
IsUpdate-refl s h = record {
  ident = refl;
  scope = refl;
  source = refl;
  size = refl;
  created = refl;
  final = λ c. refl;
  explained = h;
}

pub IsUpdate-trans : (s t u : Submission) → IsUpdate s t → IsUpdate t u → IsUpdate s u
IsUpdate-trans s t u a b = record {
  ident = b.ident ∙ a.ident;
  scope = b.scope ∙ a.scope;
  source = b.source ∙ a.source;
  size = b.size ∙ a.size;
  created = b.created ∙ a.created;
  final = λ c. let p = a.final c in b.final (subst (λ r. is_closed r.status ≡ true) (sym p) c) ∙ p;
  explained = b.explained;
}

transition-IsUpdate :
    (target : SubmissionStatus) (f i : Option Text) (s : Submission) {s' : Submission}
    → is_closed s.status ≡ false
    → transition target f i s ≡ ok s'
    → IsUpdate s s'
unfolding transition submission_post_init
transition-IsUpdate target f i s {s'} live h =
    let p : moved target f i s ≡ s' = ground arith in
    let said : not (is_impaired target && not (is_given i)) ≡ true = ground arith in
    subst (IsUpdate s) p (record {
      ident = refl;
      scope = refl;
      source = refl;
      size = refl;
      created = refl;
      final = λ c. absurd (ground arith);
      explained = λ c. ground arith;
    })

live_received : (st : SubmissionStatus) → is_received st ≡ true → is_closed st ≡ false
live_received SubmissionStatus.received h = refl
live_received _ h = ground arith

live_validating : (st : SubmissionStatus) → is_validating st ≡ true → is_closed st ≡ false
live_validating SubmissionStatus.validating h = refl
live_validating _ h = ground arith

live_impaired : (st : SubmissionStatus) → is_impaired st ≡ true → is_closed st ≡ false
live_impaired SubmissionStatus.partial h = refl
live_impaired SubmissionStatus.failed h = refl
live_impaired _ h = ground arith

live_analyzing : (st : SubmissionStatus) → is_analyzing st ≡ true → is_closed st ≡ false
live_analyzing SubmissionStatus.analyzing h = refl
live_analyzing _ h = ground arith

abbrev pub IsExplained : Submission → Type 0
IsExplained s = is_impaired s.status ≡ true → is_given s.impact_summary ≡ true

transition_if-IsUpdate :
    (b : Bool) (target : SubmissionStatus) (s : Submission) {s' : Submission}
    → (b ≡ true → is_closed s.status ≡ false)
    → IsExplained s
    → transition_if b target s ≡ ok s'
    → IsUpdate s s'
transition_if-IsUpdate true target s live e h = transition-IsUpdate target none none s (live refl) h
transition_if-IsUpdate false target s {s'} live e h =
    let p : s ≡ s' = ground arith in subst (IsUpdate s) p (IsUpdate-refl s e)

pub toward_analysis-IsUpdate :
    (s : Submission) {s' : Submission} → IsExplained s → toward_analysis s ≡ ok s' → IsUpdate s s'
unfolding toward_analysis
toward_analysis-IsUpdate s {s'} e h =
    elim (Result-cases (transition_if (is_received s.status) SubmissionStatus.validating s)) [
      | inr (x, failed) ↦ let h' = rw failed at h in absurd (ground arith)
      | inl (t, passed) ↦
          let a =
            transition_if-IsUpdate (is_received s.status) SubmissionStatus.validating s
              (live_received s.status) e passed in
          IsUpdate-trans s t s' a (
            transition_if-IsUpdate (is_validating t.status) SubmissionStatus.analyzing t
              (live_validating t.status) a.explained (rw passed at h))
    ]

pub completed-IsUpdate :
    (status : SubmissionStatus) (f i : Option Text) (s : Submission) {s' : Submission}
    → IsExplained s
    → completed status f i s ≡ ok s'
    → IsUpdate s s'
unfolding completed
completed-IsUpdate status f i s {s'} e h =
    elim (Result-cases (transition_if (is_impaired s.status) SubmissionStatus.analyzing s)) [
      | inr (x, failed) ↦ let h' = rw failed at h in absurd (ground arith)
      | inl (t, passed) ↦
          let a =
            transition_if-IsUpdate (is_impaired s.status) SubmissionStatus.analyzing s
              (live_impaired s.status) e passed in
          elim (Bool-cases (is_analyzing t.status)) [
            | inr other ↦ let h' = rw (passed, other) at h in absurd (ground arith)
            | inl analyzing ↦ IsUpdate-trans s t s' a (
                transition-IsUpdate status f i t (live_analyzing t.status analyzing)
                  (rw (passed, analyzing) at h))
          ]
    ]
