-- ===== src/Interview/Session/History.antt =====
-- What stays of a session along its transitions.
use gbsa_aws_project.Base.{false}
use gbsa_aws_project.Base.{◌≢◌, sym, Option-cases, ◌⊎◌, inl, inr, Bool-cases}
use gbsa_aws_project.Base.{ℕ, ◌≤◌, ◌≡◌, refl, true, arith, ◌∙◌, subst}
use gbsa_aws_project.Base.Equality.{nat_eq, list_eq}
use gbsa_aws_project.Base.Exec.{ok}
use gbsa_aws_project.Shared.Ids.{Instant}
use gbsa_aws_project.Interview.Session.{
  SessionState, InterviewSession, is_completed, is_some, allowed, transition,
}
use gbsa_aws_project.Interview.Session.Machine.{IsValid, Moved, transition_moves}

-- Sequences of successful transitions, at any instants.
pub data Reach (s : InterviewSession) : InterviewSession → Type 0 where
  here : Reach s s
  next :
      {t u : InterviewSession} (now : Instant) (expected : ℕ) (target : SessionState)
      → Reach s t
      → transition now t expected target ≡ ok u
      → Reach s u

step-Moved :
    (now : Instant) (s s' : InterviewSession) (expected : ℕ) (target : SessionState)
    → IsValid s
    → transition now s expected target ≡ ok s'
    → (allowed s.state target ≡ true) × Moved now target s s'
unfolding transition
step-Moved now s s' expected target v h =
    let at : s.session_sequence ≡ expected = ground arith in
    let fits : allowed s.state target ≡ true = ground arith in
    let (t, e, m) = transition_moves now s target v fits in
    let same : t ≡ s' = ground arith in (fits, subst (Moved now target s) {x = t} same m)

-- How a session relates to one that it started from.
pub record Later (s t : InterviewSession) : Type 0 where
  pub valid : IsValid t
  pub sequence : s.session_sequence ≤ t.session_sequence
  pub ident : t.interview_session_id ≡ s.interview_session_id
  pub scope : t.scope ≡ s.scope
  pub started : (is_some s.started_at ≡ false) ⊎ (t.started_at ≡ s.started_at)
  pub finished :
      (is_completed s.state ≡ false)
      ⊎ ((is_completed t.state ≡ true) × (t.completed_at ≡ s.completed_at))

completed_stays :
    (from to : SessionState)
    → allowed from to ≡ true
    → is_completed from ≡ true
    → (is_completed to ≡ true) × (to ≢ SessionState.completed)
completed_stays from to h k = ground arith

Later-step :
    (now : Instant) (s t u : InterviewSession) (target : SessionState)
    → Later s t
    → allowed t.state target ≡ true
    → Moved now target t u
    → Later s u
Later-step now s t u target l fits m = record {
  valid = m.valid;
  sequence = omega (arith, l.sequence, m.sequence);
  ident = m.ident ∙ l.ident;
  scope = m.scope ∙ l.scope;
  started = elim l.started [
    | inl fresh ↦ inl fresh
    | inr kept ↦ elim (Option-cases s.started_at) [
      | inl fresh ↦ inl (rw fresh refl)
      | inr (at, set) ↦ inr (m.kept_start at (kept ∙ set) ∙ sym set)
    ]
  ];
  finished = elim l.finished [
    | inl active ↦ inl active
    | inr (was, kept) ↦
        let (stays, not_again) = completed_stays t.state target fits was in
        inr (rw m.state stays, m.not_completes not_again ∙ kept)
  ];
}

-- Along any transitions from a well-formed session, every session is well formed with the same
-- identifier and scope, the sequence never falls, `started_at` is kept once it is set, and a
-- completed session stays in a completed state with its `completed_at`.
pub Reach-Later : (s t : InterviewSession) → IsValid s → Reach s t → Later s t
Reach-Later s t v here = record {
  valid = v;
  sequence = omega arith;
  ident = refl;
  scope = refl;
  started = inr refl;
  finished = elim (Bool-cases (is_completed s.state)) [
    | inl done ↦ inr (done, refl)
    | inr active ↦ inl active
  ];
}
Reach-Later s u v (next {t = t} now expected target r step) =
    let l = Reach-Later s t v r in
    let (fits, m) = step-Moved now t u expected target l.valid step in
    Later-step now s t u target l fits m
