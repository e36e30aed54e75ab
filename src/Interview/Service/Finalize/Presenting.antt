-- ===== src/Interview/Service/Finalize/Presenting.antt =====
-- The session that awaits the answer to a question.
use gbsa_aws_project.Base.{ℕ, ◌+◌, ◌≡◌, refl, ◌∙◌, subst, true, [], ◌∷◌, ◌++◌, arith, inl, inr}
use gbsa_aws_project.Base.Equality.{nat_eq, list_eq, pair_eq}
use gbsa_aws_project.Base.Exec.{ok, Result-cases}
use gbsa_aws_project.Shared.Errors.{Outcome}
use gbsa_aws_project.Shared.Tenant.{TenantContext, ApplicantScope}
use gbsa_aws_project.Interview.Text.{Text}
use gbsa_aws_project.Interview.Session.{
  SessionState, InterviewSession, allowed, transition, with_degraded_mode,
}
use gbsa_aws_project.Interview.Session.Machine.{IsValid, Moved, transition_moves}
use gbsa_aws_project.Interview.Session.Degraded.{with_degraded_mode_cases}
use gbsa_aws_project.Interview.Dialogue.{DegradedMode}
use gbsa_aws_project.Interview.Generator.{SpeechSynthesis, synthesize}
use gbsa_aws_project.Interview.Service.{Settings, Answer, Asked, add_mode}
use gbsa_aws_project.Interview.Service.Finalize.{present}

-- `s'` awaits an answer at the sequence `n`, and is otherwise the same session as `s`.
pub record IsAwaiting (n : ℕ) (s s' : InterviewSession) : Type 0 where
  pub valid : IsValid s'
  pub state : s'.state ≡ SessionState.awaiting_answer
  pub sequence : s'.session_sequence ≡ n
  pub ident : s'.interview_session_id ≡ s.interview_session_id
  pub scope : s'.scope ≡ s.scope

with_mode-IsAwaiting :
    (n : ℕ) (mode : Text) (s t t' : InterviewSession)
    → IsAwaiting n s t
    → with_degraded_mode t mode ≡ ok t'
    → IsAwaiting n s t'
with_mode-IsAwaiting n mode s t t' h e = elim (with_degraded_mode_cases t mode h.valid) [
  | inl (old, e') ↦ let p : t ≡ t' = ground arith in subst (IsAwaiting n s) {x = t} p h
  | inr (inl (new, fine, e', v)) ↦
      let u : InterviewSession = record t { degraded_modes = t.degraded_modes ++ mode ∷ [] } in
      let p : u ≡ t' = ground arith in
      subst (IsAwaiting n s) {x = u} p (record {
        valid = v;
        state = h.state;
        sequence = h.sequence;
        ident = h.ident;
        scope = h.scope;
      })
  | inr (inr (new, bad, e')) ↦ absurd (ground arith)
]

add_mode-IsAwaiting :
    (n : ℕ) (mode : DegradedMode) (s t t' : InterviewSession)
    → IsAwaiting n s t
    → add_mode mode t ≡ ok t'
    → IsAwaiting n s t'
add_mode-IsAwaiting n DegradedMode.undegraded s t t' h e =
    let p : t ≡ t' = ground arith in subst (IsAwaiting n s) {x = t} p h
add_mode-IsAwaiting n DegradedMode.search_fallback s t t' h e = with_mode-IsAwaiting n _ s t t' h e
add_mode-IsAwaiting n DegradedMode.model_fallback s t t' h e = with_mode-IsAwaiting n _ s t t' h e
add_mode-IsAwaiting n DegradedMode.text_only s t t' h e = with_mode-IsAwaiting n _ s t t' h e

-- A session in preparation moves on to the next answer.
awaits :
    (a : Answer) (s p t : InterviewSession)
    → Moved a.preparing_at SessionState.preparing_question s p
    → transition a.awaiting_at p p.session_sequence SessionState.awaiting_answer ≡ ok t
    → IsAwaiting (s.session_sequence + 2) s t
awaits a s p t m e =
    let fits : allowed p.state SessionState.awaiting_answer ≡ true = rw m.state refl in
    let (u, goes, n) = transition_moves a.awaiting_at p SessionState.awaiting_answer m.valid fits in
    let q : u ≡ t = ground arith in
    subst (IsAwaiting (s.session_sequence + 2) s) {x = u} q (record {
      valid = n.valid;
      state = n.state;
      sequence = omega (arith, n.sequence, m.sequence);
      ident = n.ident ∙ m.ident;
      scope = n.scope ∙ m.scope;
    })

module _ (settings : Settings) (context : TenantContext) (scope : ApplicantScope) (a : Answer) where
  pub present-IsAwaiting :
      (s : InterviewSession) (asked : Asked) {speech : SpeechSynthesis} {s' : InterviewSession}
      → Moved a.preparing_at SessionState.preparing_question s asked.preparing
      → present settings context scope a asked ≡ ok (speech, s')
      → IsAwaiting (s.session_sequence + 2) s s'
  unfolding present
  present-IsAwaiting s asked {speech} {s'} m e =
      elim (Result-cases (
        synthesize settings.speech_fails settings.url_ttl context scope.company_id asked.question
          a.audio_id a.marks_id a.synthesized_at)) [
            | inr (x, f) ↦ absurd (ground arith)
            | inl (sp, e1) ↦
                elim (Result-cases (
                  transition a.awaiting_at asked.preparing asked.preparing.session_sequence
                    SessionState.awaiting_answer)) [
                      | inr (x, f) ↦ absurd (ground arith)
                      | inl (t, e2) ↦
                          elim (Result-cases (add_mode asked.generated.degraded_mode t)) [
                            | inr (x, f) ↦ absurd (ground arith)
                            | inl (u, e3) ↦ elim (Result-cases (add_mode sp.degraded_mode u)) [
                              | inr (x, f) ↦ absurd (ground arith)
                              | inl (w, e4) ↦
                                  let n = s.session_sequence + 2 in
                                  let got : Outcome (SpeechSynthesis × InterviewSession) =
                                    ok (sp, w) in
                                  let found : got ≡ ok (speech, s') = rw (e1, e2, e3, e4) at e in
                                  let p : w ≡ s' = ground arith in
                                  subst (IsAwaiting n s) {x = w} p (
                                    add_mode-IsAwaiting n sp.degraded_mode s u w
                                      (add_mode-IsAwaiting n asked.generated.degraded_mode s t u
                                        (awaits a s asked.preparing t m e2) e3)
                                      e4)
                            ]
                          ]
                    ]
          ]
