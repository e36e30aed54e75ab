-- ===== src/Interview/Service/Finalize/Answered.antt =====
-- Every way in which an answer ends.
use mathlib.Core.List.{append-nil}
use gbsa_aws_project.Base.{ℕ, ◌≡◌, refl, sym, ◌∙◌, subst, ap, some, [], ◌∷◌, ◌++◌, arith, inl, inr}
use gbsa_aws_project.Base.Equality.{nat_eq, list_eq, pair_eq}
use gbsa_aws_project.Base.Dict.{lookup, insert-insert}
use gbsa_aws_project.Base.Exec.{Result, ok, err, Result-cases}
use gbsa_aws_project.Shared.Errors.{Error, Outcome}
use gbsa_aws_project.Shared.Ids.{OpaqueId}
use gbsa_aws_project.Shared.Tenant.{TenantContext, ApplicantScope, session_key}
use gbsa_aws_project.Shared.Tenant.Isolation.{MayAct}
use gbsa_aws_project.Interview.Text.{Text}
use gbsa_aws_project.Interview.Session.{SessionState, InterviewSession}
use gbsa_aws_project.Interview.Turn.{Turn, turn_post_init}
use gbsa_aws_project.Interview.Dialogue.{StreamingTranscript}
use gbsa_aws_project.Interview.Service.{
  InterviewService, Settings, Answer, NextQuestionResult, turn_list, with_turns, begin_answer,
  answer_turn_of,
}
use gbsa_aws_project.Interview.Service.Invariant.{
  IsConsistent, after-IsConsistent, with_turns-IsConsistent, AreNumbered-append_two,
  turn_list-AreNumbered,
}
use gbsa_aws_project.Interview.Service.Finalize.{ask, with_answer, begun, finalize}
use gbsa_aws_project.Interview.Service.Commands.Stored.{
  get_session_found, get_session_cases, same_key,
}
use gbsa_aws_project.Interview.Service.Finalize.Asking.{ask-IsAsked, turn_post_init-same}
use gbsa_aws_project.Interview.Service.Finalize.Ending.{begin_answer_lem, asked-Ends}
use gbsa_aws_project.Interview.Service.Finalize.Outcomes.{question_record, Ends}

module _ (casefold : Text → Text) (uuid : Text → Outcome ℕ) (settings : Settings) where
  module _ (context : TenantContext) (scope : ApplicantScope) (session_id : OpaqueId) (a : Answer)
      (service : InterviewService) (s : InterviewSession) (h : IsConsistent service)
      (may : MayAct context scope)
      (at : lookup (session_key scope session_id) service.sessions ≡ some s)
      (awaits : s.state ≡ SessionState.awaiting_answer)
      (level : s.session_sequence ≡ a.expected_sequence) where
    turn-Ends :
        (transcript : StreamingTranscript) (o : Outcome Turn)
        → let key = session_key scope session_id in
          let ts = turn_list key service in
          ((t : Turn) → o ≡ ok t → answer_turn_of scope session_id ts a.transcript_text a ≡ t)
          → Ends casefold uuid settings scope session_id a s service (
              with_answer casefold uuid settings context scope session_id a s transcript ts o
                (with_turns key ts service))
    unfolding with_answer
    turn-Ends transcript (err e) made =
        let key = session_key scope session_id in
        let ts = turn_list key service in
        inr (
          inl (
            e,
            (
              [],
              rw (append-nil ts) refl,
              omega arith,
              rw (append-nil ts) (turn_list-AreNumbered key service h),
            ),
          ))
    turn-Ends transcript (ok t) made =
        let key = session_key scope session_id in
        let ts = turn_list key service in
        let answer = answer_turn_of scope session_id ts a.transcript_text a in
        rw (← (made t refl), insert-insert key ts (ts ++ answer ∷ []) service.turns)
          (asked-Ends casefold uuid settings context scope session_id a service s h may at awaits
            level transcript
            (ask casefold uuid settings context scope session_id a s transcript (ts ++ answer ∷ []))
            (λ asked e.
              ask-IsAsked casefold uuid settings context scope session_id a s transcript
                (ts ++ answer ∷ []) e))

  -- How an answer ends, for an actor of the scope and a session on record: it raises before it changes
  -- anything; or it raises and leaves the sessions and the checkpoints as they were, but one or two
  -- turns more, numbered on; or it gives the next question, which may be asked after those before it,
  -- on the criterion that was asked for: the session awaits the next answer two sequences later, its
  -- turns have the answer and the question added, and its checkpoint names both.
  pub finalize_cases :
      (context : TenantContext) (scope : ApplicantScope) (session_id : OpaqueId) (a : Answer)
      (service : InterviewService) (s : InterviewSession)
      → IsConsistent service
      → MayAct context scope
      → lookup (session_key scope session_id) service.sessions ≡ some s
      → Ends casefold uuid settings scope session_id a s service
          (finalize casefold uuid settings context scope session_id a service)
  unfolding finalize begun
  finalize_cases context scope session_id a service s h may at =
      let key = session_key scope session_id in
      let ts = turn_list key service in
      elim (Result-cases (begin_answer settings context scope session_id a service)) [
        | inr (e, failed) ↦ inl (e, rw failed refl)
        | inl ((s', transcript), passed) ↦
            let (same, awaits, level, text) =
              begin_answer_lem casefold uuid settings context scope session_id a service s s'
                transcript (get_session_found context scope session_id service s may at) passed in
            rw (passed, same)
              (turn-Ends context scope session_id a service s h may at awaits level transcript
                (turn_post_init (answer_turn_of scope session_id ts transcript.text a))
                (λ t e.
                  subst (λ x. answer_turn_of scope session_id ts x a ≡ t) text
                    (turn_post_init-same (answer_turn_of scope session_id ts transcript.text a) e)))
      ]

  Ends-IsConsistent :
      (scope : ApplicantScope) (session_id : OpaqueId) (a : Answer) (service : InterviewService)
      (s : InterviewSession) (outcome : Result Error NextQuestionResult × InterviewService)
      → IsConsistent service
      → lookup (session_key scope session_id) service.sessions ≡ some s
      → Ends casefold uuid settings scope session_id a s service outcome
      → IsConsistent outcome.1
  Ends-IsConsistent scope session_id a service s outcome h at (inl (e, p)) =
      subst (λ o. IsConsistent o.1) (sym p) h
  Ends-IsConsistent scope session_id a service s outcome h at (inr (inl (e, (more, p, _, line)))) =
      let key = session_key scope session_id in
      subst (λ o. IsConsistent o.1) (sym p)
        (with_turns-IsConsistent key (turn_list key service ++ more) service line h)
  Ends-IsConsistent scope session_id a service s outcome h at (inr (inr (r, n, p))) =
      let key = session_key scope session_id in
      let ts = turn_list key service in
      let f = h.filed key s at in
      let w = n.awaiting in
      let first = ap (λ t. t.sequence) n.answer in
      subst (λ o. IsConsistent o.1) (sym p)
        (after-IsConsistent key s r.session (ts ++ r.answer_turn ∷ r.question_turn ∷ [])
          (question_record scope session_id a r) service h at (omega (arith, w.sequence))
          (record { valid = w.valid; own_key = same_key s r.session w.scope w.ident ∙ f.own_key })
          (AreNumbered-append_two 1 ts r.answer_turn r.question_turn
            (turn_list-AreNumbered key service h) (omega (arith, first))
            (omega (arith, n.sequence)))
          refl)

  -- An answer, however it ends, keeps the service consistent.
  pub finalize-IsConsistent :
      (context : TenantContext) (scope : ApplicantScope) (session_id : OpaqueId) (a : Answer)
      (service : InterviewService)
      → IsConsistent service
      → IsConsistent (finalize casefold uuid settings context scope session_id a service).1
  unfolding finalize begun begin_answer
  finalize-IsConsistent context scope session_id a service h =
      elim (get_session_cases context scope session_id service) [
        | inl (e, failed) ↦ rw failed h
        | inr (may, (s, at, found)) ↦
            Ends-IsConsistent scope session_id a service s
              (finalize casefold uuid settings context scope session_id a service) h at
              (finalize_cases context scope session_id a service s h may at)
      ]
