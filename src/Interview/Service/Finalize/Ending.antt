-- ===== src/Interview/Service/Finalize/Ending.antt =====
-- What is left of an answer once its turn was made.
use mathlib.Core.List.{append_assoc}
use gbsa_aws_project.Base.{
  ℕ, ◌+◌, ◌≡◌, refl, ◌∙◌, subst, ap, some, [], ◌∷◌, ◌++◌, length, arith, inl, inr, length-append,
}
use gbsa_aws_project.Base.Equality.{nat_eq, list_eq, pair_eq}
use gbsa_aws_project.Base.Dict.{lookup, insert-insert}
use gbsa_aws_project.Base.Exec.{ok, err}
use gbsa_aws_project.Shared.Errors.{Outcome}
use gbsa_aws_project.Shared.Ids.{OpaqueId}
use gbsa_aws_project.Shared.Tenant.{TenantContext, ApplicantScope, session_key}
use gbsa_aws_project.Shared.Tenant.Isolation.{MayAct}
use gbsa_aws_project.Interview.Text.{Text}
use gbsa_aws_project.Interview.Session.{SessionState, InterviewSession, state_eq_iff}
use gbsa_aws_project.Interview.Session.Machine.{Moved, transition_cases}
use gbsa_aws_project.Interview.Dialogue.{StreamingTranscript, transcribe}
use gbsa_aws_project.Interview.Generator.{SpeechSynthesis}
use gbsa_aws_project.Interview.Service.{
  InterviewService, Settings, Answer, NextQuestionResult, Asked, turn_list, with_turns,
  begin_answer, get_session, answer_turn_of,
}
use gbsa_aws_project.Interview.Service.Invariant.{
  IsConsistent, AreNumbered, AreNumbered-append, AreNumbered-append_two, turn_list-AreNumbered,
}
use gbsa_aws_project.Interview.Service.Commands.{request_of}
use gbsa_aws_project.Interview.Service.Finalize.{present, presented, with_question}
use gbsa_aws_project.Interview.Service.Commands.Stored.{own_id, checkpointed_later}
use gbsa_aws_project.Interview.Service.Finalize.Asking.{IsAsked}
use gbsa_aws_project.Interview.Service.Finalize.Presenting.{IsAwaiting, present-IsAwaiting}
use gbsa_aws_project.Interview.Service.Finalize.Outcomes.{Ends}

module _ (casefold : Text → Text) (uuid : Text → Outcome ℕ) (settings : Settings) where
  pub begin_answer_lem :
      (context : TenantContext) (scope : ApplicantScope) (session_id : OpaqueId) (a : Answer)
      (service : InterviewService) (s s' : InterviewSession) (transcript : StreamingTranscript)
      → get_session context scope session_id service ≡ ok s
      → begin_answer settings context scope session_id a service ≡ ok (s', transcript)
      → (s' ≡ s)
        × (s.state ≡ SessionState.awaiting_answer)
        × (s.session_sequence ≡ a.expected_sequence)
        × (transcript.text ≡ a.transcript_text)
  unfolding begin_answer transcribe
  begin_answer_lem context scope session_id a service s s' transcript found e =
      let e' = rw found at e in
      (
        ground arith,
        (state_eq_iff s.state SessionState.awaiting_answer).0 (ground arith),
        ground arith,
        ground arith,
      )

  module _ (context : TenantContext) (scope : ApplicantScope) (session_id : OpaqueId) (a : Answer)
      (service : InterviewService) (s : InterviewSession) (h : IsConsistent service)
      (may : MayAct context scope)
      (at : lookup (session_key scope session_id) service.sessions ≡ some s)
      (awaits : s.state ≡ SessionState.awaiting_answer)
      (level : s.session_sequence ≡ a.expected_sequence) where
    question_sequence :
        (asked : Asked)
        → let ts = turn_list (session_key scope session_id) service in
          IsAsked casefold uuid settings scope session_id a s
            (ts ++ answer_turn_of scope session_id ts a.transcript_text a ∷ [])
            asked
          → asked.question_turn.sequence ≡ length ts + 2
    question_sequence asked is_asked =
        let ts = turn_list (session_key scope session_id) service in
        let answer = answer_turn_of scope session_id ts a.transcript_text a in
        let p = ap (λ t. t.sequence) is_asked.turn in
        omega (arith, p, length-append ts (answer ∷ []))

    numbered_two :
        (asked : Asked)
        → let ts = turn_list (session_key scope session_id) service in
          let answer = answer_turn_of scope session_id ts a.transcript_text a in
          IsAsked casefold uuid settings scope session_id a s (ts ++ answer ∷ []) asked
          → AreNumbered 1 (ts ++ answer ∷ asked.question_turn ∷ [])
    numbered_two asked is_asked =
        let key = session_key scope session_id in
        let ts = turn_list key service in
        let q = question_sequence asked is_asked in
        AreNumbered-append_two 1 ts (answer_turn_of scope session_id ts a.transcript_text a)
          asked.question_turn (turn_list-AreNumbered key service h) (omega arith) (omega arith)

    asked_Moved :
        (asked : Asked)
        → let ts = turn_list (session_key scope session_id) service in
          IsAsked casefold uuid settings scope session_id a s
            (ts ++ answer_turn_of scope session_id ts a.transcript_text a ∷ [])
            asked
          → Moved a.preparing_at SessionState.preparing_question s asked.preparing
    asked_Moved asked is_asked =
        let f = h.filed (session_key scope session_id) s at in
        elim (transition_cases a.preparing_at s a.expected_sequence SessionState.preparing_question
          f.valid) [
            | inl (other, e) ↦ absurd (other level)
            | inr (inl (_, refused, _, e)) ↦ let m = is_asked.moves in absurd (ground arith)
            | inr (inr (_, fits, (t, e, m))) ↦
                let n = is_asked.moves in
                let p : t ≡ asked.preparing = ground arith in
                subst (Moved a.preparing_at SessionState.preparing_question s) p m
          ]

    presented-Ends :
        (transcript : StreamingTranscript) (asked : Asked)
        (o : Outcome (SpeechSynthesis × InterviewSession))
        → let key = session_key scope session_id in
          let ts = turn_list key service in
          let answer = answer_turn_of scope session_id ts a.transcript_text a in
          ((speech : SpeechSynthesis) (s' : InterviewSession)
            → o ≡ ok (speech, s')
            → IsAwaiting (s.session_sequence + 2) s s')
          → IsAsked casefold uuid settings scope session_id a s (ts ++ answer ∷ []) asked
          → Ends casefold uuid settings scope session_id a s service (
              presented casefold uuid settings context scope session_id a transcript answer asked o
                (with_turns key (ts ++ answer ∷ asked.question_turn ∷ []) service))
    unfolding presented
    presented-Ends transcript asked (err e) next is_asked =
        let ts = turn_list (session_key scope session_id) service in
        let answer = answer_turn_of scope session_id ts a.transcript_text a in
        inr (
          inl (
            e,
            (answer ∷ asked.question_turn ∷ [], refl, omega arith, numbered_two asked is_asked),
          ))
    presented-Ends transcript asked (ok (speech, s')) next is_asked =
        let key = session_key scope session_id in
        let ts = turn_list key service in
        let answer = answer_turn_of scope session_id ts a.transcript_text a in
        let f = h.filed key s at in
        let n = next speech s' refl in
        let r : NextQuestionResult = record {
          session = s';
          answer_turn = answer;
          question_turn = asked.question_turn;
          speech = speech;
          source_reference_count = length asked.generated.source_references;
          transcript_review_required = transcript.review_required;
        } in
        inr (
          inr (
            r,
            record {
              state = awaits;
              level = level;
              awaiting = n;
              answer = refl;
              sequence = question_sequence asked is_asked;
              criterion =
                  ap (λ t. t.target_criterion_id) is_asked.turn ∙ ap some is_asked.criterion;
              question = (asked.question, ap (λ t. t.text) is_asked.turn, is_asked.askable);
            },
            checkpointed_later r context scope session_id a.checkpoint_id a.checkpoint_at s s'
                (ts ++ answer ∷ asked.question_turn ∷ [])
                (request_of s' (some answer.turn_id) a.last_recording_chunk_sequence
                  (some asked.question_turn.turn_id))
                service h may at (omega (arith, n.sequence))
                (n.ident ∙ own_id scope session_id s f),
          ))

    pub asked-Ends :
        (transcript : StreamingTranscript) (o : Outcome Asked)
        → let key = session_key scope session_id in
          let ts = turn_list key service in
          let answer = answer_turn_of scope session_id ts a.transcript_text a in
          ((asked : Asked)
            → o ≡ ok asked
            → IsAsked casefold uuid settings scope session_id a s (ts ++ answer ∷ []) asked)
          → Ends casefold uuid settings scope session_id a s service (
              with_question casefold uuid settings context scope session_id a transcript answer
                (ts ++ answer ∷ [])
                o
                (with_turns key (ts ++ answer ∷ []) service))
    unfolding with_question
    asked-Ends transcript (err e) is_asked =
        let key = session_key scope session_id in
        let ts = turn_list key service in
        let answer = answer_turn_of scope session_id ts a.transcript_text a in
        inr (
          inl (
            e,
            (
              answer ∷ [],
              refl,
              omega arith,
              AreNumbered-append 1 ts answer (turn_list-AreNumbered key service h) (omega arith),
            ),
          ))
    asked-Ends transcript (ok asked) is_asked =
        let key = session_key scope session_id in
        let ts = turn_list key service in
        let answer = answer_turn_of scope session_id ts a.transcript_text a in
        let q = is_asked asked refl in
        rw
          (
            insert-insert key (ts ++ answer ∷ []) ((ts ++ answer ∷ []) ++ asked.question_turn ∷ [])
                service.turns,
            append_assoc ts (answer ∷ []) (asked.question_turn ∷ []),
          )
          (presented-Ends transcript asked (present settings context scope a asked)
            (λ speech s' e.
              present-IsAwaiting settings context scope a s asked (asked_Moved asked q) e)
            q)
