-- ===== src/Interview/Service/Finalize/Outcomes.antt =====
-- The ways in which an answer can end.
use gbsa_aws_project.Base.{ℕ, ◌+◌, ◌≤◌, ◌≡◌, ◌⊎◌, some, List, [], ◌∷◌, ◌++◌, length}
use gbsa_aws_project.Base.Equality.{nat_eq, list_eq, pair_eq}
use gbsa_aws_project.Base.Exec.{Result, ok, err}
use gbsa_aws_project.Shared.Errors.{Error, Outcome}
use gbsa_aws_project.Shared.Ids.{OpaqueId}
use gbsa_aws_project.Shared.Tenant.{ApplicantScope, session_key}
use gbsa_aws_project.Interview.Text.{Text}
use gbsa_aws_project.Interview.Session.{SessionState, InterviewSession}
use gbsa_aws_project.Interview.Turn.{Turn}
use gbsa_aws_project.Interview.Checkpoints.{CheckpointRecord, checkpoint_of, record_of}
use gbsa_aws_project.Interview.Questions.Accepted.{IsAskable}
use gbsa_aws_project.Interview.Service.{
  InterviewService, Settings, Answer, NextQuestionResult, turn_list, with_turns, answer_turn_of,
  question_texts,
}
use gbsa_aws_project.Interview.Service.Invariant.{AreNumbered, after}
use gbsa_aws_project.Interview.Service.Commands.{request_of}
use gbsa_aws_project.Interview.Service.Finalize.Presenting.{IsAwaiting}

-- The checkpoint of a question.
abbrev pub question_record :
    ApplicantScope → OpaqueId → Answer → NextQuestionResult → CheckpointRecord
question_record scope session_id a r =
    let request =
      request_of r.session (some r.answer_turn.turn_id) a.last_recording_chunk_sequence
        (some r.question_turn.turn_id) in
    record_of (checkpoint_of scope session_id a.checkpoint_id a.checkpoint_at request) request

module _ (casefold : Text → Text) (uuid : Text → Outcome ℕ) (settings : Settings) where
  -- The result `r` for an answer `a` to session `s` with turns `ts`.
  pub record IsNext (scope : ApplicantScope) (session_id : OpaqueId) (a : Answer)
      (s : InterviewSession) (ts : List Turn) (r : NextQuestionResult) : Type 0 where
    pub state : s.state ≡ SessionState.awaiting_answer
    pub level : s.session_sequence ≡ a.expected_sequence
    pub awaiting : IsAwaiting (s.session_sequence + 2) s r.session
    pub answer : r.answer_turn ≡ answer_turn_of scope session_id ts a.transcript_text a
    pub sequence : r.question_turn.sequence ≡ length ts + 2
    pub criterion : r.question_turn.target_criterion_id ≡ some a.criterion_id
    pub question :
        (q : Text) × (r.question_turn.text ≡ some q)
        × IsAskable casefold settings.prohibited_topics
            (question_texts (ts ++ r.answer_turn ∷ []))
            q

  -- How a call ends that found session `s` with turns `ts`: it raises before it changes anything,
  -- or it raises and leaves one or two turns more, or it gives the next question.
  abbrev pub Ends :
      ApplicantScope
      → OpaqueId
      → Answer
      → InterviewSession
      → InterviewService
      → Result Error NextQuestionResult × InterviewService
      → Type 0
  Ends scope session_id a s service outcome =
      let key = session_key scope session_id in
      let ts = turn_list key service in
      ((e : Error) × (outcome ≡ (err e, service)))
      ⊎ ((e : Error) × ((more : List Turn) × (outcome
              ≡ (err e, with_turns key (ts ++ more) service))
            × (length more ≤ 2)
            × AreNumbered 1 (ts ++ more)))
      ⊎ ((r : NextQuestionResult) × IsNext scope session_id a s ts r
          × (outcome ≡ (
            ok r,
            after key r.session (ts ++ r.answer_turn ∷ r.question_turn ∷ [])
                (question_record scope session_id a r) service,
          )))
