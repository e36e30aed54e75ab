-- ===== src/Interview/Service/Finalize.antt =====
-- interview_engine/application/interview_service.py: `finalize`, from an answer to the next question.
pub mod Asking
pub mod Presenting
pub mod Outcomes
pub mod Ending
pub mod Answered
use gbsa_aws_project.Base.{
  ℕ, zero, suc, ◌+◌, Bool, true, false, not, Option, none, some, List, [], ◌∷◌, ◌++◌, map, ◌==◌,
  length, if◌then◌else◌, last?, keep,
}
use gbsa_aws_project.Base.Equality.{eq, nat_eq, list_eq, pair_eq}
use gbsa_aws_project.Base.Dict.{Dict, lookup, insert}
use gbsa_aws_project.Base.Exec.{Result, ok, err, raise_if, or_raise, ◌>>=◌, ◌>>◌}
use gbsa_aws_project.Shared.Errors.{Error, Outcome, Method, value_error, lookup_error}
use gbsa_aws_project.Shared.Ids.{OpaqueId, Instant}
use gbsa_aws_project.Shared.Tenant.{
  TenantContext, ApplicantScope, SessionKey, session_key, ensure_applicant_scope,
}
use gbsa_aws_project.Interview.Text.{Text, codes, uuid_text}
use gbsa_aws_project.Interview.Session.{SessionState, InterviewSession, post_init, transition}
use gbsa_aws_project.Interview.Turn.{
  Turn, HotViewSyncStatus, turn_post_init, evidence_eligible, SessionCheckpoint,
}
use gbsa_aws_project.Interview.Checkpoints.{
  CheckpointService, CheckpointRequest, record_checkpoint, ResumeSnapshot, resume,
}
use gbsa_aws_project.Interview.Context.{build}
use gbsa_aws_project.Interview.Questions.{validate}
use gbsa_aws_project.Interview.Dialogue.{StreamingTranscript, retrieve}
use gbsa_aws_project.Interview.Generator.{GeneratedQuestion, generate, SpeechSynthesis, synthesize}
use gbsa_aws_project.Interview.Idempotency.{ScopedIdempotencyStore, execute}
use gbsa_aws_project.Interview.Service.{
  InterviewService, Settings, get_session, turn_list, with_turns, with_session, Answer,
  NextQuestionResult, answer_turn_of, question_turn_of, turn_contexts, question_texts, add_mode,
  Asked, begin_answer,
}
use gbsa_aws_project.Interview.Service.Commands.{checkpointed, request_of}

-- The question's speech, and the session that awaits the next answer.
unfoldable pub present :
    Settings
    → TenantContext
    → ApplicantScope
    → Answer
    → Asked
    → Outcome (SpeechSynthesis × InterviewSession)
present settings context scope a asked = do
  speech ←
      synthesize settings.speech_fails settings.url_ttl context scope.company_id asked.question
        a.audio_id a.marks_id a.synthesized_at
  awaiting ←
      transition a.awaiting_at asked.preparing asked.preparing.session_sequence
        SessionState.awaiting_answer
  generated_mode ← add_mode asked.generated.degraded_mode awaiting
  both_modes ← add_mode speech.degraded_mode generated_mode
  ok (speech, both_modes)

module _ (casefold : Text → Text) (uuid : Text → Outcome ℕ) (settings : Settings) where
  -- The question that is made of the turns, the answer among them.
  unfoldable pub make_question :
      TenantContext
      → ApplicantScope
      → OpaqueId
      → Answer
      → StreamingTranscript
      → List Turn
      → Outcome GeneratedQuestion
  unfolding turn_contexts
  make_question context scope session_id a transcript ts = do
    recent_turns ← turn_contexts ts
    built ←
        build settings.max_tokens context scope session_id a.summary recent_turns
          a.remaining_criteria
    retrieval ←
        retrieve context transcript.text (some scope) (some a.criterion_id) (some session_id)
          (codes "hybrid-v1") a.retrieved
    generate uuid context built a.criterion_id a.criterion_name retrieval
        settings.model_config_version a.model_answer

  -- From the turns, the answer among them, to the turn of the question.
  unfoldable pub ask :
      TenantContext
      → ApplicantScope
      → OpaqueId
      → Answer
      → InterviewSession
      → StreamingTranscript
      → List Turn
      → Outcome Asked
  unfolding make_question question_texts
  ask context scope session_id a s transcript ts = do
    preparing ← transition a.preparing_at s a.expected_sequence SessionState.preparing_question
    generated ← make_question context scope session_id a transcript ts
    question ←
        validate casefold settings.prohibited_topics generated.text
          (uuid_text generated.target_criterion_id) (question_texts ts)
          (some (uuid_text a.criterion_id))
    question_turn ← turn_post_init (question_turn_of scope session_id ts question generated a)
    ok (record {
      preparing = preparing;
      generated = generated;
      question = question;
      question_turn = question_turn;
    })

  pub presented :
      TenantContext
      → ApplicantScope
      → OpaqueId
      → Answer
      → StreamingTranscript
      → Turn
      → Asked
      → Outcome (SpeechSynthesis × InterviewSession)
      → Method InterviewService NextQuestionResult
  unfolding checkpointed
  presented context scope session_id a transcript answer asked (err e) service = (err e, service)
  presented context scope session_id a transcript answer asked (ok (speech, awaiting)) service =
      checkpointed
        (record {
          session = awaiting;
          answer_turn = answer;
          question_turn = asked.question_turn;
          speech = speech;
          source_reference_count = length asked.generated.source_references;
          transcript_review_required = transcript.review_required;
        })
        (with_session scope awaiting service)
        (record_checkpoint context scope session_id a.checkpoint_id a.checkpoint_at
          (request_of awaiting (some answer.turn_id) a.last_recording_chunk_sequence
            (some asked.question_turn.turn_id))
          service.checkpoints)

  -- The question's turn is appended before its speech is made.
  pub with_question :
      TenantContext
      → ApplicantScope
      → OpaqueId
      → Answer
      → StreamingTranscript
      → Turn
      → List Turn
      → Outcome Asked
      → Method InterviewService NextQuestionResult
  unfolding presented present
  with_question context scope session_id a transcript answer ts (err e) service = (err e, service)
  with_question context scope session_id a transcript answer ts (ok asked) service =
      presented context scope session_id a transcript answer asked
        (present settings context scope a asked)
        (with_turns (session_key scope session_id) (ts ++ asked.question_turn ∷ []) service)

  -- The answer's turn is appended before the question is made.
  pub with_answer :
      TenantContext
      → ApplicantScope
      → OpaqueId
      → Answer
      → InterviewSession
      → StreamingTranscript
      → List Turn
      → Outcome Turn
      → Method InterviewService NextQuestionResult
  unfolding with_question ask
  with_answer context scope session_id a s transcript ts (err e) service = (err e, service)
  with_answer context scope session_id a s transcript ts (ok answer) service =
      with_question context scope session_id a transcript answer (ts ++ answer ∷ [])
        (ask context scope session_id a s transcript (ts ++ answer ∷ []))
        (with_turns (session_key scope session_id) (ts ++ answer ∷ []) service)

  pub begun :
      TenantContext
      → ApplicantScope
      → OpaqueId
      → Answer
      → Outcome (InterviewSession × StreamingTranscript)
      → Method InterviewService NextQuestionResult
  unfolding with_answer
  begun context scope session_id a (err e) service = (err e, service)
  begun context scope session_id a (ok (s, transcript)) service =
      let key = session_key scope session_id in
      let ts = turn_list key service in
      with_answer context scope session_id a s transcript ts
        (turn_post_init (answer_turn_of scope session_id ts transcript.text a))
        (with_turns key ts service)

  -- `finalize`, the operation of `finalize_answer`.
  unfoldable pub finalize :
      TenantContext
      → ApplicantScope
      → OpaqueId
      → Answer
      → Method InterviewService NextQuestionResult
  unfolding begun begin_answer
  finalize context scope session_id a service =
      begun context scope session_id a (begin_answer settings context scope session_id a service)
        service
