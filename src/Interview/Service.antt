-- ===== src/Interview/Service.antt =====
-- interview_engine/application/interview_service.py: from an answer to the next question.
pub mod Commands
pub mod Finalize
pub mod History
pub mod Api
pub mod Invariant
use gbsa_aws_project.Base.{
  ℕ, zero, suc, ◌+◌, Bool, true, false, not, Option, none, some, List, [], ◌∷◌, ◌++◌, map, ◌==◌,
  length, if◌then◌else◌,
}
use gbsa_aws_project.Base.Equality.{eq, nat_eq, list_eq, pair_eq}
use gbsa_aws_project.Base.Dict.{Dict, lookup, insert}
use gbsa_aws_project.Base.Exec.{Result, ok, err, raise_if, or_raise, ◌>>=◌, ◌>>◌}
use gbsa_aws_project.Shared.Errors.{Error, Outcome, Method, value_error, lookup_error}
use gbsa_aws_project.Shared.Ids.{OpaqueId, Instant}
use gbsa_aws_project.Shared.Tenant.{
  TenantContext, ApplicantScope, SessionKey, session_key, ensure_applicant_scope,
}
use gbsa_aws_project.Interview.Text.{Text, codes, uuid_text}
use gbsa_aws_project.Interview.Session.{
  SessionState, InterviewSession, post_init, transition, state_eq, with_degraded_mode,
}
use gbsa_aws_project.Interview.Turn.{
  Turn, TurnSpeaker, TurnStatus, HotViewSyncStatus, turn_post_init, is_interviewer,
  SessionCheckpoint,
}
use gbsa_aws_project.Interview.Checkpoints.{CheckpointService, CheckpointRequest, record_checkpoint}
use gbsa_aws_project.Interview.Context.{Criterion, RecentTurn, build}
use gbsa_aws_project.Interview.Questions.{validate}
use gbsa_aws_project.Interview.Dialogue.{
  Double, DegradedMode, mode_text, StreamingTranscript, transcribe, RetrievalPayload, retrieve,
}
use gbsa_aws_project.Interview.Generator.{
  GeneratedQuestion, ModelPayload, generate, SpeechSynthesis, synthesize,
}

-- The state of an `InterviewService`, apart from its idempotency store.
pub record InterviewService : Type 0 where
  pub sessions : Dict SessionKey InterviewSession
  pub turns : Dict SessionKey (List Turn)
  pub checkpoints : CheckpointService

-- What the constructor fixes.
pub record Settings : Type 0 where
  pub max_tokens : ℕ
  pub review_threshold : ℕ
  pub prohibited_topics : List Text
  pub model_config_version : Text
  pub speech_fails : Bool
  pub url_ttl : ℕ

-- `get_session`
unfoldable pub get_session :
    TenantContext → ApplicantScope → OpaqueId → InterviewService → Outcome InterviewSession
get_session context scope session_id service = do
  ensure_applicant_scope (some context) scope
  or_raise (lookup (session_key scope session_id) service.sessions)
      (lookup_error "interview session was not found")

abbrev pub or_no_turns : Option (List Turn) → List Turn
or_no_turns none = []
or_no_turns (some ts) = ts

-- `_turn_list`, the list that it returns.
abbrev pub turn_list : SessionKey → InterviewService → List Turn
turn_list key service = or_no_turns (lookup key service.turns)

-- The service with `ts` as the turns of a session. `setdefault` stores the list, and `append`
-- changes the list in place.
abbrev pub with_turns : SessionKey → List Turn → InterviewService → InterviewService
with_turns key ts service = record service { turns = insert key ts service.turns }

-- `_store_session`
abbrev pub with_session : ApplicantScope → InterviewSession → InterviewService → InterviewService
with_session scope s service = record service {
  sessions = insert (session_key scope s.interview_session_id) s service.sessions;
}

-- The keyword arguments of `finalize_answer`, and the identifiers and readings of the clock that
-- the call takes, with the answers of the services that it asks.
pub record Answer : Type 0 where
  pub expected_sequence : ℕ
  pub answer_turn_id : OpaqueId
  pub transcript_text : Text
  pub transcript_confidence : Double
  pub criterion_id : OpaqueId
  pub criterion_name : Text
  pub remaining_criteria : List Criterion
  pub idempotency_key : Text
  pub last_recording_chunk_sequence : ℕ
  pub summary : Option Text
  pub finalized_at : Instant
  pub answer_created_at : Instant
  pub preparing_at : Instant
  pub question_turn_id : OpaqueId
  pub question_key_id : OpaqueId
  pub question_created_at : Instant
  pub audio_id : OpaqueId
  pub marks_id : OpaqueId
  pub synthesized_at : Instant
  pub awaiting_at : Instant
  pub checkpoint_id : OpaqueId
  pub checkpoint_at : Instant
  pub retrieved : Outcome RetrievalPayload
  pub model_answer : Option (Outcome ModelPayload)

pub record NextQuestionResult : Type 0 where
  pub session : InterviewSession
  pub answer_turn : Turn
  pub question_turn : Turn
  pub speech : SpeechSynthesis
  pub source_reference_count : ℕ
  pub transcript_review_required : Bool

abbrev pub answer_turn_of : ApplicantScope → OpaqueId → List Turn → Text → Answer → Turn
answer_turn_of scope session_id ts text a = record {
  turn_id = a.answer_turn_id;
  company_id = scope.company_id;
  interview_session_id = session_id;
  sequence = length ts + 1;
  speaker = TurnSpeaker.applicant;
  status = TurnStatus.final;
  idempotency_key = a.idempotency_key;
  created_at = a.answer_created_at;
  text = some text;
  target_criterion_id = none;
  model_config_version = none;
  finalized_at = some a.finalized_at;
}

abbrev pub question_turn_of :
    ApplicantScope → OpaqueId → List Turn → Text → GeneratedQuestion → Answer → Turn
question_turn_of scope session_id ts text g a = record {
  turn_id = a.question_turn_id;
  company_id = scope.company_id;
  interview_session_id = session_id;
  sequence = length ts + 1;
  speaker = TurnSpeaker.interviewer;
  status = TurnStatus.presented;
  idempotency_key = uuid_text a.question_key_id;
  created_at = a.question_created_at;
  text = some text;
  target_criterion_id = some g.target_criterion_id;
  model_config_version = some g.model_config_version;
  finalized_at = none;
}

abbrev pub speaker_text : TurnSpeaker → Text
speaker_text TurnSpeaker.interviewer = codes "interviewer"
speaker_text TurnSpeaker.applicant = codes "applicant"

-- `tuple(_turn_context(turn) for turn in turns)`
unfoldable pub turn_contexts : List Turn → Outcome (List RecentTurn)
turn_contexts [] = ok []
turn_contexts (t ∷ ts) = or_raise t.text (value_error "context Turn must have text") >>= λ text.
    turn_contexts ts >>= λ rest. ok (
      record {
        turn_id = some (uuid_text t.turn_id);
        speaker = some (speaker_text t.speaker);
        text = some text;
      }
      ∷ rest)

-- The texts of the questions among the turns.
unfoldable pub question_texts : List Turn → List Text
question_texts [] = []
question_texts (t ∷ ts) =
    let rest = question_texts ts in
    elim t.text [ none ↦ rest | some text ↦ if is_interviewer t.speaker then text ∷ rest else rest ]

-- Two modes of a result are added to the session, unless they are "none".
abbrev pub add_mode : DegradedMode → InterviewSession → Outcome InterviewSession
add_mode DegradedMode.undegraded s = ok s
add_mode mode s = with_degraded_mode s (mode_text mode)

-- What a question turn comes with.
pub record Asked : Type 0 where
  pub preparing : InterviewSession
  pub generated : GeneratedQuestion
  pub question : Text
  pub question_turn : Turn

-- The outer checks of `finalize`.
unfoldable pub begin_answer :
    Settings
    → TenantContext
    → ApplicantScope
    → OpaqueId
    → Answer
    → InterviewService
    → Outcome (InterviewSession × StreamingTranscript)
unfolding get_session
begin_answer settings context scope session_id a service = do
  s ← get_session context scope session_id service
  raise_if (not (state_eq s.state SessionState.awaiting_answer))
      (value_error "session is not awaiting an answer")
  raise_if (not (s.session_sequence == a.expected_sequence)) (value_error "stale session sequence")
  transcript ← transcribe settings.review_threshold a.transcript_text a.transcript_confidence true
  ok (s, transcript)
