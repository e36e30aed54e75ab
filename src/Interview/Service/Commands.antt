-- ===== src/Interview/Service/Commands.antt =====
-- interview_engine/application/interview_service.py: its commands.
pub mod Stored
pub mod LastFinal
pub mod Finished
pub mod Started
use gbsa_aws_project.Base.{
  ℕ, zero, suc, ◌+◌, Bool, true, false, not, Option, none, some, List, [], ◌∷◌, ◌++◌, map, ◌==◌,
  length, if◌then◌else◌, last?, keep,
}
use gbsa_aws_project.Base.Equality.{eq, nat_eq, list_eq, pair_eq}
use gbsa_aws_project.Base.Dict.{Dict, lookup, insert}
use gbsa_aws_project.Base.Exec.{Result, ok, err, raise_if, or_raise, ◌>>=◌, ◌>>◌}
use gbsa_aws_project.Shared.Errors.{Error, Outcome, Method, value_error, lookup_error}
use gbsa_aws_project.Shared.Ids.{OpaqueId, Instant}
use gbsa_aws_project.Shared.Tenant.{
  TenantContext, ApplicantScope, SessionKey, session_key, ensure_applicant_scope,
}
use gbsa_aws_project.Interview.Text.{Text, codes, uuid_text}
use gbsa_aws_project.Interview.Session.{SessionState, InterviewSession, post_init, transition}
use gbsa_aws_project.Interview.Turn.{
  Turn, HotViewSyncStatus, turn_post_init, evidence_eligible, SessionCheckpoint,
}
use gbsa_aws_project.Interview.Checkpoints.{
  CheckpointService, CheckpointRequest, record_checkpoint, ResumeSnapshot, resume,
}
use gbsa_aws_project.Interview.Context.{build}
use gbsa_aws_project.Interview.Questions.{validate}
use gbsa_aws_project.Interview.Dialogue.{StreamingTranscript, retrieve}
use gbsa_aws_project.Interview.Generator.{GeneratedQuestion, generate, SpeechSynthesis, synthesize}
use gbsa_aws_project.Interview.Idempotency.{ScopedIdempotencyStore, execute}
use gbsa_aws_project.Interview.Service.{
  InterviewService, Settings, get_session, turn_list, with_turns, with_session, Answer,
  NextQuestionResult, answer_turn_of, question_turn_of, turn_contexts, question_texts, add_mode,
  Asked, begin_answer,
}

-- The result of a command that had its checkpoint recorded.
unfoldable pub checkpointed :
    {A : Type 0}
    → A
    → InterviewService
    → Result Error SessionCheckpoint × CheckpointService
    → Result Error A × InterviewService
checkpointed result service (err e, checkpoints) =
    (err e, record service { checkpoints = checkpoints })
checkpointed result service (ok _, checkpoints) =
    (ok result, record service { checkpoints = checkpoints })

abbrev pub request_of :
    InterviewSession
    → (last_final_turn_id : Option OpaqueId) → (last_media_chunk_sequence : ℕ)
    → (pending_turn_id : Option OpaqueId) → CheckpointRequest
request_of s last_final_turn_id last_media_chunk_sequence pending_turn_id = record {
  session_sequence = s.session_sequence;
  last_final_turn_id = last_final_turn_id;
  last_media_chunk_sequence = last_media_chunk_sequence;
  pending_turn_id = pending_turn_id;
  hot_view_sync_status = HotViewSyncStatus.pending;
  state = s.state;
  degraded_modes = s.degraded_modes;
}

-- Both moves of `start`.
unfoldable pub started :
    (expected_sequence : ℕ)
    → (started_at awaiting_at : Instant) → InterviewSession
    → Outcome InterviewSession
started expected_sequence started_at awaiting_at s =
    transition started_at s expected_sequence SessionState.in_progress >>= λ t.
    transition awaiting_at t t.session_sequence SessionState.awaiting_answer

-- What a command stores of the session that it made.
pub store_started :
    TenantContext
    → ApplicantScope
    → (checkpoint_id : OpaqueId) → Instant
    → Outcome InterviewSession
    → Method InterviewService InterviewSession
unfolding checkpointed
store_started context scope checkpoint_id now (err e) service = (err e, service)
store_started context scope checkpoint_id now (ok s) service =
    checkpointed s (with_session scope s service) (
      record_checkpoint context scope s.interview_session_id checkpoint_id now
        (record (request_of s none 0 none) { degraded_modes = [] }) service.checkpoints)

-- `InterviewService.start`
unfoldable pub start :
    TenantContext
    → ApplicantScope
    → OpaqueId
    → (expected_sequence : ℕ) → (started_at awaiting_at : Instant) → (checkpoint_id : OpaqueId)
    → (checkpoint_at : Instant) → Method InterviewService InterviewSession
unfolding store_started started get_session
start context scope session_id expected_sequence started_at awaiting_at checkpoint_id checkpoint_at
      service =
    store_started context scope checkpoint_id checkpoint_at
      (get_session context scope session_id service
        >>= started expected_sequence started_at awaiting_at)
      service

-- `create`, the operation of `create_session`: the session is new, so its list of turns is empty.
unfoldable pub create :
    ApplicantScope
    → (session_id strategy_id competency_model_version_id : OpaqueId) → Instant
    → Method InterviewService InterviewSession
create scope session_id strategy_id competency_model_version_id now service =
    let made : InterviewSession = record {
      interview_session_id = session_id;
      scope = scope;
      interview_strategy_id = strategy_id;
      competency_model_version_id = competency_model_version_id;
      state = SessionState.preparing;
      session_sequence = 0;
      row_version = 1;
      created_at = now;
      started_at = none;
      completed_at = none;
      degraded_modes = [];
    } in
    (ok made, with_turns (session_key scope session_id) [] (with_session scope made service))

-- The keyword arguments of `complete_session`, with identifiers and readings of the clock.
pub record Completion : Type 0 where
  pub expected_sequence : ℕ
  pub last_recording_chunk_sequence : ℕ
  pub paused_at : Instant
  pub completed_at : Instant
  pub checkpoint_id : OpaqueId
  pub checkpoint_at : Instant

-- Both moves of `complete`.
unfoldable pub completed : Completion → InterviewSession → Outcome InterviewSession
completed c s = transition c.paused_at s c.expected_sequence SessionState.paused >>= λ t.
    transition c.completed_at t t.session_sequence SessionState.completed

abbrev turn_id_of : Option Turn → Option OpaqueId
turn_id_of none = none
turn_id_of (some t) = some t.turn_id

-- The last turn that may be evidence.
unfoldable pub last_final_turn_id : List Turn → Option OpaqueId
last_final_turn_id ts = turn_id_of (last? (keep evidence_eligible ts))

pub store_completed :
    TenantContext
    → ApplicantScope
    → OpaqueId
    → Completion
    → Outcome InterviewSession
    → Method InterviewService InterviewSession
unfolding checkpointed last_final_turn_id
store_completed context scope session_id c (err e) service = (err e, service)
store_completed context scope session_id c (ok s) service =
    let key = session_key scope session_id in
    checkpointed s (with_turns key (turn_list key service) (with_session scope s service)) (
      record_checkpoint context scope session_id c.checkpoint_id c.checkpoint_at
        (request_of s (last_final_turn_id (turn_list key service)) c.last_recording_chunk_sequence
          none)
        service.checkpoints)

-- `complete`, the operation of `complete_session`.
unfoldable pub complete :
    TenantContext
    → ApplicantScope
    → OpaqueId
    → Completion
    → Method InterviewService InterviewSession
unfolding store_completed completed get_session
complete context scope session_id c service =
    store_completed context scope session_id c
      (get_session context scope session_id service >>= completed c) service

abbrev turns_of : SessionKey → Outcome InterviewSession → Method InterviewService (List Turn)
turns_of key (err e) service = (err e, service)
turns_of key (ok _) service =
    (ok (turn_list key service), with_turns key (turn_list key service) service)

-- `list_turns`, which stores the empty list where there is none.
unfoldable pub list_turns :
    TenantContext → ApplicantScope → OpaqueId → Method InterviewService (List Turn)
unfolding get_session
list_turns context scope session_id service =
    turns_of (session_key scope session_id) (get_session context scope session_id service) service

-- `InterviewService.resume`
unfoldable pub resume_session :
    TenantContext
    → ApplicantScope
    → OpaqueId
    → (client_sequence : ℕ) → InterviewService
    → Outcome ResumeSnapshot
unfolding get_session
resume_session context scope session_id client_sequence service =
    get_session context scope session_id service
    >> resume context scope session_id client_sequence service.checkpoints
