-- ===== src/Interview/Checkpoints.antt =====
-- interview_engine/application/checkpoints.py: the last known state of a session, for reconnects.
pub mod Recovery
pub mod Progress
use gbsa_aws_project.Base.{
  ℕ, ◌<◌, Bool, true, false, not, ◌&&◌, ◌||◌, Option, none, some, List, [], ◌∷◌, ltb, ◌==◌, String,
  if◌then◌else◌,
}
use gbsa_aws_project.Base.Equality.{Eq, eq, nat_eq, list_eq, pair_eq}
use gbsa_aws_project.Base.Dict.{Dict, lookup, insert}
use gbsa_aws_project.Base.Exec.{Result, ok, err, ◌>>=◌, ◌>>◌, or_raise}
use gbsa_aws_project.Shared.Errors.{Error, Outcome, Method, value_error, lookup_error}
use gbsa_aws_project.Shared.Ids.{OpaqueId, Instant}
use gbsa_aws_project.Shared.Tenant.{
  TenantContext, ApplicantScope, SessionKey, session_key, ensure_applicant_scope,
}
use gbsa_aws_project.Interview.Text.{Text}
use gbsa_aws_project.Interview.Session.{SessionState, state_eq}
use gbsa_aws_project.Interview.Turn.{HotViewSyncStatus, SessionCheckpoint}

-- `ResumeSnapshot.allowed_client_messages`, as text.
abbrev pub paused_messages : List String
paused_messages = "session.resume" ∷ []

abbrev pub active_messages : List String
active_messages = "client.ack" ∷ "answer.complete" ∷ "audio.chunk.begin" ∷ []

pub record ResumeSnapshot : Type 0 where
  pub interview_session_id : OpaqueId
  pub state : SessionState
  pub server_sequence : ℕ
  pub last_final_turn_id : Option OpaqueId
  pub pending_turn_id : Option OpaqueId
  pub last_verified_recording_chunk_sequence : ℕ
  pub degraded_modes : List Text
  pub stale_client : Bool
  pub allowed_client_messages : List String

-- `_CheckpointRecord`
pub record CheckpointRecord : Type 0 where
  pub checkpoint : SessionCheckpoint
  pub state : SessionState
  pub degraded_modes : List Text

abbrev pub CheckpointService : Type 0
CheckpointService = Dict SessionKey CheckpointRecord

-- The keyword arguments of `record`.
pub record CheckpointRequest : Type 0 where
  pub session_sequence : ℕ
  pub last_final_turn_id : Option OpaqueId
  pub last_media_chunk_sequence : ℕ
  pub pending_turn_id : Option OpaqueId
  pub hot_view_sync_status : HotViewSyncStatus
  pub state : SessionState
  pub degraded_modes : List Text

abbrev pub option_beq : Option ℕ → Option ℕ → Bool
option_beq none none = true
option_beq (some a) (some b) = a == b
option_beq _ _ = false

-- The checkpoint that a request makes, with the identifier and the instant that it gets.
abbrev pub checkpoint_of :
    ApplicantScope → OpaqueId → OpaqueId → Instant → CheckpointRequest → SessionCheckpoint
checkpoint_of scope session_id checkpoint_id now r = record {
  checkpoint_id = checkpoint_id;
  company_id = scope.company_id;
  interview_session_id = session_id;
  session_sequence = r.session_sequence;
  last_media_chunk_sequence = r.last_media_chunk_sequence;
  hot_view_sync_status = r.hot_view_sync_status;
  created_at = now;
  last_final_turn_id = r.last_final_turn_id;
  pending_turn_id = r.pending_turn_id;
}

-- `comparable == requested`
unfoldable pub same_state : CheckpointRecord → CheckpointRequest → Bool
same_state existing r =
    option_beq existing.checkpoint.last_final_turn_id r.last_final_turn_id
    && existing.checkpoint.last_media_chunk_sequence == r.last_media_chunk_sequence
    && option_beq existing.checkpoint.pending_turn_id r.pending_turn_id
    && state_eq existing.state r.state
    && eq existing.degraded_modes r.degraded_modes

abbrev pub record_of : SessionCheckpoint → CheckpointRequest → CheckpointRecord
record_of checkpoint r = record {
  checkpoint = checkpoint;
  state = r.state;
  degraded_modes = r.degraded_modes;
}

-- What `record` does with the checkpoint that is on record.
pub record_over :
    SessionKey
    → SessionCheckpoint
    → CheckpointRequest
    → Option CheckpointRecord
    → Method CheckpointService SessionCheckpoint
unfolding same_state
record_over key checkpoint r none records =
    (ok checkpoint, insert key (record_of checkpoint r) records)
record_over key checkpoint r (some existing) records =
    if ltb r.session_sequence existing.checkpoint.session_sequence
    then (err (value_error "stale checkpoint sequence"), records)
    else if existing.checkpoint.session_sequence == r.session_sequence
    then (if not (same_state existing r)
        then (err (value_error "checkpoint sequence already records different state"), records)
        else (ok existing.checkpoint, records))
    else (ok checkpoint, insert key (record_of checkpoint r) records)

pub record_checked :
    SessionKey
    → SessionCheckpoint
    → CheckpointRequest
    → Outcome ApplicantScope
    → Method CheckpointService SessionCheckpoint
unfolding record_over
record_checked key checkpoint r (err e) records = (err e, records)
record_checked key checkpoint r (ok _) records =
    record_over key checkpoint r (lookup key records) records

-- `CheckpointService.record`
unfoldable pub record_checkpoint :
    TenantContext
    → ApplicantScope
    → (session_id checkpoint_id : OpaqueId) → Instant
    → CheckpointRequest
    → Method CheckpointService SessionCheckpoint
unfolding record_checked ensure_applicant_scope
record_checkpoint context scope session_id checkpoint_id now r =
    record_checked (session_key scope session_id)
      (checkpoint_of scope session_id checkpoint_id now r) r
      (ensure_applicant_scope (some context) scope)

abbrev pub is_paused : SessionState → Bool
is_paused SessionState.paused = true
is_paused _ = false

abbrev pub snapshot_of : OpaqueId → CheckpointRecord → ℕ → ResumeSnapshot
snapshot_of session_id c client_sequence = record {
  interview_session_id = session_id;
  state = c.state;
  server_sequence = c.checkpoint.session_sequence;
  last_final_turn_id = c.checkpoint.last_final_turn_id;
  pending_turn_id = c.checkpoint.pending_turn_id;
  last_verified_recording_chunk_sequence = c.checkpoint.last_media_chunk_sequence;
  degraded_modes = c.degraded_modes;
  stale_client = ltb client_sequence c.checkpoint.session_sequence;
  allowed_client_messages = if is_paused c.state then paused_messages else active_messages;
}

-- `CheckpointService.resume`, which changes nothing.
unfoldable pub resume :
    TenantContext
    → ApplicantScope
    → OpaqueId
    → (client_sequence : ℕ) → CheckpointService
    → Outcome ResumeSnapshot
unfolding ensure_applicant_scope
resume context scope session_id client_sequence records = do
  ensure_applicant_scope (some context) scope
  found ←
      or_raise (lookup (session_key scope session_id) records)
        (lookup_error "interview checkpoint was not found")
  ok (snapshot_of session_id found client_sequence)
