-- ===== src/Interview/Turn.antt =====
-- interview_engine/domain/turn.py: turns, checkpoints and recording chunks with their validation.
use gbsa_aws_project.Base.{
  ℕ, Bool, true, false, not, ◌&&◌, ◌||◌, Option, some, [], ◌∷◌, leb, ltb, ◌==◌, length, all,
}
use gbsa_aws_project.Base.Exec.{ok, raise_if, ◌>>◌}
use gbsa_aws_project.Shared.Errors.{Outcome, value_error}
use gbsa_aws_project.Shared.Ids.{OpaqueId, Instant}
use gbsa_aws_project.Interview.Text.{Text, is_idempotency_key}
use gbsa_aws_project.Interview.Session.{is_some}

pub data TurnSpeaker : Type 0 where
  interviewer applicant : TurnSpeaker

pub data TurnStatus : Type 0 where
  preparing presented recording final failed : TurnStatus

pub data HotViewSyncStatus : Type 0 where
  pending synced degraded : HotViewSyncStatus

pub data UploadStatus : Type 0 where
  issued uploaded verified failed : UploadStatus

-- `text` is what the `ProtectedText` reveals.
pub record Turn : Type 0 where
  pub turn_id : OpaqueId
  pub company_id : OpaqueId
  pub interview_session_id : OpaqueId
  pub sequence : ℕ
  pub speaker : TurnSpeaker
  pub status : TurnStatus
  pub idempotency_key : Text
  pub created_at : Instant
  pub text : Option Text
  pub target_criterion_id : Option OpaqueId
  pub model_config_version : Option Text
  pub finalized_at : Option Instant

abbrev pub is_final : TurnStatus → Bool
is_final TurnStatus.final = true
is_final _ = false

abbrev pub is_interviewer : TurnSpeaker → Bool
is_interviewer TurnSpeaker.interviewer = true
is_interviewer TurnSpeaker.applicant = false

-- `bool(value)` of an optional text
abbrev pub is_present : Option Text → Bool
is_present (some (c ∷ cs)) = true
is_present _ = false

-- `Turn.__post_init__`
unfoldable pub turn_post_init : Turn → Outcome Turn
unfolding is_idempotency_key
turn_post_init t = do
  raise_if (ltb t.sequence 1) (value_error "turn sequence must be positive")
  raise_if (not (is_idempotency_key t.idempotency_key))
      (value_error "idempotency_key must contain 16-128 non-whitespace characters")
  raise_if (is_final t.status && (not (is_some t.text) || not (is_some t.finalized_at)))
      (value_error "final Turn requires protected text and finalized_at")
  raise_if (not (is_final t.status) && is_some t.finalized_at)
      (value_error "only final Turns may have finalized_at")
  raise_if (is_interviewer t.speaker && not (is_some t.target_criterion_id))
      (value_error "interviewer Turn requires target_criterion_id")
  raise_if (is_interviewer t.speaker && not (is_present t.model_config_version))
      (value_error "interviewer Turn requires model_config_version")
  ok t

-- `Turn.evidence_eligible`
abbrev pub evidence_eligible : Turn → Bool
evidence_eligible t = not (is_interviewer t.speaker) && is_final t.status

pub record SessionCheckpoint : Type 0 where
  pub checkpoint_id : OpaqueId
  pub company_id : OpaqueId
  pub interview_session_id : OpaqueId
  pub session_sequence : ℕ
  pub last_media_chunk_sequence : ℕ
  pub hot_view_sync_status : HotViewSyncStatus
  pub created_at : Instant
  pub last_final_turn_id : Option OpaqueId
  pub pending_turn_id : Option OpaqueId

pub record RecordingChunk : Type 0 where
  pub recording_chunk_id : OpaqueId
  pub company_id : OpaqueId
  pub interview_session_id : OpaqueId
  pub sequence : ℕ
  pub object_key : Text
  pub content_hash : Text
  pub byte_size : ℕ
  pub session_start_ms : ℕ
  pub session_end_ms : ℕ
  pub upload_status : UploadStatus
  pub idempotency_key : Text
  pub created_at : Instant

-- `not object_key or object_key.startswith("/")`
abbrev pub is_not_relative : Text → Bool
is_not_relative [] = true
is_not_relative (c ∷ cs) = c == b'/'

-- a character of `0123456789abcdef`
abbrev pub is_hex : ℕ → Bool
is_hex c = leb b'0' c && leb c b'9' || leb b'a' c && leb c b'f'

-- `_SHA256.fullmatch(value)`, for `^[a-f0-9]{64}$`
unfoldable pub is_sha256 : Text → Bool
is_sha256 value = length value == 64 && all is_hex value

-- `RecordingChunk.__post_init__`
unfoldable pub chunk_post_init : RecordingChunk → Outcome RecordingChunk
unfolding is_sha256 is_idempotency_key
chunk_post_init c = do
  raise_if (is_not_relative c.object_key)
      (value_error "recording chunk object_key must be relative")
  raise_if (not (is_sha256 c.content_hash))
      (value_error "recording chunk content_hash must be sha256")
  raise_if (ltb c.byte_size 1) (value_error "recording chunk byte_size must be positive")
  raise_if (leb c.session_end_ms c.session_start_ms)
      (value_error "recording chunk time range is invalid")
  raise_if (not (is_idempotency_key c.idempotency_key))
      (value_error "idempotency_key must contain 16-128 non-whitespace characters")
  ok c
