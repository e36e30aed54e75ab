-- ===== src/Reporting/Transcript.antt =====
-- reporting/application/transcript_service.py: the versions of a transcript segment.
pub mod Versions
use gbsa_aws_project.Base.{
  ℕ, ◌+◌, Bool, true, false, not, Option, none, some, List, [], ◌∷◌, ◌++◌, last?,
}
use gbsa_aws_project.Base.Equality.{nat_eq, pair_eq}
use gbsa_aws_project.Base.Dict.{Dict, lookup, insert}
use gbsa_aws_project.Base.Exec.{ok, err, raise_if, or_raise, ◌>>=◌, ◌>>◌}
use gbsa_aws_project.Shared.Errors.{Outcome, Method, value_error, lookup_error}
use gbsa_aws_project.Shared.Ids.{OpaqueId, Instant}
use gbsa_aws_project.Shared.Tenant.{TenantContext, ensure_company_scope}
use gbsa_aws_project.Interview.Text.{Text}
use gbsa_aws_project.Interview.Dialogue.{Double}
use gbsa_aws_project.Reporting.Timeline.{TimelineSpeaker, TranscriptSegment, segment_post_init}

-- The versions of each segment, by company and identifier.
abbrev pub TranscriptService : Type 0
TranscriptService = Dict (OpaqueId × OpaqueId) (List TranscriptSegment)

-- The keyword arguments of `ingest`, with the identifier and the instant that the segment gets.
pub record Ingestion : Type 0 where
  pub company_id : OpaqueId
  pub interview_session_id : OpaqueId
  pub turn_id : OpaqueId
  pub speaker : TimelineSpeaker
  pub final_turn : Bool
  pub text : Text
  pub confidence : Double
  pub start_ms : ℕ
  pub end_ms : ℕ
  pub source_audio_key : Text
  pub segment_id : OpaqueId
  pub created_at : Instant

abbrev pub segment_of : Ingestion → TranscriptSegment
segment_of i = record {
  transcript_segment_id = i.segment_id;
  company_id = i.company_id;
  interview_session_id = i.interview_session_id;
  turn_id = i.turn_id;
  speaker = i.speaker;
  text = i.text;
  confidence = i.confidence;
  session_start_ms = i.start_ms;
  session_end_ms = i.end_ms;
  source_audio_key = i.source_audio_key;
  version = 1;
  created_at = i.created_at;
  corrected_by = none;
}

pub keep_segment : OpaqueId → Outcome TranscriptSegment → Method TranscriptService TranscriptSegment
keep_segment company_id (err e) service = (err e, service)
keep_segment company_id (ok segment) service =
    (ok segment, insert (company_id, segment.transcript_segment_id) (segment ∷ []) service)

-- `TranscriptService.ingest`
unfoldable pub ingest : TenantContext → Ingestion → Method TranscriptService TranscriptSegment
unfolding keep_segment segment_post_init
ingest context i service =
    keep_segment context.company_id
      (ensure_company_scope (some context) i.company_id
        >> raise_if (not i.final_turn) (value_error "only final Turns can be ingested")
        >> segment_post_init (segment_of i))
      service

abbrev pub corrected : TenantContext → Text → Instant → TranscriptSegment → TranscriptSegment
corrected context text now original = record original {
  text = text;
  version = original.version + 1;
  created_at = now;
  corrected_by = some context.actor_id;
}

-- `history.append(corrected)`
pub keep_correction :
    OpaqueId × OpaqueId
    → List TranscriptSegment
    → Outcome TranscriptSegment
    → Method TranscriptService TranscriptSegment
keep_correction key versions (err e) service = (err e, service)
keep_correction key versions (ok segment) service =
    (ok segment, insert key (versions ++ segment ∷ []) service)

-- The last version is corrected. A segment that is not on record raises `KeyError`, a `LookupError`;
-- a history is never empty.
pub correct_versions :
    TenantContext
    → Text
    → Instant
    → OpaqueId × OpaqueId
    → Option (List TranscriptSegment)
    → Method TranscriptService TranscriptSegment
unfolding keep_correction segment_post_init
correct_versions context text now key none service =
    (err (lookup_error "transcript segment"), service)
correct_versions context text now key (some versions) service =
    keep_correction key versions
      (or_raise (last? versions) (lookup_error "list index out of range") >>= λ original.
        segment_post_init (corrected context text now original))
      service

-- `TranscriptService.correct`
unfoldable pub correct :
    TenantContext
    → (segment_id : OpaqueId) → (text : Text) → Instant
    → Method TranscriptService TranscriptSegment
unfolding correct_versions
correct context segment_id text now service =
    correct_versions context text now (context.company_id, segment_id)
      (lookup (context.company_id, segment_id) service) service

-- `TranscriptService.history`
unfoldable pub segment_history :
    TenantContext → (segment_id : OpaqueId) → TranscriptService → Outcome (List TranscriptSegment)
segment_history context segment_id service =
    or_raise (lookup (context.company_id, segment_id) service) (lookup_error "transcript segment")
