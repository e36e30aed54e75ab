-- ===== src/Reporting/Timeline.antt =====
-- reporting/domain/timeline.py and application/timeline_service.py: what can be played back.
use gbsa_aws_project.Base.{
  ℕ, Bool, false, not, ◌&&◌, ◌||◌, Option, none, some, List, [], ◌∷◌, ltb, leb, any, map,
}
use gbsa_aws_project.Base.Exec.{ok, raise_if, ◌>>◌}
use gbsa_aws_project.Shared.Errors.{Outcome, value_error}
use gbsa_aws_project.Shared.Ids.{OpaqueId, Instant}
use gbsa_aws_project.Interview.Text.{Text, uuid_text, contains}
use gbsa_aws_project.Interview.Turn.{is_sha256}
use gbsa_aws_project.Interview.Questions.{is_empty}
use gbsa_aws_project.Interview.Dialogue.{Double, in_unit_interval}

pub data TimelineSpeaker : Type 0 where
  interviewer applicant : TimelineSpeaker

pub data AssetType : Type 0 where
  raw_chunk_set final_video audio vtt manifest : AssetType

pub data AssetStatus : Type 0 where
  processing ready partial failed : AssetStatus

pub record TranscriptSegment : Type 0 where
  pub transcript_segment_id : OpaqueId
  pub company_id : OpaqueId
  pub interview_session_id : OpaqueId
  pub turn_id : OpaqueId
  pub speaker : TimelineSpeaker
  pub text : Text
  pub confidence : Double
  pub session_start_ms : ℕ
  pub session_end_ms : ℕ
  pub source_audio_key : Text
  pub version : ℕ
  pub created_at : Instant
  pub corrected_by : Option OpaqueId

-- `TranscriptSegment.__post_init__`
unfoldable pub segment_post_init : TranscriptSegment → Outcome TranscriptSegment
segment_post_init s = do
  raise_if (not (in_unit_interval s.confidence)) (value_error "confidence must be bounded")
  raise_if (leb s.session_end_ms s.session_start_ms) (value_error "transcript range is invalid")
  raise_if (ltb s.version 1 || is_empty s.source_audio_key)
      (value_error "transcript provenance is invalid")
  ok s

pub record RecordingAsset : Type 0 where
  pub recording_asset_id : OpaqueId
  pub company_id : OpaqueId
  pub interview_session_id : OpaqueId
  pub asset_type : AssetType
  pub object_key : Text
  pub content_hash : Text
  pub duration_ms : ℕ
  pub status : AssetStatus
  pub missing_ranges : List (ℕ × ℕ)
  pub created_at : Instant

abbrev pub is_bad_range : ℕ → ℕ × ℕ → Bool
is_bad_range duration_ms (start, end) = leb end start || ltb duration_ms end

-- `RecordingAsset.__post_init__`
unfoldable pub asset_post_init : RecordingAsset → Outcome RecordingAsset
unfolding is_sha256
asset_post_init a = do
  raise_if (is_empty a.object_key || not (is_sha256 a.content_hash) || ltb a.duration_ms 1)
      (value_error "recording asset integrity is invalid")
  raise_if (any (is_bad_range a.duration_ms) a.missing_ranges)
      (value_error "missing media range is invalid")
  ok a

abbrev pub overlaps : ℕ → ℕ → ℕ × ℕ → Bool
overlaps start_ms end_ms (missing_start, missing_end) =
    ltb start_ms missing_end && ltb missing_start end_ms

-- `RecordingAsset.available`
unfoldable pub available : RecordingAsset → (start_ms end_ms : ℕ) → Bool
available a start_ms end_ms =
    ltb start_ms end_ms
    && leb end_ms a.duration_ms
    && not (any (overlaps start_ms end_ms) a.missing_ranges)

pub record TimelineEntry : Type 0 where
  pub entry_id : Text
  pub text : Text
  pub seek_ms : ℕ
  pub end_ms : ℕ
  pub matched : Bool
  pub media_available : Bool

-- `str.casefold` is a parameter.
module _ (casefold : Text → Text) where
  -- `query.casefold() if query else None`
  abbrev pub folded : Option Text → Option Text
  folded (some (c ∷ cs)) = some (casefold (c ∷ cs))
  folded _ = none

  abbrev pub matches : Option Text → Text → Bool
  matches none text = false
  matches (some []) text = false
  matches (some (c ∷ cs)) text = contains (casefold text) (c ∷ cs)

  -- `TimelineService.project`
  unfoldable pub project :
      List TranscriptSegment → RecordingAsset → (query : Option Text) → List TimelineEntry
  unfolding available
  project segments asset query =
      map
        (λ s. record {
          entry_id = uuid_text s.transcript_segment_id;
          text = s.text;
          seek_ms = s.session_start_ms;
          end_ms = s.session_end_ms;
          matched = matches (folded query) s.text;
          media_available = available asset s.session_start_ms s.session_end_ms;
        })
        segments
