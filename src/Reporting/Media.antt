-- ===== src/Reporting/Media.antt =====
-- workers/reporting/media.py: the manifest of a recording and its gaps.
pub mod Gaps
pub mod Playable
use gbsa_aws_project.Base.{
  ℕ, ◌+◌, Bool, true, false, not, ◌&&◌, ◌||◌, List, [], ◌∷◌, ◌++◌, ltb, leb, ◌==◌, max,
  if◌then◌else◌,
}
use gbsa_aws_project.Base.Exec.{ok, err, raise_if, ◌>>=◌, ◌>>◌}
use gbsa_aws_project.Shared.Errors.{Outcome, value_error}
use gbsa_aws_project.Shared.Ids.{OpaqueId, Instant}
use gbsa_aws_project.Interview.Text.{Text, codes, uuid_text}
use gbsa_aws_project.Interview.Questions.{is_empty}
use gbsa_aws_project.Reporting.Timeline.{AssetType, AssetStatus, RecordingAsset, asset_post_init}

-- start, end and content of a chunk
abbrev pub Chunk : Type 0
Chunk = ℕ × ℕ × List ℕ

-- `a <= b` of two contents
abbrev pub content_leb : List ℕ → List ℕ → Bool
content_leb [] ys = true
content_leb (x ∷ xs) [] = false
content_leb (x ∷ xs) (y ∷ ys) = ltb x y || x == y && content_leb xs ys

-- `a <= b` of two chunks, as tuples
abbrev pub chunk_leb : Chunk → Chunk → Bool
chunk_leb (s, e, c) (t, f, d) = ltb s t || s == t && (ltb e f || e == f && content_leb c d)

unfoldable pub insert_chunk : Chunk → List Chunk → List Chunk
insert_chunk c [] = c ∷ []
insert_chunk c (d ∷ ds) =
    let rest = insert_chunk c ds in if chunk_leb c d then c ∷ d ∷ ds else d ∷ rest

-- `sorted(chunks)`: equal tuples cannot be told apart, so any sort gives the same list.
unfoldable pub sorted : List Chunk → List Chunk
unfolding insert_chunk
sorted [] = []
sorted (c ∷ cs) = insert_chunk c (sorted cs)

-- Where the loop has come to: the cursor, the gaps and the content so far.
abbrev pub Scan : Type 0
Scan = ℕ × List (ℕ × ℕ) × List ℕ

abbrev pub next : Chunk → Scan → Scan
next (start, end, content) (cursor, missing, payload) = (
  max cursor end,
  (if ltb cursor start then missing ++ (cursor, start) ∷ [] else missing),
  payload ++ content,
)

-- The loop of `build_manifest` over the sorted chunks.
unfoldable pub scan : List Chunk → Scan → Outcome Scan
scan [] s = ok s
scan (c ∷ cs) s =
    raise_if (leb c.1 c.0) (value_error "recording range is invalid") >> scan cs (next c s)

abbrev pub status_of : List (ℕ × ℕ) → AssetStatus
status_of [] = AssetStatus.ready
status_of (_ ∷ _) = AssetStatus.partial

-- SHA-256 of a content, as hexadecimal digits, is a parameter.
module _ (sha256 : List ℕ → Text) where
  abbrev pub asset_of : OpaqueId → OpaqueId → OpaqueId → Instant → Scan → RecordingAsset
  asset_of company_id session_id asset_id now (cursor, missing, payload) = record {
    recording_asset_id = asset_id;
    company_id = company_id;
    interview_session_id = session_id;
    asset_type = AssetType.final_video;
    object_key =
        codes "reporting/"
        ++ (uuid_text company_id
            ++ (codes "/" ++ (uuid_text session_id ++ (codes "/" ++ uuid_text asset_id))));
    content_hash = sha256 payload;
    duration_ms = cursor;
    status = status_of missing;
    missing_ranges = missing;
    created_at = now;
  }

  -- `MediaProcessor.build_manifest`, with the identifier and the reading of the clock that it takes.
  unfoldable pub build_manifest :
      (company_id session_id : OpaqueId)
      → List Chunk
      → (asset_id : OpaqueId) → Instant
      → Outcome RecordingAsset
  unfolding sorted scan asset_post_init
  build_manifest company_id session_id chunks asset_id now = do
    raise_if (is_empty chunks) (value_error "recording chunks are required")
    s ← scan (sorted chunks) (0, [], [])
    asset_post_init (asset_of company_id session_id asset_id now s)
