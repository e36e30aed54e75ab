-- ===== src/Tests/Reporting.antt =====
-- Recordings with gaps, and deletions.
use gbsa_aws_project.Base.{
  ℕ, zero, suc, ◌≤◌, ◌<◌, ◌≡◌, ◌⊎◌, ◌↔◌, refl, true, false, none, List, [], ◌∷◌,
}
use gbsa_aws_project.Base.Exec.{ok, err}
use gbsa_aws_project.Shared.Errors.{stop_iteration}
use gbsa_aws_project.Interview.Text.{Text, codes}
use gbsa_aws_project.Interview.Turn.{is_sha256}
use gbsa_aws_project.Reporting.Timeline.{RecordingAsset, available}
use gbsa_aws_project.Reporting.Media.{Chunk, asset_of, build_manifest}
use gbsa_aws_project.Reporting.Media.Gaps.{covered}
use gbsa_aws_project.Reporting.Media.Playable.{available_iff}
use gbsa_aws_project.Reporting.Deletion.{
  DeletionStatus, DeletionManifest, attempted, target_of, record_result,
}
use gbsa_aws_project.Reporting.Deletion.Progress.{Stands, Replaced, has_target, record_result_cases}

abbrev repeated : ℕ → Text
repeated zero = []
repeated (suc n) = b'a' ∷ repeated n

abbrev sha256 : List ℕ → Text
sha256 content = repeated 64

hashed : is_sha256 (repeated 64) ≡ true
unfolding is_sha256
hashed = refl

-- Nothing covers the milliseconds from 10 to 20.
abbrev chunks : List Chunk
chunks = (20, 30, 2 ∷ []) ∷ (0, 10, 1 ∷ []) ∷ []

abbrev asset : RecordingAsset
asset = asset_of sha256 1 7 40 900 (30, (10, 20) ∷ [], 1 ∷ 2 ∷ [])

built : build_manifest sha256 1 7 chunks 40 900 ≡ ok asset
unfolding build_manifest
built = refl

available_iff_example :
    (available asset 5 15 ≡ true)
    ↔ ((5 < 15) × ((t : ℕ) → 5 ≤ t → t < 15 → covered t chunks ≡ true))
available_iff_example = available_iff sha256 1 7 chunks 40 900 5 15 asset built

abbrev manifest : DeletionManifest
manifest = record {
  manifest_id = 50;
  deletion_request_id = 51;
  targets =
      target_of (codes "s3", codes "object", 60) ∷ target_of (codes "rds", codes "row", 61) ∷ [];
  status = DeletionStatus.pending;
}

record_result_cases_example :
    let call = record_result manifest 61 true none 70 in
    ((has_target 61 manifest.targets ≡ false) × (call ≡ err stop_iteration))
    ⊎ ((m' : DeletionManifest) × (call ≡ ok m')
        × (m'.manifest_id ≡ 50)
        × Replaced 61 (attempted true none 70) manifest.targets m'.targets
        × Stands m'.targets DeletionStatus.pending m'.status)
record_result_cases_example = record_result_cases manifest 61 true none 70
