-- ===== src/Tests/Recording.antt =====
-- The upload of a chunk, its repetition and its deletion.
use gbsa_aws_project.Base.{ℕ, ◌≡◌, refl, List, [], ◌∷◌}
use gbsa_aws_project.Base.Equality.{nat_eq, list_eq, pair_eq}
use gbsa_aws_project.Base.Dict.{lookup, insert}
use gbsa_aws_project.Base.Exec.{ok, err}
use gbsa_aws_project.Shared.Errors.{value_error}
use gbsa_aws_project.Shared.Tenant.{session_key}
use gbsa_aws_project.Interview.Text.{Text, codes}
use gbsa_aws_project.Interview.Recording.{RecordingService, Chunks, Upload, chunk_of, accept}
use gbsa_aws_project.Interview.Recording.Timeline.{IsTimeline, Everywhere}
use gbsa_aws_project.Interview.Recording.Accept.{accept-IsTimeline}
use gbsa_aws_project.Tests.Samples.{scope, applicant, key}

-- a digest of the right form
abbrev hash : List ℕ → Text
hash _ = codes "0123456789abcdef0123456789abcdef0123456789abcdef0123456789abcdef"

abbrev upload : Upload
upload = record {
  sequence = 1;
  content = 1 ∷ 2 ∷ 3 ∷ [];
  sha256 = hash [];
  start_ms = 0;
  end_ms = 1000;
  idempotency_key = key;
}

abbrev stored : RecordingService
stored = (session_key scope 7, chunk_of scope 7 30 500 upload ∷ []) ∷ []

first_accept :
    accept hash applicant scope 7 30 500 upload [] ≡ (ok (chunk_of scope 7 30 500 upload), stored)
unfolding accept insert lookup
first_accept = refl

-- A gap is refused, and the empty list of the session is left behind.
gap_refused : accept hash applicant scope 7 30 500 (record upload { sequence = 2 }) [] ≡ (
  err (value_error "recording chunk sequence is not contiguous"),
  (session_key scope 7, []) ∷ [],
)
unfolding accept insert lookup
gap_refused = refl

abbrev next_upload : Upload
next_upload = record upload {
  sequence = 2;
  start_ms = 1000;
  end_ms = 1500;
  idempotency_key = codes "command-key-0002";
}

nothing-Everywhere : (P : Chunks → Type 0) → Everywhere P []
unfolding lookup
nothing-Everywhere P j cs at = cc

accept-IsTimeline_example : Everywhere IsTimeline (accept hash applicant scope 7 30 500 upload []).1
accept-IsTimeline_example =
    accept-IsTimeline hash applicant scope 7 30 500 upload [] (nothing-Everywhere IsTimeline)
