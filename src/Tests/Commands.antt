-- ===== src/Tests/Commands.antt =====
-- Repeated commands, and the checkpoint of a session.
use gbsa_aws_project.Base.{ℕ, ◌+◌, ◌≡◌, refl, some, none, [], ◌∷◌}
use gbsa_aws_project.Base.Equality.{nat_eq, list_eq, pair_eq}
use gbsa_aws_project.Base.Dict.{lookup, insert}
use gbsa_aws_project.Base.Exec.{ok}
use gbsa_aws_project.Shared.Errors.{Method}
use gbsa_aws_project.Shared.Tenant.{session_key}
use gbsa_aws_project.Interview.Text.{Text, codes}
use gbsa_aws_project.Interview.Session.{SessionState}
use gbsa_aws_project.Interview.Turn.{SessionCheckpoint, pending}
use gbsa_aws_project.Interview.Idempotency.{ScopedIdempotencyStore, record_key, execute}
use gbsa_aws_project.Interview.Idempotency.Replay.{Later, execute_replay}
use gbsa_aws_project.Interview.Checkpoints.{
  CheckpointService, CheckpointRecord, CheckpointRequest, checkpoint_of, record_of,
  record_checkpoint, resume,
}
use gbsa_aws_project.Interview.Checkpoints.Recovery.{requested_snapshot, resume-record}
use gbsa_aws_project.Tests.Samples.{scope, applicant, reviewer, reviewer-MayAct, key}

-- A counter as the object, and a payload that is its own digest.
abbrev digest : ℕ → Text
digest n = n ∷ []

abbrev count : Method ℕ ℕ
count n = (ok n, n + 1)

abbrev namespace : Text
namespace = codes "command"

abbrev kept : ScopedIdempotencyStore ℕ
kept = (record_key scope namespace key, record { fingerprint = digest 4; result = 0 }) ∷ []

first_call : execute digest applicant scope key 4 count namespace ([], 0) ≡ (ok 0, (kept, 1))
unfolding execute insert lookup
first_call = refl

-- The records after another command of the scope.
abbrev kept_two : ScopedIdempotencyStore ℕ
kept_two =
    (execute digest applicant scope (codes "another-key-of-sixteen") 5 count namespace
      (kept, 1)).1.0

execute_replay_example :
    execute digest reviewer scope key 4 count namespace (kept_two, 6) ≡ (ok 0, (kept_two, 6))
execute_replay_example =
    execute_replay digest applicant reviewer scope key namespace 4 4 count count [] 0 6 first_call
      (Later.calls applicant scope (codes "another-key-of-sixteen") 5 count namespace 1 Later.here)
      reviewer-MayAct refl

abbrev request : CheckpointRequest
request = record {
  session_sequence = 2;
  last_final_turn_id = none;
  last_media_chunk_sequence = 0;
  pending_turn_id = some 11;
  hot_view_sync_status = pending;
  state = SessionState.awaiting_answer;
  degraded_modes = [];
}

abbrev checkpoint : SessionCheckpoint
checkpoint = checkpoint_of scope 7 20 500 request

abbrev old : CheckpointRecord
old = record_of checkpoint request

abbrev on_record : CheckpointService
on_record = (session_key scope 7, old) ∷ []

first_record : record_checkpoint applicant scope 7 20 500 request [] ≡ (ok checkpoint, on_record)
unfolding record_checkpoint insert lookup
first_record = refl

resume-record_example : resume reviewer scope 7 1 on_record ≡ ok (requested_snapshot 7 request 1)
resume-record_example =
    resume-record scope 7 20 500 request [] applicant reviewer 1 first_record reviewer-MayAct

abbrev low : CheckpointRequest
low = record request { session_sequence = 1 }

on_record_at : lookup (session_key scope 7) on_record ≡ some old
unfolding lookup
on_record_at = refl
