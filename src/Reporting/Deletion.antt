-- ===== src/Reporting/Deletion.antt =====
-- reporting/domain/deletion.py and application/deletion_service.py: what is left to delete.
pub mod Progress
use gbsa_aws_project.Base.{
  ℕ, zero, suc, ◌+◌, Bool, true, false, not, ◌&&◌, ◌||◌, Option, none, some, List, [], ◌∷◌, ltb,
  ◌==◌, any, map, keep, length, if◌then◌else◌,
}
use gbsa_aws_project.Base.Exec.{ok, err, raise_if, ◌>>=◌, ◌>>◌}
use gbsa_aws_project.Shared.Errors.{Error, Outcome, stop_iteration}
use gbsa_aws_project.Shared.Ids.{OpaqueId, Instant}
use gbsa_aws_project.Shared.Tenant.{TenantContext, ApplicantScope, ensure_applicant_scope}
use gbsa_aws_project.Interview.Text.{Text, codes}

pub data DeletionStatus : Type 0 where
  pending retrying partially_completed completed : DeletionStatus

-- The status of a target, a text in the source of one of these values.
pub data TargetStatus : Type 0 where
  target_pending verified_absent failed : TargetStatus

pub record DeletionTarget : Type 0 where
  pub target_id : OpaqueId
  pub store : Text
  pub target_type : Text
  pub owner_lane : Text
  pub status : TargetStatus
  pub attempts : ℕ
  pub last_error_code : Option Text
  pub verified_at : Option Instant

pub record DeletionManifest : Type 0 where
  pub manifest_id : OpaqueId
  pub deletion_request_id : OpaqueId
  pub targets : List DeletionTarget
  pub status : DeletionStatus

pub record DeletionRequest : Type 0 where
  pub deletion_request_id : OpaqueId
  pub scope : ApplicantScope
  pub reason : Text
  pub requested_at : Instant
  pub policy_snapshot : Option Text

abbrev pub is_verified : TargetStatus → Bool
is_verified TargetStatus.verified_absent = true
is_verified _ = false

-- `sum(target.status == "verified_absent" for target in self.targets)`
unfoldable pub verified_count : List DeletionTarget → ℕ
verified_count [] = 0
verified_count (t ∷ ts) =
    let rest = verified_count ts in if is_verified t.status then suc rest else rest

abbrev pub refreshed : List DeletionTarget → DeletionStatus → DeletionStatus
refreshed targets status =
    if verified_count targets == length targets
    then DeletionStatus.completed
    else if ltb 0 (verified_count targets)
    then DeletionStatus.partially_completed
    else if any (λ t. ltb 0 t.attempts) targets
    then DeletionStatus.retrying
    else status

-- `DeletionManifest.refresh`
unfoldable pub refresh : DeletionManifest → DeletionManifest
unfolding verified_count
refresh m = record m { status = refreshed m.targets m.status }

-- `DeletionService.request`, with the identifier and the reading of the clock that it takes. The
-- snapshot of the policy is its JSON, `none` for the default.
unfoldable pub request :
    TenantContext
    → ApplicantScope
    → (reason : Text) → (policy_snapshot : Option Text) → (request_id : OpaqueId) → Instant
    → Outcome DeletionRequest
request context scope reason policy_snapshot request_id now = do
  ensure_applicant_scope (some context) scope
  ok (record {
    deletion_request_id = request_id;
    scope = scope;
    reason = reason;
    requested_at = now;
    policy_snapshot = policy_snapshot;
  })

abbrev pub target_of : Text × Text × OpaqueId → DeletionTarget
target_of (store, target_type, target_id) = record {
  target_id = target_id;
  store = store;
  target_type = target_type;
  owner_lane = codes "cross_lane";
  status = TargetStatus.target_pending;
  attempts = 0;
  last_error_code = none;
  verified_at = none;
}

-- `DeletionService.enumerate`
unfoldable pub enumerate :
    DeletionRequest → List (Text × Text × OpaqueId) → (manifest_id : OpaqueId) → DeletionManifest
enumerate r raw_targets manifest_id = record {
  manifest_id = manifest_id;
  deletion_request_id = r.deletion_request_id;
  targets = map target_of raw_targets;
  status = DeletionStatus.pending;
}

abbrev or_not_verified : Option Text → Text
or_not_verified (some (c ∷ cs)) = c ∷ cs
or_not_verified _ = codes "DELETE_NOT_VERIFIED"

-- The target after an attempt.
abbrev pub attempted : Bool → Option Text → Instant → DeletionTarget → DeletionTarget
attempted true error_code now t = record t {
  attempts = t.attempts + 1;
  status = TargetStatus.verified_absent;
  last_error_code = none;
  verified_at = some now;
}
attempted false error_code now t = record t {
  attempts = t.attempts + 1;
  status = TargetStatus.failed;
  last_error_code = some (or_not_verified error_code);
  verified_at = none;
}

-- The first target of an identifier changes; without one, `next` raises `StopIteration`.
unfoldable pub change_first :
    OpaqueId
    → (DeletionTarget → DeletionTarget)
    → List DeletionTarget
    → Outcome (List DeletionTarget)
change_first id f [] = err stop_iteration
change_first id f (t ∷ ts) =
    let rest = change_first id f ts in
    if t.target_id == id then ok (f t ∷ ts) else rest >>= λ us. ok (t ∷ us)

-- `DeletionService.record_result`
unfoldable pub record_result :
    DeletionManifest
    → (target_id : OpaqueId) → (is_absent : Bool) → (error_code : Option Text) → Instant
    → Outcome DeletionManifest
unfolding change_first refresh
record_result m target_id is_absent error_code now =
    change_first target_id (attempted is_absent error_code now) m.targets >>= λ targets.
    ok (refresh (record m { targets = targets }))
