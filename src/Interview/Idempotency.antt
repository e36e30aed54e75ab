-- ===== src/Interview/Idempotency.antt =====
-- interview_engine/application/idempotency.py: results kept by scope, namespace and key. The lock
-- makes a call atomic: a call is one step.
pub mod Replay
pub mod Isolation
use gbsa_aws_project.Base.{
  ℕ, ◌≤◌, Bool, not, ◌&&◌, ◌||◌, Option, none, some, List, [], ◌∷◌, leb, ltb, length, if◌then◌else◌,
}
use gbsa_aws_project.Base.Equality.{Eq, eq, nat_eq, list_eq, pair_eq}
use gbsa_aws_project.Base.Dict.{Dict, lookup, insert}
use gbsa_aws_project.Base.Exec.{Result, ok, err, raise_if, ◌>>=◌, ◌>>◌}
use gbsa_aws_project.Shared.Errors.{Error, Outcome, Method, safe, value_error, idempotency_conflict}
use gbsa_aws_project.Shared.Ids.{OpaqueId}
use gbsa_aws_project.Shared.Tenant.{TenantContext, ApplicantScope, ensure_applicant_scope}
use gbsa_aws_project.Interview.Text.{Text, has_space, is_idempotency_key}

pub record StoredResult (R : Type 0) : Type 0 where
  pub fingerprint : Text
  pub result : R

-- company, applicant, invitation, namespace, idempotency key
abbrev pub RecordKey : Type 0
RecordKey = OpaqueId × (OpaqueId × (OpaqueId × (Text × Text)))

abbrev pub record_key : ApplicantScope → Text → Text → RecordKey
record_key scope namespace idempotency_key =
    (scope.company_id, (scope.applicant_id, (scope.invitation_id, (namespace, idempotency_key))))

abbrev pub ScopedIdempotencyStore : Type 0 → Type 0
ScopedIdempotencyStore R = Dict RecordKey (StoredResult R)

unfoldable pub is_namespace : Text → Bool
unfolding has_space
is_namespace value = leb 1 (length value) && leb (length value) 64 && not (has_space value)

-- the checks that a call makes before it takes the lock
unfoldable pub checks : TenantContext → ApplicantScope → Text → Text → Outcome ApplicantScope
unfolding is_idempotency_key is_namespace ensure_applicant_scope
checks context scope idempotency_key namespace = do
  checked ← ensure_applicant_scope (some context) scope
  raise_if (not (is_idempotency_key idempotency_key))
      (value_error "idempotency_key must contain 16-128 non-whitespace characters")
  raise_if (not (is_namespace namespace)) (value_error "idempotency namespace must be a safe code")
  ok checked

module _ {K R S : Type 0} ⦃e : Eq K⦄ where
  -- The result is kept only if the operation returns.
  pub keep_result :
      K
      → Text
      → Dict K (StoredResult R)
      → Result Error R × S
      → Result Error R × (Dict K (StoredResult R) × S)
  keep_result key fingerprint records (ok result, s) =
      (ok result, (insert key (record { fingerprint = fingerprint; result = result }) records, s))
  keep_result key fingerprint records (err e, s) = (err e, (records, s))

  pub run_or_replay :
      K → Text → Method S R → Option (StoredResult R) → Method (Dict K (StoredResult R) × S) R
  unfolding keep_result
  run_or_replay key fingerprint operation none (records, s) =
      keep_result key fingerprint records (operation s)
  run_or_replay key fingerprint operation (some existing) state =
      if not (eq existing.fingerprint fingerprint)
      then (err (safe idempotency_conflict), state)
      else (ok existing.result, state)

  pub after_checks :
      K → Text → Method S R → Outcome ApplicantScope → Method (Dict K (StoredResult R) × S) R
  unfolding run_or_replay
  after_checks key fingerprint operation (err e) state = (err e, state)
  after_checks key fingerprint operation (ok _) (records, s) =
      run_or_replay key fingerprint operation (lookup key records) (records, s)

-- `ScopedIdempotencyStore.execute`. `fingerprint` is the digest of the payload's canonical JSON;
-- `S` is the state of the object that the operation belongs to.
module _ {P R S : Type 0} (fingerprint : P → Text) where
  unfoldable pub execute :
      TenantContext
      → ApplicantScope
      → (idempotency_key : Text) → (payload : P) → Method S R
      → (namespace : Text) → Method (ScopedIdempotencyStore R × S) R
  unfolding after_checks checks
  execute context scope idempotency_key payload operation namespace =
      after_checks (record_key scope namespace idempotency_key) (fingerprint payload) operation
        (checks context scope idempotency_key namespace)
