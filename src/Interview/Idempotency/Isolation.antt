-- ===== src/Interview/Idempotency/Isolation.antt =====
-- Which records a call can touch.
use gbsa_aws_project.Base.{◌≡◌, ◌≢◌, refl, Option, none, some, arith, Bool-cases, inl, inr}
use gbsa_aws_project.Base.Equality.{Eq, eq, nat_eq, list_eq, pair_eq}
use gbsa_aws_project.Base.Dict.{Dict, lookup, lookup-insert}
use gbsa_aws_project.Base.Exec.{Result, ok, err}
use gbsa_aws_project.Shared.Errors.{Error, Outcome, Method}
use gbsa_aws_project.Shared.Tenant.{TenantContext, ApplicantScope}
use gbsa_aws_project.Interview.Text.{Text}
use gbsa_aws_project.Interview.Idempotency.{
  StoredResult, record_key, ScopedIdempotencyStore, keep_result, run_or_replay, after_checks,
  checks, execute,
}

-- What a call may do to the records: raise and leave them alone, or write its own key.
abbrev pub Confined :
    {K R S : Type 0} ⦃e : Eq K⦄
    → K
    → Dict K (StoredResult R)
    → Result Error R × (Dict K (StoredResult R) × S)
    → Type 0
Confined key records (err _, (records', s)) = records' ≡ records
Confined {K} key records (ok _, (records', s)) =
    (j : K) → key ≢ j → lookup j records' ≡ lookup j records

module _ {K R S : Type 0} ⦃e : Eq K⦄ (key : K) (fp : Text) (op : Method S R) where
  keep_result-Confined :
      (records : Dict K (StoredResult R)) (ran : Result Error R × S)
      → Confined key records (keep_result key fp records ran)
  unfolding keep_result
  keep_result-Confined records (ok a, s) = λ j ne. ground (
    arith,
    lookup-insert j key (record { fingerprint = fp; result = a }) records,
    e.beq_iff key j,
  )
  keep_result-Confined records (err x, s) = refl

  run_or_replay-Confined :
      (old : Option (StoredResult R)) (records : Dict K (StoredResult R)) (s : S)
      → Confined key records (run_or_replay key fp op old (records, s))
  unfolding run_or_replay
  run_or_replay-Confined none records s = keep_result-Confined records (op s)
  run_or_replay-Confined (some stored) records s = elim (Bool-cases (eq stored.fingerprint fp)) [
    | inl same ↦ rw same (λ j ne. refl)
    | inr other ↦ rw other
  ]

  after_checks-Confined :
      (c : Outcome ApplicantScope) (records : Dict K (StoredResult R)) (s : S)
      → Confined key records (after_checks key fp op c (records, s))
  unfolding after_checks
  after_checks-Confined (ok c) records s = run_or_replay-Confined (lookup key records) records s
  after_checks-Confined (err x) records s = refl

-- A call that raises, for whatever reason, leaves every record as it was, so it can be made again; a
-- call that returns leaves the records of all other scopes, namespaces and keys as they were.
pub execute-Confined :
    {P R S : Type 0} (fingerprint : P → Text) (context : TenantContext) (scope : ApplicantScope)
    (key : Text) (payload : P) (op : Method S R) (namespace : Text)
    (records : ScopedIdempotencyStore R) (s : S)
    → Confined
        (record_key scope namespace key)
        records
        (execute fingerprint context scope key payload op namespace (records, s))
unfolding execute
execute-Confined fingerprint context scope key payload op namespace records s =
    after_checks-Confined (record_key scope namespace key) (fingerprint payload) op
      (checks context scope key namespace) records s
