-- ===== src/Interview/Idempotency/Replay.antt =====
-- What a repeated call gives.
use gbsa_aws_project.Base.{
  ◌≡◌, ◌≢◌, ◌∙◌, none, some, true, arith, Option-cases, Bool-cases, inl, inr,
}
use gbsa_aws_project.Base.Equality.{Eq, eq, nat_eq, list_eq, pair_eq, list_beq_iff}
use gbsa_aws_project.Base.Dict.{
  Dict, lookup, lookup-insert_self, lookup-insert_other, lookup-distinct,
}
use gbsa_aws_project.Base.Exec.{Result, ok, err, Result-cases}
use gbsa_aws_project.Shared.Errors.{Error, Outcome, Method, safe, idempotency_conflict}
use gbsa_aws_project.Shared.Tenant.{TenantContext, ApplicantScope}
use gbsa_aws_project.Shared.Tenant.Isolation.{MayAct, ensure_applicant_scope_iff}
use gbsa_aws_project.Interview.Text.{Text, is_idempotency_key}
use gbsa_aws_project.Interview.Idempotency.{
  StoredResult, RecordKey, record_key, ScopedIdempotencyStore, keep_result, run_or_replay,
  after_checks, checks, execute, is_namespace,
}

module _ {K R S : Type 0} ⦃e : Eq K⦄ where
  -- A call that returned has its result on record, under the fingerprint it was made with.
  run_or_replay-records :
      (key : K) (fp : Text) (op : Method S R) (records : Dict K (StoredResult R)) (s : S)
      {records' : Dict K (StoredResult R)} {s' : S} {r : R}
      → run_or_replay key fp op (lookup key records) (records, s) ≡ (ok r, (records', s'))
      → lookup key records' ≡ some (record { fingerprint = fp; result = r })
  unfolding run_or_replay keep_result
  run_or_replay-records key fp op records s h = elim (Option-cases (lookup key records)) [
    | inl new ↦ elim (Result-cases (op s).0) [
      | inl (a, ran) ↦
          ground (arith, lookup-insert_self key (record { fingerprint = fp; result = a }) records)
      | inr (x, failed) ↦ ground arith
    ]
    | inr (stored, old) ↦ ground (arith, list_beq_iff stored.fingerprint fp)
  ]

module _ {K R S : Type 0} ⦃e : Eq K⦄ (k : K) {v : StoredResult R} where
  keep_result-keeps :
      (key : K) (fp : Text) (records : Dict K (StoredResult R)) (ran : Result Error R × S)
      → lookup key records ≡ none
      → lookup k records ≡ some v
      → lookup k (keep_result key fp records ran).1.0 ≡ some v
  unfolding keep_result
  keep_result-keeps key fp records (ok a, s) new at =
      lookup-insert_other k key (record { fingerprint = fp; result = a }) records
        (lookup-distinct key k records new at)
      ∙ at
  keep_result-keeps key fp records (err x, s) new at = at

  after_checks-keeps :
      (key : K) (fp : Text) (op : Method S R) (c : Outcome ApplicantScope)
      (records : Dict K (StoredResult R)) (s : S)
      → lookup k records ≡ some v
      → lookup k (after_checks key fp op c (records, s)).1.0 ≡ some v
  unfolding after_checks run_or_replay
  after_checks-keeps key fp op (err x) records s at = at
  after_checks-keeps key fp op (ok c) records s at = elim (Option-cases (lookup key records)) [
    | inl new ↦ rw new (keep_result-keeps key fp records (op s) new at)
    | inr (stored, old) ↦ elim (Bool-cases (eq stored.fingerprint fp)) [
      | inl same ↦ rw (old, same) at
      | inr other ↦ rw (old, other) at
    ]
  ]

module _ {P R : Type 0} (S : Type 0) (fingerprint : P → Text) where
  -- What calls of anyone make of the records, be it after they raised.
  pub data Later (records : ScopedIdempotencyStore R) : ScopedIdempotencyStore R → Type 0 where
    here : Later records records
    calls :
        {t : ScopedIdempotencyStore R} (context : TenantContext) (scope : ApplicantScope)
        (key : Text) (payload : P) (op : Method S R) (namespace : Text) (s : S)
        → Later records t
        → Later records (execute fingerprint context scope key payload op namespace (t, s)).1.0

  Later-keeps :
      (records t : ScopedIdempotencyStore R) (k : RecordKey) (v : StoredResult R)
      → lookup k records ≡ some v
      → Later records t
      → lookup k t ≡ some v
  unfolding execute
  Later-keeps records _ k v at here = at
  Later-keeps records _ k v at (calls {t} context scope key payload op namespace s l) =
      after_checks-keeps k (record_key scope namespace key) (fingerprint payload) op
        (checks context scope key namespace) t s (Later-keeps records t k v at l)

checks-return :
    (context : TenantContext) (scope : ApplicantScope) (key namespace : Text) {c : ApplicantScope}
    → checks context scope key namespace ≡ ok c
    → (is_idempotency_key key ≡ true) × (is_namespace namespace ≡ true)
unfolding checks
checks-return context scope key namespace h = ground arith

checks-MayAct :
    (context : TenantContext) (scope : ApplicantScope) (key namespace : Text)
    → MayAct context scope
    → is_idempotency_key key ≡ true
    → is_namespace namespace ≡ true
    → checks context scope key namespace ≡ ok scope
unfolding checks
checks-MayAct context scope key namespace may k n =
    ground (arith, (ensure_applicant_scope_iff context scope).1 may)

module _ {P R S : Type 0} (fingerprint : P → Text) (context context' : TenantContext)
    (scope : ApplicantScope) (key namespace : Text) (payload payload' : P) (op op' : Method S R)
    (records : ScopedIdempotencyStore R) (s s'' : S) where
  after_ok :
      {records' : ScopedIdempotencyStore R} {s' : S} {r : R}
      → execute fingerprint context scope key payload op namespace (records, s)
        ≡ (ok r, (records', s'))
      → (is_idempotency_key key ≡ true)
        × (is_namespace namespace ≡ true)
        × (lookup (record_key scope namespace key) records'
            ≡ some (record { fingerprint = fingerprint payload; result = r }))
  unfolding execute after_checks
  after_ok h = elim (Result-cases (checks context scope key namespace)) [
    | inl (c, passed) ↦
        let (k, n) = checks-return context scope key namespace passed in
        (
          k,
          n,
          run_or_replay-records (record_key scope namespace key) (fingerprint payload) op records s
              (rw passed at h),
        )
    | inr (x, failed) ↦ absurd (ground arith)
  ]

  -- Once a call has returned, every later call of the same scope, namespace and key, by an actor of
  -- the scope and with a payload of the same fingerprint, returns the same result and changes
  -- nothing: its operation does not run, whatever calls of whatever scope, namespace and key were
  -- made in between, and whatever happened to the object.
  pub execute_replay :
      {records' t : ScopedIdempotencyStore R} {s' : S} {r : R}
      → execute fingerprint context scope key payload op namespace (records, s)
        ≡ (ok r, (records', s'))
      → Later S fingerprint records' t
      → MayAct context' scope
      → fingerprint payload ≡ fingerprint payload'
      → execute fingerprint context' scope key payload' op' namespace (t, s'') ≡ (ok r, (t, s''))
  unfolding execute after_checks run_or_replay
  execute_replay {records'} {t} {s'} {r} h l may same =
      let (k, n, found) = after_ok h in
      let still =
        Later-keeps S fingerprint records' t (record_key scope namespace key)
          (record { fingerprint = fingerprint payload; result = r }) found l in
      rw (checks-MayAct context' scope key namespace may k n, still)
        (ground (arith, list_beq_iff (fingerprint payload) (fingerprint payload')))

  -- Once a call has returned, a call of the same scope, namespace and key with a payload of another
  -- fingerprint is refused as a conflict and changes nothing.
  pub execute_conflict :
      {records' : ScopedIdempotencyStore R} {s' : S} {r : R}
      → execute fingerprint context scope key payload op namespace (records, s)
        ≡ (ok r, (records', s'))
      → MayAct context' scope
      → fingerprint payload ≢ fingerprint payload'
      → execute fingerprint context' scope key payload' op' namespace (records', s'')
        ≡ (err (safe idempotency_conflict), (records', s''))
  unfolding execute after_checks run_or_replay
  execute_conflict h may other =
      let (k, n, found) = after_ok h in
      rw (checks-MayAct context' scope key namespace may k n, found)
        (ground (arith, list_beq_iff (fingerprint payload) (fingerprint payload')))
