-- ===== src/Analysis/Jobs/Settled.antt =====
-- What holds of the handler between calls, and what later calls keep.
use gbsa_aws_project.Base.{
  ℕ, ◌+◌, ◌≤◌, ◌≡◌, ◌⊎◌, sym, ◌∙◌, subst, true, false, none, some, List, any, arith, inl, inr,
  Bool-cases,
}
use gbsa_aws_project.Base.Equality.{Eq, eq, nat_eq, list_eq, pair_eq, eq→≡}
use gbsa_aws_project.Base.Dict.{
  Dict, lookup, insert, lookup-insert, lookup-insert_self, Holds, insert-Holds,
}
use gbsa_aws_project.Shared.Ids.{OpaqueId}
use gbsa_aws_project.Interview.Text.{Text}
use gbsa_aws_project.Messaging.Outbox.{InMemoryOutbox}
use gbsa_aws_project.Analysis.Job.{
  AnalysisJob, OutcomeStatus, AnalysisOutcome, JobKey, job_key, AnalysisJobHandler, or_zero,
  add_to_dlq, job_digest,
}
use gbsa_aws_project.Analysis.Jobs.Effects.{IsFresh, after, Effect}

pub record IsSettled (h : AnalysisJobHandler) : Type 0 where
  pub identified : Holds (λ k o. (id : OpaqueId) × (o.analysis_id ≡ some id)) h.results
  pub digested : Holds (λ k o. (d : Text) × (lookup k h.digests ≡ some d)) h.results
  pub buried :
      (k : JobKey)
      → any (eq k) h.dlq ≡ true
      → (o : AnalysisOutcome) × (lookup k h.results ≡ some o)
        × (o.status ≡ OutcomeStatus.failed)
        × (h.max_attempts ≤ or_zero (lookup k h.attempts))

-- A key that has a value is not one that has none.
other_key {ℓ κ} :
    {K : Type ℓ} {V : Type κ} ⦃e : Eq K⦄ (j k : K) (d : Dict K V) {v : V}
    → lookup j d ≡ none
    → lookup k d ≡ some v
    → eq j k ≡ false
other_key j k d {v} h at = elim (Bool-cases (eq j k)) [
  | inr other ↦ other
  | inl same ↦
      let p = eq→≡ j k same in
      let at' = subst (λ i. lookup i d ≡ some v) (sym p) at in absurd (ground arith)
]

in_add_to_dlq :
    (k key : JobKey) (dlq : List JobKey)
    → any (eq k) (add_to_dlq key dlq) ≡ true
    → (eq k key ≡ true) ⊎ (any (eq k) dlq ≡ true)
unfolding add_to_dlq
in_add_to_dlq k key dlq m = elim (Bool-cases (any (eq key) dlq)) [
  | inl there ↦ inr (rw there at m)
  | inr new ↦
      let m' = rw new at m in
      elim (Bool-cases (eq k key)) [ inl same ↦ inl same | inr other ↦ inr (ground arith) ]
]

module _ (digest : OpaqueId → ℕ → Text → Text) (job : AnalysisJob) (h : AnalysisJobHandler)
    (fresh : IsFresh digest job h) where
  pub kept_digest :
      (k : JobKey) (o : AnalysisOutcome)
      → lookup k h.results ≡ some o
      → lookup k (insert (job_key job) (job_digest digest job) h.digests) ≡ lookup k h.digests
  kept_digest k o at =
      rw (other_key (job_key job) k h.results fresh.unsettled at) at
        (lookup-insert k (job_key job) (job_digest digest job) h.digests)

  kept_attempts :
      (k : JobKey) (o : AnalysisOutcome)
      → lookup k h.results ≡ some o
      → (n : ℕ) → lookup k (insert (job_key job) n h.attempts) ≡ lookup k h.attempts
  kept_attempts k o at n =
      rw (other_key (job_key job) k h.results fresh.unsettled at) at
        (lookup-insert k (job_key job) n h.attempts)

  pub kept_result :
      (k : JobKey) (o new : AnalysisOutcome)
      → lookup k h.results ≡ some o
      → lookup k (insert (job_key job) new h.results) ≡ some o
  kept_result k o new at =
      (rw (other_key (job_key job) k h.results fresh.unsettled at) at
        (lookup-insert k (job_key job) new h.results))
      ∙ at

  module _ (s : IsSettled h) where
    -- a key that was buried before
    still_buried :
        (k : JobKey) (results : Dict JobKey AnalysisOutcome)
        → ((o : AnalysisOutcome) → lookup k h.results ≡ some o → lookup k results ≡ some o)
        → any (eq k) h.dlq ≡ true
        → (n : ℕ)
        → (o : AnalysisOutcome) × (lookup k results ≡ some o)
          × (o.status ≡ OutcomeStatus.failed)
          × (h.max_attempts ≤ or_zero (lookup k (insert (job_key job) n h.attempts)))
    still_buried k results keeps m n =
        let (o, at, failed, enough) = s.buried k m in
        (o, keeps o at, failed, rw (kept_attempts k o at n) enough)

    tried-IsSettled :
        (outbox : InMemoryOutbox) → IsSettled (after digest job h h.results h.dlq outbox)
    tried-IsSettled outbox = record {
      identified = s.identified;
      digested = λ k o at. let (d, known) = s.digested k o at in (d, kept_digest k o at ∙ known);
      buried = λ k m. still_buried k h.results (λ o at. at) m _;
    }

    new_digested :
        (o : AnalysisOutcome)
        → Holds
            (λ k v.
              (d : Text) × (lookup k (insert (job_key job) (job_digest digest job) h.digests)
                ≡ some d))
            (insert (job_key job) o h.results)
    new_digested o =
        insert-Holds
          (λ k v.
            (d : Text) × (lookup k (insert (job_key job) (job_digest digest job) h.digests)
              ≡ some d))
          (job_key job) o h.results
          (
            job_digest digest job,
            lookup-insert_self (job_key job) (job_digest digest job) h.digests,
          )
          (λ k v at. let (d, known) = s.digested k v at in (d, kept_digest k v at ∙ known))

    new_identified :
        (o : AnalysisOutcome) (id : OpaqueId)
        → o.analysis_id ≡ some id
        → Holds
            (λ k v. (id : OpaqueId) × (v.analysis_id ≡ some id))
            (insert (job_key job) o h.results)
    new_identified o id known =
        insert-Holds (λ k v. (id : OpaqueId) × (v.analysis_id ≡ some id)) (job_key job) o h.results
          (id, known) s.identified

    with_result-IsSettled :
        (o : AnalysisOutcome) (id : OpaqueId)
        → o.analysis_id ≡ some id
        → (outbox : InMemoryOutbox)
        → IsSettled (after digest job h (insert (job_key job) o h.results) h.dlq outbox)
    with_result-IsSettled o id known outbox = record {
      identified = new_identified o id known;
      digested = new_digested o;
      buried = λ k m.
          still_buried k (insert (job_key job) o h.results) (λ v at. kept_result k v o at) m _;
    }

    buried-IsSettled :
        (o : AnalysisOutcome) (id : OpaqueId)
        → o.analysis_id ≡ some id
        → o.status ≡ OutcomeStatus.failed
        → h.max_attempts ≤ or_zero (lookup (job_key job) h.attempts) + 1
        → (outbox : InMemoryOutbox)
        → IsSettled (
            after digest job h
              (insert (job_key job) o h.results)
              (add_to_dlq (job_key job) h.dlq)
              outbox)
    buried-IsSettled o id known failed enough outbox = record {
      identified = new_identified o id known;
      digested = new_digested o;
      buried = λ k m. elim (in_add_to_dlq k (job_key job) h.dlq m) [
        | inr old ↦
            still_buried k (insert (job_key job) o h.results) (λ v at. kept_result k v o at) old _
        | inl here ↦
            let p = eq→≡ k (job_key job) here in
            subst
              (λ k.
                (v : AnalysisOutcome) × (lookup k (insert (job_key job) o h.results) ≡ some v)
                × (v.status ≡ OutcomeStatus.failed)
                × (h.max_attempts
                    ≤ or_zero (
                        lookup k (
                          insert (job_key job) (or_zero (lookup (job_key job) h.attempts) + 1)
                            h.attempts))))
              (sym p)
              (
                o,
                lookup-insert_self (job_key job) o h.results,
                failed,
                rw
                    (lookup-insert_self (job_key job)
                      (or_zero (lookup (job_key job) h.attempts) + 1) h.attempts)
                    enough,
              )
      ];
    }

pub Effect-IsSettled :
    (digest : OpaqueId → ℕ → Text → Text) (job : AnalysisJob) (h h' : AnalysisJobHandler)
    → Effect digest job h h'
    → IsSettled h
    → IsSettled h'
Effect-IsSettled digest job h h' (Effect.nothing p) s = subst IsSettled (sym p) s
Effect-IsSettled digest job h h' (Effect.tried fresh outbox p) s =
    subst IsSettled (sym p) (tried-IsSettled digest job h fresh s outbox)
Effect-IsSettled digest job h h' (Effect.settled fresh o id known outbox p) s =
    subst IsSettled (sym p) (with_result-IsSettled digest job h fresh s o id known outbox)
Effect-IsSettled digest job h h' (Effect.buried fresh o id known failed enough outbox p) s =
    subst IsSettled (sym p) (buried-IsSettled digest job h fresh s o id known failed enough outbox)
