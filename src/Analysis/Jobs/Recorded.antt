-- ===== src/Analysis/Jobs/Recorded.antt =====
-- workers/analysis/handlers.py: what is on record for the jobs that a handler was called for.
use gbsa_aws_project.Base.{ℕ, ◌≡◌, ◌⊎◌, refl, sym, ◌∙◌, subst, some, Bool, List, arith, inl, inr}
use gbsa_aws_project.Base.Equality.{nat_eq, list_eq, pair_eq}
use gbsa_aws_project.Base.Dict.{Dict, lookup, insert, lookup-insert_self, Holds, insert-Holds}
use gbsa_aws_project.Base.Exec.{ok}
use gbsa_aws_project.Shared.Ids.{OpaqueId}
use gbsa_aws_project.Interview.Text.{Text}
use gbsa_aws_project.Messaging.Outbox.{OutboxEvent, InMemoryOutbox}
use gbsa_aws_project.Analysis.Job.{
  AnalysisJob, AnalysisOutcome, JobKey, job_key, AnalysisJobHandler, new_handler, job_digest,
  add_to_dlq,
}
use gbsa_aws_project.Analysis.Jobs.{handle}
use gbsa_aws_project.Analysis.Jobs.Effects.{IsFresh, Effect, handle-Effect, after}
use gbsa_aws_project.Analysis.Jobs.Settled.{IsSettled, kept_digest}
use gbsa_aws_project.Analysis.Jobs.Replay.{Later, here, handles, Later-new}

module _ (digest : OpaqueId → ℕ → Text → Text) where
  -- Under `k`, one of the jobs `known` has the digest of its submission, version and source.
  abbrev pub HasJob : (AnalysisJob → Type 0) → Dict JobKey Text → JobKey → Type 0
  HasJob known digests k =
      (job : AnalysisJob) × known job
      × (k ≡ (job.company_id, job.idempotency_key))
      × (lookup k digests ≡ some (digest job.submission_id job.analysis_version job.source_type))

  -- Every result is of one of the jobs `known`.
  abbrev pub AreOf : (AnalysisJob → Type 0) → AnalysisJobHandler → Type 0
  AreOf known h = Holds (λ k o. HasJob known h.digests k) h.results

  module _ (known : AnalysisJob → Type 0) (job : AnalysisJob) (h : AnalysisJobHandler)
      (is_known : known job) where
    module _ (all : AreOf known h) (fresh : IsFresh digest job h) where
      tried-AreOf :
          (outbox : InMemoryOutbox) → AreOf known (after digest job h h.results h.dlq outbox)
      tried-AreOf outbox k o at =
          let (j, j_known, own, e) = all k o at in
          (j, j_known, own, kept_digest digest job h fresh k o at ∙ e)

      settled-AreOf :
          (o : AnalysisOutcome) (dlq : List JobKey) (outbox : InMemoryOutbox)
          → AreOf known (after digest job h (insert (job_key job) o h.results) dlq outbox)
      settled-AreOf o dlq outbox =
          insert-Holds
            (λ k v. HasJob known (insert (job_key job) (job_digest digest job) h.digests) k)
            (job_key job) o h.results
            (
              job,
              is_known,
              refl,
              lookup-insert_self (job_key job) (job_digest digest job) h.digests,
            )
            (tried-AreOf outbox)

    Effect-AreOf :
        (h' : AnalysisJobHandler) → AreOf known h → Effect digest job h h' → AreOf known h'
    Effect-AreOf h' all (Effect.nothing p) = subst (AreOf known) (sym p) all
    Effect-AreOf h' all (Effect.tried fresh outbox p) =
        subst (AreOf known) (sym p) (tried-AreOf all fresh outbox)
    Effect-AreOf h' all (Effect.settled fresh o id given outbox p) =
        subst (AreOf known) (sym p) (settled-AreOf all fresh o h.dlq outbox)
    Effect-AreOf h' all (Effect.buried fresh o id given failed enough outbox p) =
        subst (AreOf known) (sym p)
          (settled-AreOf all fresh o (add_to_dlq (job_key job) h.dlq) outbox)

module _ (same : OutboxEvent → OutboxEvent → Bool) (casefold : Text → Text)
    (digest : OpaqueId → ℕ → Text → Text) where
  -- The jobs of the calls.
  pub Handled : {h g : AnalysisJobHandler} → Later same casefold digest h g → AnalysisJob → Type 0
  Handled here j = ⊥
  Handled (handles context job d processed l) j = (j ≡ job) ⊎ Handled l j

  Later-AreOf :
      (h g : AnalysisJobHandler) (known : AnalysisJob → Type 0) (l : Later same casefold digest h g)
      → ((j : AnalysisJob) → Handled l j → known j)
      → AreOf digest known h
      → AreOf digest known g
  unfolding Handled
  Later-AreOf h _ known here every all = all
  Later-AreOf h _ known (handles {g} context job d processed l) every all =
      Effect-AreOf digest known job g (every job (inl refl))
        (handle same casefold digest context job d processed g).1
        (Later-AreOf h g known l (λ j m. every j (inr m)) all)
        (handle-Effect same casefold digest context job d processed g)

  -- Whatever calls a new handler gets: each result has an analysis, and is under the key of one of
  -- the jobs that were called for, with the digest of that job's submission, version and source on
  -- record; and the key of each job in the dead-letter queue has a failed result after at least as
  -- many attempts as the handler was made for.
  pub Later-AreRecorded :
      (max_attempts : ℕ) (outbox : InMemoryOutbox) (h g : AnalysisJobHandler)
      → new_handler max_attempts outbox ≡ ok h
      → (l : Later same casefold digest h g) → IsSettled g × AreOf digest (Handled l) g
  unfolding new_handler lookup
  Later-AreRecorded max_attempts outbox h g made l = (
    Later-new same casefold digest max_attempts outbox h g made l,
    Later-AreOf h g (Handled l) l (λ j m. m) (λ k o at. absurd (ground arith)),
  )
