-- ===== src/Analysis/Jobs/Effects.antt =====
-- What a call of `handle` may do to the handler.
use gbsa_aws_project.Base.{
  ℕ, ◌+◌, ◌≤◌, ◌≡◌, refl, Bool, true, false, none, some, List, ltb, arith, inl, inr, Bool-cases,
  Option-cases,
}
use gbsa_aws_project.Base.Equality.{nat_eq, list_eq, pair_eq}
use gbsa_aws_project.Base.Dict.{Dict, lookup, insert, lookup-insert_self}
use gbsa_aws_project.Base.Exec.{ok, err}
use gbsa_aws_project.Shared.Errors.{Error, ErrorCode, Outcome}
use gbsa_aws_project.Shared.Ids.{OpaqueId}
use gbsa_aws_project.Shared.Tenant.{TenantContext, ApplicantScope, ensure_applicant_scope}
use gbsa_aws_project.Interview.Text.{Text}
use gbsa_aws_project.Messaging.Outbox.{OutboxEvent, InMemoryOutbox}
use gbsa_aws_project.Analysis.Job.{
  AnalysisJob, OutcomeStatus, AnalysisOutcome, JobKey, job_key, AnalysisJobHandler, or_zero,
  is_retryable, add_to_dlq, Draws, with_analysis_id, failure, job_digest, is_other,
}
use gbsa_aws_project.Analysis.Jobs.{
  publish_made, publish, settle, give_up, after_process, begin_attempt, replay_or_run, in_scope,
  handle,
}

module _ (digest : OpaqueId → ℕ → Text → Text) (job : AnalysisJob) (h : AnalysisJobHandler) where
  -- The job has no result yet, and its key was used for no other job.
  pub record IsFresh : Type 0 where
    pub unsettled : lookup (job_key job) h.results ≡ none
    pub own : is_other (lookup (job_key job) h.digests) (job_digest digest job) ≡ false

  abbrev pub after : Dict JobKey AnalysisOutcome → List JobKey → InMemoryOutbox → AnalysisJobHandler
  after results dlq outbox = record {
    max_attempts = h.max_attempts;
    attempts = insert (job_key job) (or_zero (lookup (job_key job) h.attempts) + 1) h.attempts;
    digests = insert (job_key job) (job_digest digest job) h.digests;
    results = results;
    dlq = dlq;
    outbox = outbox;
  }

  -- Nothing; an attempt; an attempt with a result; or the last attempt, which failed.
  pub data Effect (h' : AnalysisJobHandler) : Type 0 where
    nothing : h' ≡ h → Effect h'
    tried : IsFresh → (outbox : InMemoryOutbox) → h' ≡ after h.results h.dlq outbox → Effect h'
    settled :
        IsFresh
        → (o : AnalysisOutcome) (id : OpaqueId) → o.analysis_id ≡ some id
        → (outbox : InMemoryOutbox) → h' ≡ after (insert (job_key job) o h.results) h.dlq outbox
        → Effect h'
    buried :
        IsFresh
        → (o : AnalysisOutcome) (id : OpaqueId) → o.analysis_id ≡ some id
        → o.status ≡ OutcomeStatus.failed
        → h.max_attempts ≤ or_zero (lookup (job_key job) h.attempts) + 1
        → (outbox : InMemoryOutbox)
        → h' ≡ after (insert (job_key job) o h.results) (add_to_dlq (job_key job) h.dlq) outbox
        → Effect h'

identified :
    (fresh : OpaqueId) (o : AnalysisOutcome)
    → (id : OpaqueId) × ((with_analysis_id fresh o).analysis_id ≡ some id)
identified fresh o = elim (Option-cases o.analysis_id) [
  | inl missing ↦ (fresh, rw missing refl)
  | inr (id, given) ↦ (id, rw given refl)
]

module _ (same : OutboxEvent → OutboxEvent → Bool) (casefold : Text → Text)
    (digest : OpaqueId → ℕ → Text → Text) where
  publish_made_outbox :
      (context : TenantContext) (o : AnalysisOutcome) (made : Outcome OutboxEvent)
      (h : AnalysisJobHandler)
      → (outbox : InMemoryOutbox) × ((publish_made same casefold digest context o made h).1
          ≡ record h { outbox = outbox })
  unfolding publish_made
  publish_made_outbox context o (err e) h = (h.outbox, refl)
  publish_made_outbox context o (ok event) h = (_, refl)

  -- A publication changes the outbox alone.
  pub settle_outbox :
      (context : TenantContext) (job : AnalysisJob) (d : Draws) (o : AnalysisOutcome)
      (h : AnalysisJobHandler)
      → (outbox : InMemoryOutbox) × ((settle same casefold digest context job d o h).1 ≡ record h {
        results = insert (job_key job) (with_analysis_id d.analysis_id o) h.results;
        outbox = outbox;
      })
  unfolding settle publish
  settle_outbox context job d o h = publish_made_outbox context _ _ _

  module _ (context : TenantContext) (job : AnalysisJob) (d : Draws) (h : AnalysisJobHandler) where
    settle-Effect :
        (o : AnalysisOutcome)
        → IsFresh digest job h
        → Effect digest job h
            (settle same casefold digest context job d o
              (begin_attempt same casefold digest job h)).1
    settle-Effect o fresh =
        let (id, known) = identified d.analysis_id o in
        let (outbox, left) =
          settle_outbox context job d o (begin_attempt same casefold digest job h) in
        Effect.settled fresh (with_analysis_id d.analysis_id o) id known outbox left

    give_up-Effect :
        (code : ErrorCode)
        → IsFresh digest job h
        → Effect digest job h
            (give_up same casefold digest context job d code
              (begin_attempt same casefold digest job h)).1
    unfolding give_up
    give_up-Effect code fresh =
        let attempt = begin_attempt same casefold digest job h in
        elim (Bool-cases (is_retryable code)) [
          | inr final ↦ rw final (settle-Effect (failure false code) fresh)
          | inl again ↦
              elim (Bool-cases
                (ltb (or_zero (lookup (job_key job) attempt.attempts)) h.max_attempts)) [
                  | inl more ↦ rw (again, more) (Effect.tried fresh h.outbox refl)
                  | inr last ↦
                      let (id, known) = identified d.analysis_id (failure true code) in
                      let (outbox, left) =
                        settle_outbox context job d (failure true code)
                          (record attempt { dlq = add_to_dlq (job_key job) h.dlq }) in
                      rw (again, last)
                        (Effect.buried fresh (with_analysis_id d.analysis_id (failure true code)) id
                          known refl
                          (ground (
                            arith,
                            lookup-insert_self (job_key job)
                                (or_zero (lookup (job_key job) h.attempts) + 1) h.attempts,
                          ))
                          outbox left)
                ]
        ]

    after_process-Effect :
        (processed : Outcome AnalysisOutcome)
        → IsFresh digest job h
        → Effect digest job h
            (after_process same casefold digest context job d processed
              (begin_attempt same casefold digest job h)).1
    unfolding after_process
    after_process-Effect (ok o) fresh = settle-Effect o fresh
    after_process-Effect (err (Error.safe code)) fresh = give_up-Effect code fresh
    after_process-Effect (err other) fresh = Effect.tried fresh h.outbox refl

    in_scope-Effect :
        (processed : Outcome AnalysisOutcome) (checked : Outcome ApplicantScope)
        → Effect digest job h (in_scope same casefold digest context job d processed checked h).1
    unfolding in_scope replay_or_run
    in_scope-Effect processed (err x) = Effect.nothing refl
    in_scope-Effect processed (ok s) =
        elim (Bool-cases (is_other (lookup (job_key job) h.digests) (job_digest digest job))) [
          | inl other ↦ rw other (Effect.nothing refl)
          | inr own ↦ elim (Option-cases (lookup (job_key job) h.results)) [
            | inr (kept, old) ↦ rw (own, old) (Effect.nothing refl)
            | inl new ↦
                rw (own, new)
                  (after_process-Effect processed (record { unsettled = new; own = own }))
          ]
        ]

  pub handle-Effect :
      (context : TenantContext) (job : AnalysisJob) (d : Draws)
      (processed : Outcome AnalysisOutcome) (h : AnalysisJobHandler)
      → Effect digest job h (handle same casefold digest context job d processed h).1
  unfolding handle
  handle-Effect context job d processed h =
      in_scope-Effect context job d h processed (ensure_applicant_scope (some context) job.scope)
