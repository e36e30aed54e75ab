-- ===== src/Analysis/Jobs.antt =====
-- workers/analysis/handlers.py: analysis jobs, their attempts and results.
pub mod Effects
pub mod Settled
pub mod Replay
pub mod Recorded
pub mod Exhausted
pub mod Lost
use gbsa_aws_project.Analysis.Job.{
  AnalysisJob, AnalysisOutcome, AnalysisJobHandler, job_key, or_zero, is_retryable, add_to_dlq,
  Draws, with_analysis_id, completed_event, failure, is_other, job_digest,
}
use gbsa_aws_project.Base.{
  ℕ, ◌+◌, Bool, true, false, not, ◌||◌, Option, none, some, List, [], ◌∷◌, ◌++◌, ltb, any,
  if◌then◌else◌,
}
use gbsa_aws_project.Base.{◌==◌}
use gbsa_aws_project.Base.Equality.{Eq, eq, nat_eq, list_eq, pair_eq}
use gbsa_aws_project.Base.Dict.{Dict, lookup, insert}
use gbsa_aws_project.Base.Exec.{ok, err, raise_if, ◌>>=◌, ◌>>◌}
use gbsa_aws_project.Shared.Errors.{
  Error, ErrorCode, Outcome, Method, value_error, safe, idempotency_conflict, code_name,
}
use gbsa_aws_project.Shared.Ids.{OpaqueId, Instant}
use gbsa_aws_project.Shared.Tenant.{TenantContext, ApplicantScope, ensure_applicant_scope}
use gbsa_aws_project.Interview.Text.{Text, codes, uuid_text}
use gbsa_aws_project.Messaging.Payload.{Fields}
use gbsa_aws_project.Messaging.Payload
use gbsa_aws_project.Messaging.Outbox.{
  OutboxStatus, AggregateRef, OutboxEvent, InMemoryOutbox, aggregate_post_init, event_post_init,
  add,
}

-- `==` of events, `str.casefold` and the digest of a job, which is the SHA-256 of its canonical
-- JSON, are parameters.
module _ (same : OutboxEvent → OutboxEvent → Bool) (casefold : Text → Text)
    (digest : OpaqueId → ℕ → Text → Text) where
  pub publish_made :
      TenantContext
      → AnalysisOutcome
      → Outcome OutboxEvent
      → Method AnalysisJobHandler AnalysisOutcome
  publish_made context outcome (err e) handler = (err e, handler)
  publish_made context outcome (ok event) handler =
      let (r, outbox) = add same context event handler.outbox in
      (r >> ok outcome, record handler { outbox = outbox })

  pub publish :
      TenantContext
      → AnalysisJob
      → Draws
      → AnalysisOutcome
      → Method AnalysisJobHandler AnalysisOutcome
  unfolding publish_made completed_event
  publish context job draws outcome handler =
      let event = completed_event context job draws outcome in
      publish_made context outcome
        (aggregate_post_init event.aggregate >> event_post_init casefold event) handler

  -- from `if outcome.analysis_id is None` on
  pub settle :
      TenantContext
      → AnalysisJob
      → Draws
      → AnalysisOutcome
      → Method AnalysisJobHandler AnalysisOutcome
  unfolding publish
  settle context job draws processed handler =
      let outcome = with_analysis_id draws.analysis_id processed in
      publish context job draws outcome
        (record handler { results = insert (job_key job) outcome handler.results })

  -- the `except` clause
  pub give_up :
      TenantContext → AnalysisJob → Draws → ErrorCode → Method AnalysisJobHandler AnalysisOutcome
  unfolding settle
  give_up context job draws code handler =
      if is_retryable code
      then (if ltb (or_zero (lookup (job_key job) handler.attempts)) handler.max_attempts
          then (err (safe code), handler)
          else settle context job draws (failure true code)
              (record handler { dlq = add_to_dlq (job_key job) handler.dlq }))
      else settle context job draws (failure false code) handler

  pub after_process :
      TenantContext
      → AnalysisJob
      → Draws
      → Outcome AnalysisOutcome
      → Method AnalysisJobHandler AnalysisOutcome
  unfolding settle give_up
  after_process context job draws (ok outcome) handler = settle context job draws outcome handler
  after_process context job draws (err (safe code)) handler = give_up context job draws code handler
  after_process context job draws (err other) handler = (err other, handler)

  abbrev pub begin_attempt : AnalysisJob → AnalysisJobHandler → AnalysisJobHandler
  begin_attempt job handler = record handler {
    digests = insert (job_key job) (job_digest digest job) handler.digests;
    attempts =
        insert (job_key job) (or_zero (lookup (job_key job) handler.attempts) + 1) handler.attempts;
  }

  pub replay_or_run :
      TenantContext
      → AnalysisJob
      → Draws
      → Outcome AnalysisOutcome
      → Option AnalysisOutcome
      → Method AnalysisJobHandler AnalysisOutcome
  unfolding after_process
  replay_or_run context job draws processed (some kept) handler = (ok kept, handler)
  replay_or_run context job draws processed none handler =
      after_process context job draws processed (begin_attempt job handler)

  pub in_scope :
      TenantContext
      → AnalysisJob
      → Draws
      → Outcome AnalysisOutcome
      → Outcome ApplicantScope
      → Method AnalysisJobHandler AnalysisOutcome
  unfolding replay_or_run
  in_scope context job draws processed (err e) handler = (err e, handler)
  in_scope context job draws processed (ok _) handler =
      if is_other (lookup (job_key job) handler.digests) (job_digest digest job)
      then (err (safe idempotency_conflict), handler)
      else replay_or_run context job draws processed (lookup (job_key job) handler.results) handler

  -- `AnalysisJobHandler.handle`; `processed` is what `process(job)` returns or raises.
  unfoldable pub handle :
      TenantContext
      → AnalysisJob
      → Draws
      → (processed : Outcome AnalysisOutcome) → Method AnalysisJobHandler AnalysisOutcome
  unfolding in_scope
  handle context job draws processed handler =
      in_scope context job draws processed (ensure_applicant_scope (some context) job.scope) handler
