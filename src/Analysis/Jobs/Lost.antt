-- ===== src/Analysis/Jobs/Lost.antt =====
-- A result whose event is never published.
use gbsa_aws_project.Base.{
  ℕ, ◌<◌, ◌≡◌, refl, Bool, false, ltb, leb, length, arith, inl, inr, Bool-cases,
}
use gbsa_aws_project.Base.Equality.{nat_eq, list_eq, pair_eq, eq_refl}
use gbsa_aws_project.Base.Dict.{insert, lookup-insert_self}
use gbsa_aws_project.Base.Exec.{ok, err, Result-cases, ◌>>◌}
use gbsa_aws_project.Shared.Errors.{Error, Outcome, value_error}
use gbsa_aws_project.Shared.Ids.{OpaqueId}
use gbsa_aws_project.Shared.Tenant.{TenantContext}
use gbsa_aws_project.Shared.Tenant.Isolation.{MayAct, ensure_applicant_scope_iff}
use gbsa_aws_project.Interview.Text.{Text}
use gbsa_aws_project.Messaging.Shapes.{safe_code}
use gbsa_aws_project.Messaging.Outbox.{
  OutboxEvent, AggregateRef, is_event_type, aggregate_post_init, event_post_init,
}
use gbsa_aws_project.Analysis.Job.{
  AnalysisJob, AnalysisOutcome, job_key, AnalysisJobHandler, Draws, with_analysis_id, job_digest,
  completed_event,
}
use gbsa_aws_project.Analysis.Jobs.{
  publish_made, publish, settle, after_process, begin_attempt, replay_or_run, in_scope, handle,
}
use gbsa_aws_project.Analysis.Jobs.Effects.{IsFresh}

-- No event has a key of fewer than 16 characters.
event_post_init-short :
    (casefold : Text → Text) (e : OutboxEvent)
    → length e.idempotency_key < 16
    → (x : Error) × (event_post_init casefold e ≡ err x)
unfolding event_post_init
event_post_init-short casefold e short = elim (Bool-cases (is_event_type e.event_type)) [
  | inr wrong ↦ (value_error "event_type must be a namespaced lower-case code", rw wrong refl)
  | inl typed ↦ elim (Bool-cases (ltb e.event_version 1)) [
    | inl low ↦ (value_error "event_version must be positive", rw (typed, low) refl)
    | inr counted ↦ elim (Result-cases (safe_code e.idempotency_key "idempotency_key")) [
      | inr (x, unsafe) ↦ (x, rw (typed, counted, unsafe) refl)
      | inl (k, safe) ↦
          let below : leb 16 (length e.idempotency_key) ≡ false = ground arith in
          (
            value_error "idempotency_key must contain between 16 and 128 characters",
            rw (typed, counted, safe, below) refl,
          )
    ]
  ]
]

made-short :
    (casefold : Text → Text) (a : AggregateRef) (e : OutboxEvent)
    → length e.idempotency_key < 16
    → (x : Error) × ((aggregate_post_init a >> event_post_init casefold e) ≡ err x)
made-short casefold a e short = elim (Result-cases (aggregate_post_init a)) [
  | inr (x, wrong) ↦ (x, rw wrong refl)
  | inl (b, valid) ↦
      let (x, refused) = event_post_init-short casefold e short in (x, rw (valid, refused) refl)
]

module _ (same : OutboxEvent → OutboxEvent → Bool) (casefold : Text → Text)
    (digest : OpaqueId → ℕ → Text → Text) where
  -- A job with a key of fewer than 16 characters, which has no result and shares its key with no other
  -- job, processed by an actor of its scope: the call raises and adds no event to the outbox, yet
  -- keeps the result, so that the next call for the job by an actor of the scope returns the
  -- result and adds no event either.
  pub handle_lost :
      (context context' : TenantContext) (job : AnalysisJob) (d d' : Draws) (o : AnalysisOutcome)
      (processed' : Outcome AnalysisOutcome) (h : AnalysisJobHandler)
      → MayAct context job.scope
      → MayAct context' job.scope
      → IsFresh digest job h
      → length job.idempotency_key < 16
      → (x : Error) × (h' : AnalysisJobHandler) × (handle same casefold digest context job d
            (ok o)
            h
          ≡ (err x, h'))
        × (h'.outbox ≡ h.outbox)
        × (handle same casefold digest context' job d' processed' h'
            ≡ (ok (with_analysis_id d.analysis_id o), h'))
  unfolding handle in_scope replay_or_run after_process settle publish publish_made completed_event
  handle_lost context context' job d d' o processed' h may may' fresh short =
      let w = with_analysis_id d.analysis_id o in
      let event = completed_event context job d w in
      let (x, refused) = made-short casefold event.aggregate event short in
      let attempt = begin_attempt same casefold digest job h in
      (
        x,
        record attempt { results = insert (job_key job) w h.results },
        rw
            (
              (ensure_applicant_scope_iff context job.scope).1 may,
              fresh.own,
              fresh.unsettled,
              refused,
            )
            refl,
        refl,
        rw
            (
              (ensure_applicant_scope_iff context' job.scope).1 may',
              lookup-insert_self (job_key job) (job_digest digest job) h.digests,
              eq_refl (job_digest digest job),
              lookup-insert_self (job_key job) w h.results,
            )
            refl,
      )
