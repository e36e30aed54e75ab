-- ===== src/Analysis/Jobs/Exhausted.antt =====
-- A job that is called for often enough ends, and what can be lost when it does.
use gbsa_aws_project.Base.{
  ℕ, ◌+◌, ◌≤◌, ◌<◌, ◌≡◌, ◌⊎◌, refl, ap, sym, ◌∙◌, subst, Bool, true, false, some, List, [], ◌∷◌,
  ltb, length, All, arith, inl, inr, Bool-cases, Option-cases,
}
use gbsa_aws_project.Base.Equality.{nat_eq, list_eq, pair_eq, eq→≡, eq_refl}
use gbsa_aws_project.Base.Dict.{lookup, lookup-insert_self}
use gbsa_aws_project.Base.Exec.{ok, err}
use gbsa_aws_project.Shared.Errors.{Error, ErrorCode, Outcome}
use gbsa_aws_project.Shared.Ids.{OpaqueId}
use gbsa_aws_project.Shared.Tenant.{TenantContext}
use gbsa_aws_project.Shared.Tenant.Isolation.{MayAct, ensure_applicant_scope_iff}
use gbsa_aws_project.Interview.Text.{Text}
use gbsa_aws_project.Messaging.Outbox.{OutboxEvent}
use gbsa_aws_project.Analysis.Job.{
  AnalysisJob, AnalysisOutcome, job_key, AnalysisJobHandler, or_zero, is_retryable, add_to_dlq,
  Draws, with_analysis_id, failure, job_digest, is_other,
}
use gbsa_aws_project.Analysis.Jobs.{
  settle, give_up, after_process, begin_attempt, replay_or_run, in_scope, handle,
}
use gbsa_aws_project.Analysis.Jobs.Effects.{handle-Effect, settle_outbox}
use gbsa_aws_project.Analysis.Jobs.Settled.{IsSettled, Effect-IsSettled}
use gbsa_aws_project.Analysis.Jobs.Replay.{HasResult, Effect-HasResult}

-- What `handle` reacts to: an outcome, or an error of the application.
abbrev pub IsCaught : Outcome AnalysisOutcome → Type 0
IsCaught (ok o) = Unit
IsCaught (err (Error.safe code)) = Unit
IsCaught (err other) = ⊥

module _ (same : OutboxEvent → OutboxEvent → Bool) (casefold : Text → Text)
    (digest : OpaqueId → ℕ → Text → Text) (context : TenantContext) (job : AnalysisJob) where
  -- One call for the job after the other, with what processing returned or raised in each.
  abbrev pub handle_all :
      List (Draws × Outcome AnalysisOutcome) → AnalysisJobHandler → AnalysisJobHandler
  handle_all [] h = h
  handle_all (r ∷ rs) h = handle_all rs (handle same casefold digest context job r.0 r.1 h).1

  -- The job has a result.
  abbrev pub Ends : AnalysisJobHandler → Type 0
  Ends h = (o : AnalysisOutcome) × HasResult (job_key job) (job_digest digest job) o h

  -- Another attempt is left.
  pub record Waits (h h' : AnalysisJobHandler) : Type 0 where
    pub counted :
        or_zero (lookup (job_key job) h'.attempts) ≡ or_zero (lookup (job_key job) h.attempts) + 1
    pub left : or_zero (lookup (job_key job) h.attempts) + 1 < h.max_attempts
    pub limit : h'.max_attempts ≡ h.max_attempts
    pub own : is_other (lookup (job_key job) h'.digests) (job_digest digest job) ≡ false

  settle-Ends :
      (d : Draws) (o : AnalysisOutcome) (h : AnalysisJobHandler)
      → lookup (job_key job) h.digests ≡ some (job_digest digest job)
      → Ends (settle same casefold digest context job d o h).1
  settle-Ends d o h known =
      let w = with_analysis_id d.analysis_id o in
      let (outbox, left) = settle_outbox same casefold digest context job d o h in
      subst Ends (sym left)
        (w, record { result = lookup-insert_self (job_key job) w h.results; digest = known })

  module _ (d : Draws) (h : AnalysisJobHandler) where
    abbrev attempt : AnalysisJobHandler
    attempt = begin_attempt same casefold digest job h

    attempt_digest : lookup (job_key job) attempt.digests ≡ some (job_digest digest job)
    attempt_digest = lookup-insert_self (job_key job) (job_digest digest job) h.digests

    attempt_count :
        or_zero (lookup (job_key job) attempt.attempts)
        ≡ or_zero (lookup (job_key job) h.attempts) + 1
    attempt_count = ap or_zero (
        lookup-insert_self (job_key job) (or_zero (lookup (job_key job) h.attempts) + 1) h.attempts)

    give_up_step :
        (code : ErrorCode)
        → Ends (give_up same casefold digest context job d code attempt).1
          ⊎ Waits h (give_up same casefold digest context job d code attempt).1
    unfolding give_up
    give_up_step code = elim (Bool-cases (is_retryable code)) [
      | inr final ↦ inl (rw final (settle-Ends d (failure false code) attempt attempt_digest))
      | inl again ↦
          elim (Bool-cases (ltb (or_zero (lookup (job_key job) attempt.attempts)) h.max_attempts)) [
            | inr last ↦ inl (
                rw (again, last)
                  (settle-Ends d (failure true code)
                    (record attempt { dlq = add_to_dlq (job_key job) h.dlq }) attempt_digest))
            | inl more ↦ inr (
                rw (again, more)
                  (record {
                    counted = attempt_count;
                    left = ground (arith, attempt_count);
                    limit = refl;
                    own = rw (attempt_digest, eq_refl (job_digest digest job)) refl;
                  }))
          ]
    ]

    after_process_step :
        (processed : Outcome AnalysisOutcome)
        → IsCaught processed
        → Ends (after_process same casefold digest context job d processed attempt).1
          ⊎ Waits h (after_process same casefold digest context job d processed attempt).1
    unfolding after_process
    after_process_step (ok o) c = inl (settle-Ends d o attempt attempt_digest)
    after_process_step (err (Error.safe code)) c = give_up_step code
    after_process_step (err other) c = absurd c

    handle_step :
        (processed : Outcome AnalysisOutcome)
        → IsCaught processed
        → MayAct context job.scope
        → is_other (lookup (job_key job) h.digests) (job_digest digest job) ≡ false
        → IsSettled h
        → Ends (handle same casefold digest context job d processed h).1
          ⊎ Waits h (handle same casefold digest context job d processed h).1
    unfolding handle in_scope replay_or_run
    handle_step processed c may own s =
        let checked = (ensure_applicant_scope_iff context job.scope).1 may in
        elim (Option-cases (lookup (job_key job) h.results)) [
          | inl new ↦ rw (checked, own, new) (after_process_step processed c)
          | inr (kept, old) ↦
              let (e, known) = s.digested (job_key job) kept old in
              let own' = rw known at own in
              let q : e ≡ job_digest digest job = eq→≡ e (job_digest digest job) (ground arith) in
              inl
                (rw (checked, own, old) (kept, record { result = old; digest = known ∙ ap some q }))
        ]

  Ends-handle_all :
      (runs : List (Draws × Outcome AnalysisOutcome)) (h : AnalysisJobHandler)
      → Ends h
      → Ends (handle_all runs h)
  Ends-handle_all [] h e = e
  Ends-handle_all (r ∷ rs) h e =
      Ends-handle_all rs (handle same casefold digest context job r.0 r.1 h).1 (
        e.0,
        Effect-HasResult digest job h (handle same casefold digest context job r.0 r.1 h).1
            (handle-Effect same casefold digest context job r.0 r.1 h) (job_key job)
            (job_digest digest job) e.0 e.1,
      )

  -- However often processing fails: once an actor of the scope has called for a job at least once and
  -- as often as attempts are left, the job has a result, if processing always returned or raised an
  -- error of the application, the key was used for no other job, and the handler was one that
  -- calls reach.
  pub handle_all-Ends :
      (r : Draws × Outcome AnalysisOutcome) (rs : List (Draws × Outcome AnalysisOutcome))
      (h : AnalysisJobHandler)
      → All (λ r. IsCaught r.1) (r ∷ rs)
      → MayAct context job.scope
      → is_other (lookup (job_key job) h.digests) (job_digest digest job) ≡ false
      → IsSettled h
      → h.max_attempts ≤ or_zero (lookup (job_key job) h.attempts) + length (r ∷ rs)
      → Ends (handle_all (r ∷ rs) h)
  handle_all-Ends r [] h c may own s enough = elim (handle_step r.0 h r.1 c.0 may own s) [
    | inl ends ↦ ends
    | inr waits ↦ absurd (omega (arith, waits.left))
  ]
  handle_all-Ends r (q ∷ qs) h c may own s enough = elim (handle_step r.0 h r.1 c.0 may own s) [
    | inl ends ↦ Ends-handle_all (q ∷ qs) (handle same casefold digest context job r.0 r.1 h).1 ends
    | inr waits ↦
        handle_all-Ends q qs (handle same casefold digest context job r.0 r.1 h).1 c.1 may waits.own
          (Effect-IsSettled digest job h (handle same casefold digest context job r.0 r.1 h).1
            (handle-Effect same casefold digest context job r.0 r.1 h) s)
          (omega (arith, waits.counted, waits.limit))
  ]
