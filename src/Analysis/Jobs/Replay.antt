-- ===== src/Analysis/Jobs/Replay.antt =====
-- The handler over any number of calls.
use gbsa_aws_project.Base.{
  ℕ, ◌≡◌, refl, ap, sym, ◌∙◌, subst, Bool, true, false, some, ltb, arith, inl, inr, Bool-cases,
  Option-cases,
}
use gbsa_aws_project.Base.Equality.{nat_eq, list_eq, pair_eq, eq→≡, eq_refl}
use gbsa_aws_project.Base.Dict.{lookup, lookup-insert_self}
use gbsa_aws_project.Base.Exec.{ok, err, Result-cases}
use gbsa_aws_project.Shared.Errors.{Error, ErrorCode, Outcome}
use gbsa_aws_project.Shared.Ids.{OpaqueId}
use gbsa_aws_project.Shared.Tenant.{TenantContext, ensure_applicant_scope}
use gbsa_aws_project.Shared.Tenant.Isolation.{MayAct, ensure_applicant_scope_iff}
use gbsa_aws_project.Interview.Text.{Text}
use gbsa_aws_project.Messaging.Outbox.{OutboxEvent, InMemoryOutbox, add}
use gbsa_aws_project.Analysis.Job.{
  AnalysisJob, AnalysisOutcome, JobKey, job_key, AnalysisJobHandler, new_handler, or_zero,
  is_retryable, add_to_dlq, Draws, with_analysis_id, failure, job_digest, is_other,
}
use gbsa_aws_project.Analysis.Jobs.{
  publish_made, publish, settle, give_up, after_process, begin_attempt, replay_or_run, in_scope,
  handle,
}
use gbsa_aws_project.Analysis.Jobs.Effects.{Effect, handle-Effect, settle_outbox}
use gbsa_aws_project.Analysis.Jobs.Settled.{IsSettled, Effect-IsSettled, kept_result, kept_digest}

-- The result of a key, and the digest of the job it is for.
pub record HasResult (k : JobKey) (d : Text) (o : AnalysisOutcome) (h : AnalysisJobHandler)
    : Type 0 where
  pub result : lookup k h.results ≡ some o
  pub digest : lookup k h.digests ≡ some d

pub Effect-HasResult :
    (digest : OpaqueId → ℕ → Text → Text) (job : AnalysisJob) (h h' : AnalysisJobHandler)
    → Effect digest job h h'
    → (k : JobKey) (d : Text) (o : AnalysisOutcome) → HasResult k d o h
    → HasResult k d o h'
Effect-HasResult digest job h h' (Effect.nothing p) k d o r = subst (HasResult k d o) (sym p) r
Effect-HasResult digest job h h' (Effect.tried fresh outbox p) k d o r =
    subst (HasResult k d o) (sym p) (record {
      result = r.result;
      digest = kept_digest digest job h fresh k o r.result ∙ r.digest;
    })
Effect-HasResult digest job h h' (Effect.settled fresh v id known outbox p) k d o r =
    subst (HasResult k d o) (sym p) (record {
      result = kept_result digest job h fresh k o v r.result;
      digest = kept_digest digest job h fresh k o r.result ∙ r.digest;
    })
Effect-HasResult digest job h h' (Effect.buried fresh v id known failed enough outbox p) k d o r =
    subst (HasResult k d o) (sym p) (record {
      result = kept_result digest job h fresh k o v r.result;
      digest = kept_digest digest job h fresh k o r.result ∙ r.digest;
    })

module _ (same : OutboxEvent → OutboxEvent → Bool) (casefold : Text → Text)
    (digest : OpaqueId → ℕ → Text → Text) where
  -- What calls make of a handler, be it after they raised.
  pub data Later (h : AnalysisJobHandler) : AnalysisJobHandler → Type 0 where
    here : Later h h
    handles :
        {g : AnalysisJobHandler} (context : TenantContext) (job : AnalysisJob) (d : Draws)
        (processed : Outcome AnalysisOutcome)
        → Later h g
        → Later h (handle same casefold digest context job d processed g).1

  Later-IsSettled : (h g : AnalysisJobHandler) → IsSettled h → Later h g → IsSettled g
  Later-IsSettled h _ s here = s
  Later-IsSettled h _ s (handles {g} context job d processed l) =
      Effect-IsSettled digest job g (handle same casefold digest context job d processed g).1
        (handle-Effect same casefold digest context job d processed g) (Later-IsSettled h g s l)

  Later-HasResult :
      (h g : AnalysisJobHandler) (k : JobKey) (d : Text) (o : AnalysisOutcome)
      → HasResult k d o h
      → Later h g
      → HasResult k d o g
  Later-HasResult h _ k d o r here = r
  Later-HasResult h _ k d o r (handles {g} context job draws processed l) =
      Effect-HasResult digest job g (handle same casefold digest context job draws processed g).1
        (handle-Effect same casefold digest context job draws processed g) k d o
        (Later-HasResult h g k d o r l)

  -- Whatever calls a new handler gets, each result has an analysis and a digest on record, and the
  -- key of each job in the dead-letter queue has a failed result after at least as many attempts as
  -- the handler was made for.
  pub Later-new :
      (max_attempts : ℕ) (outbox : InMemoryOutbox) (h g : AnalysisJobHandler)
      → new_handler max_attempts outbox ≡ ok h
      → Later h g
      → IsSettled g
  unfolding new_handler lookup
  Later-new max_attempts outbox h g made l =
      Later-IsSettled h g
        (record {
          identified = λ k o at. absurd (ground arith);
          digested = λ k o at. absurd (ground arith);
          buried = λ k m. absurd (ground arith);
        })
        l

  publish_made_returns :
      (context : TenantContext) (o : AnalysisOutcome) (made : Outcome OutboxEvent)
      (h h' : AnalysisJobHandler) (v : AnalysisOutcome)
      → publish_made same casefold digest context o made h ≡ (ok v, h')
      → o ≡ v
  unfolding publish_made
  publish_made_returns context o (err e) h h' v r = absurd (ground arith)
  publish_made_returns context o (ok event) h h' v r =
      elim (Result-cases (add same context event h.outbox).0) [
        | inl (kept, added) ↦ let r' = rw added at r in ground arith
        | inr (x, refused) ↦ let r' = rw refused at r in absurd (ground arith)
      ]

  module _ (context : TenantContext) (job : AnalysisJob) (d : Draws) where
    settle-HasResult :
        (o v : AnalysisOutcome) (h h' : AnalysisJobHandler)
        → settle same casefold digest context job d o h ≡ (ok v, h')
        → lookup (job_key job) h.digests ≡ some (job_digest digest job)
        → HasResult (job_key job) (job_digest digest job) v h'
    unfolding settle publish
    settle-HasResult o v h h' r known =
        let w = with_analysis_id d.analysis_id o in
        let p : w ≡ v = publish_made_returns context w _ _ h' v r in
        let (outbox, left) = settle_outbox same casefold digest context job d o h in
        subst (HasResult (job_key job) (job_digest digest job) v) (sym left ∙ ap (λ m. m.1) r)
          (record {
            result = lookup-insert_self (job_key job) w h.results ∙ ap some p;
            digest = known;
          })

    give_up-HasResult :
        (code : ErrorCode) (v : AnalysisOutcome) (h h' : AnalysisJobHandler)
        → give_up same casefold digest context job d code h ≡ (ok v, h')
        → lookup (job_key job) h.digests ≡ some (job_digest digest job)
        → HasResult (job_key job) (job_digest digest job) v h'
    unfolding give_up
    give_up-HasResult code v h h' r known = elim (Bool-cases (is_retryable code)) [
      | inr final ↦ settle-HasResult (failure false code) v h h' (rw final at r) known
      | inl again ↦
          elim (Bool-cases (ltb (or_zero (lookup (job_key job) h.attempts)) h.max_attempts)) [
            | inl more ↦ let r' = rw (again, more) at r in absurd (ground arith)
            | inr last ↦
                settle-HasResult (failure true code) v
                  (record h { dlq = add_to_dlq (job_key job) h.dlq }) h' (rw (again, last) at r)
                  known
          ]
    ]

    after_process-HasResult :
        (processed : Outcome AnalysisOutcome) (v : AnalysisOutcome) (h h' : AnalysisJobHandler)
        → after_process same casefold digest context job d processed h ≡ (ok v, h')
        → lookup (job_key job) h.digests ≡ some (job_digest digest job)
        → HasResult (job_key job) (job_digest digest job) v h'
    unfolding after_process
    after_process-HasResult (ok o) v h h' r known = settle-HasResult o v h h' r known
    after_process-HasResult (err (Error.safe code)) v h h' r known =
        give_up-HasResult code v h h' r known
    after_process-HasResult (err other) v h h' r known = absurd (ground arith)

    handle-HasResult :
        (processed : Outcome AnalysisOutcome) (v : AnalysisOutcome) (h h' : AnalysisJobHandler)
        → IsSettled h
        → handle same casefold digest context job d processed h ≡ (ok v, h')
        → HasResult (job_key job) (job_digest digest job) v h'
    unfolding handle in_scope replay_or_run
    handle-HasResult processed v h h' s r =
        elim (Result-cases (ensure_applicant_scope (some context) job.scope)) [
          | inr (x, denied) ↦ let r' = rw denied at r in absurd (ground arith)
          | inl (c, checked) ↦
              elim (Bool-cases
                (is_other (lookup (job_key job) h.digests) (job_digest digest job))) [
                  | inl other ↦ let r' = rw (checked, other) at r in absurd (ground arith)
                  | inr own ↦ elim (Option-cases (lookup (job_key job) h.results)) [
                    | inl new ↦
                        after_process-HasResult processed v
                          (begin_attempt same casefold digest job h) h'
                          (rw (checked, own, new) at r)
                          (lookup-insert_self (job_key job) (job_digest digest job) h.digests)
                    | inr (kept, old) ↦
                        let r' = rw (checked, own, old) at r in
                        let (e, known) = s.digested (job_key job) kept old in
                        let p : kept ≡ v = ground arith in
                        let own' = rw known at own in
                        let q : e ≡ job_digest digest job =
                          eq→≡ e (job_digest digest job) (ground arith) in
                        subst (HasResult (job_key job) (job_digest digest job) v) (ap (λ m. m.1) r')
                          (record { result = old ∙ ap some p; digest = known ∙ ap some q })
                  ]
                ]
        ]

  module _ (context context' : TenantContext) (job job' : AnalysisJob) (d d' : Draws)
      (processed processed' : Outcome AnalysisOutcome) (h g : AnalysisJobHandler) where
    -- Once a call for a job has returned, from a handler whose results have their digests, as every
    -- one that calls reach: every later call for a job of the same company, key and digest by an
    -- actor of its scope returns the same result and changes nothing, whatever was called in
    -- between.
    pub handle_replay :
        {h' : AnalysisJobHandler} {v : AnalysisOutcome}
        → IsSettled h
        → handle same casefold digest context job d processed h ≡ (ok v, h')
        → Later h' g
        → MayAct context' job'.scope
        → job_key job ≡ job_key job'
        → job_digest digest job ≡ job_digest digest job'
        → handle same casefold digest context' job' d' processed' g ≡ (ok v, g)
    unfolding handle in_scope replay_or_run
    handle_replay {h'} {v} s r l may key same_job =
        let has =
          Later-HasResult h' g (job_key job) (job_digest digest job) v
            (handle-HasResult context job d processed v h h' s r) l in
        let found = subst (λ k. lookup k g.results ≡ some v) key has.result in
        let known = subst (λ k. lookup k g.digests ≡ some (job_digest digest job)) key has.digest in
        rw
          (
            (ensure_applicant_scope_iff context' job'.scope).1 may,
            known,
            same_job,
            eq_refl (job_digest digest job'),
            found,
          )
          refl
