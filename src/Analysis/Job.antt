-- ===== src/Analysis/Job.antt =====
-- workers/analysis/handlers.py: a job, its outcome, its event and the state of the handler.
use gbsa_aws_project.Base.{
  ℕ, Bool, true, false, not, Option, none, some, List, [], ◌∷◌, ◌++◌, ltb, any, if◌then◌else◌,
}
use gbsa_aws_project.Base.{◌==◌}
use gbsa_aws_project.Base.Equality.{eq, nat_eq, list_eq, pair_eq}
use gbsa_aws_project.Base.Dict.{Dict, lookup}
use gbsa_aws_project.Base.Exec.{ok, raise_if, ◌>>◌}
use gbsa_aws_project.Shared.Errors.{ErrorCode, Outcome, value_error, code_name}
use gbsa_aws_project.Shared.Ids.{OpaqueId, Instant}
use gbsa_aws_project.Shared.Tenant.{TenantContext, ApplicantScope}
use gbsa_aws_project.Interview.Text.{Text, codes, uuid_text}
use gbsa_aws_project.Messaging.Payload.{Fields}
use gbsa_aws_project.Messaging.Payload
use gbsa_aws_project.Messaging.Outbox.{OutboxStatus, OutboxEvent, InMemoryOutbox}

pub record AnalysisJob : Type 0 where
  pub company_id : OpaqueId
  pub scope : ApplicantScope
  pub submission_id : OpaqueId
  pub analysis_version : ℕ
  pub source_type : Text
  pub idempotency_key : Text

-- `AnalysisJob.__post_init__`
unfoldable pub job_post_init : AnalysisJob → Outcome AnalysisJob
job_post_init job = do
  raise_if (not (job.company_id == job.scope.company_id))
      (value_error "analysis job company must match applicant scope")
  raise_if (ltb job.analysis_version 1) (value_error "analysis version must be positive")
  ok job

pub data OutcomeStatus : Type 0 where
  ready partial failed : OutcomeStatus

abbrev pub status_text : OutcomeStatus → Text
status_text OutcomeStatus.ready = codes "ready"
status_text OutcomeStatus.partial = codes "partial"
status_text OutcomeStatus.failed = codes "failed"

pub record AnalysisOutcome : Type 0 where
  pub status : OutcomeStatus
  pub impact_code : Option Text
  pub analysis_id : Option OpaqueId

abbrev pub JobKey : Type 0
JobKey = OpaqueId × Text

abbrev pub job_key : AnalysisJob → JobKey
job_key job = (job.company_id, job.idempotency_key)

pub record AnalysisJobHandler : Type 0 where
  pub max_attempts : ℕ
  pub attempts : Dict JobKey ℕ
  pub digests : Dict JobKey Text
  pub results : Dict JobKey AnalysisOutcome
  pub dlq : List JobKey
  pub outbox : InMemoryOutbox

-- `AnalysisJobHandler.__init__`
unfoldable pub new_handler : (max_attempts : ℕ) → InMemoryOutbox → Outcome AnalysisJobHandler
new_handler max_attempts outbox = do
  raise_if (ltb max_attempts 1) (value_error "max attempts must be positive")
  ok (record {
    max_attempts = max_attempts;
    attempts = [];
    digests = [];
    results = [];
    dlq = [];
    outbox = outbox;
  })

abbrev pub or_zero : Option ℕ → ℕ
or_zero none = 0
or_zero (some n) = n

-- `AnalysisJobHandler.attempts_for`
unfoldable pub attempts_for : AnalysisJob → AnalysisJobHandler → ℕ
attempts_for job handler = or_zero (lookup (job_key job) handler.attempts)

abbrev pub is_retryable : ErrorCode → Bool
is_retryable ErrorCode.dependency_timeout = true
is_retryable ErrorCode.dependency_unavailable = true
is_retryable ErrorCode.rate_limited = true
is_retryable _ = false

-- `self._dlq.add(key)`
unfoldable pub add_to_dlq : JobKey → List JobKey → List JobKey
add_to_dlq key dlq = if any (eq key) dlq then dlq else key ∷ dlq

-- What a call of `handle` draws: two identifiers, of which the first is for an outcome that has
-- none, and the instant of the event.
pub record Draws : Type 0 where
  pub analysis_id : OpaqueId
  pub event_id : OpaqueId
  pub now : Instant

abbrev pub with_analysis_id : OpaqueId → AnalysisOutcome → AnalysisOutcome
with_analysis_id fresh outcome = record outcome {
  analysis_id = elim outcome.analysis_id [ none ↦ some fresh | some id ↦ some id ];
}

abbrev optional_uuid : Option OpaqueId → Text
optional_uuid none = codes "None"
optional_uuid (some id) = uuid_text id

abbrev optional_value : Option Text → Payload.Value
optional_value none = Payload.Value.null
optional_value (some t) = Payload.Value.text t

abbrev pub completed_payload : AnalysisJob → AnalysisOutcome → Fields
completed_payload job outcome =
    Fields.field (codes "invitation_id") (Payload.Value.text (uuid_text job.scope.invitation_id)) (
      Fields.field (codes "submission_id") (Payload.Value.text (uuid_text job.submission_id)) (
        Fields.field (codes "analysis_id") (Payload.Value.text (optional_uuid outcome.analysis_id))
          (Fields.field (codes "status") (Payload.Value.text (status_text outcome.status))
            (Fields.field (codes "impact_code") (optional_value outcome.impact_code) Fields.end))))

unfoldable pub completed_event : TenantContext → AnalysisJob → Draws → AnalysisOutcome → OutboxEvent
completed_event context job draws outcome = record {
  event_id = draws.event_id;
  company_id = job.company_id;
  event_type = codes "submission.analysis_completed";
  event_version = 1;
  aggregate = record {
    aggregate_type = codes "submission";
    aggregate_id = job.submission_id;
    version = job.analysis_version;
  };
  idempotency_key = job.idempotency_key;
  occurred_at = draws.now;
  trace_id = context.trace_id;
  correlation_id = context.request_id;
  causation_id = none;
  payload = completed_payload job outcome;
  status = OutboxStatus.pending;
  attempt_count = 0;
  last_failure_code = none;
  published_at = none;
}

-- `prefix` and the code of an error that is not tried again
abbrev pub failure : Bool → ErrorCode → AnalysisOutcome
failure retryable code = record {
  status = OutcomeStatus.failed;
  impact_code = some ((if retryable then codes "DLQ_" else []) ++ codes (code_name code));
  analysis_id = none;
}

-- `existing_digest is not None and existing_digest != digest`
abbrev pub is_other : Option Text → Text → Bool
is_other none d = false
is_other (some existing) d = not (eq existing d)

-- `AnalysisJobHandler._digest`
abbrev pub job_digest : (digest : OpaqueId → ℕ → Text → Text) → AnalysisJob → Text
job_digest digest job = digest job.submission_id job.analysis_version job.source_type
