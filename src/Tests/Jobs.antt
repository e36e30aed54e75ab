-- ===== src/Tests/Jobs.antt =====
-- A handler that gives a job two attempts.
use gbsa_aws_project.Base.{
  ℕ, ◌<◌, ◌≡◌, refl, true, false, Bool, some, none, List, [], ◌∷◌, ◌==◌, arith,
}
use gbsa_aws_project.Base.Equality.{nat_eq, list_eq, pair_eq}
use gbsa_aws_project.Base.Dict.{lookup}
use gbsa_aws_project.Base.Exec.{ok, err}
use gbsa_aws_project.Shared.Errors.{Error, ErrorCode, Outcome, safe}
use gbsa_aws_project.Shared.Ids.{OpaqueId}
use gbsa_aws_project.Interview.Text.{Text, codes, uuid_text}
use gbsa_aws_project.Messaging.Outbox.{OutboxEvent, InMemoryOutbox}
use gbsa_aws_project.Analysis.Job.{
  AnalysisJob, OutcomeStatus, AnalysisOutcome, job_key, AnalysisJobHandler, new_handler,
  attempts_for, Draws, with_analysis_id, failure, job_digest,
}
use gbsa_aws_project.Analysis.Jobs.{handle}
use gbsa_aws_project.Analysis.Jobs.Settled.{IsSettled}
use gbsa_aws_project.Analysis.Jobs.Replay.{Later, Later-new, handle_replay}
use gbsa_aws_project.Analysis.Jobs.Recorded.{AreOf, Handled, Later-AreRecorded}
use gbsa_aws_project.Analysis.Jobs.Exhausted.{Ends, handle_all, handle_all-Ends}
use gbsa_aws_project.Analysis.Jobs.Lost.{handle_lost}
use gbsa_aws_project.Tests.Samples.{
  scope, applicant, reviewer, applicant-MayAct, reviewer-MayAct, key,
}

abbrev fold : Text → Text
fold t = t

abbrev same : OutboxEvent → OutboxEvent → Bool
same e f = e.event_id == f.event_id

abbrev digest : OpaqueId → ℕ → Text → Text
digest submission version source_type = submission ∷ version ∷ source_type

abbrev outbox : InMemoryOutbox
outbox = record { by_event = []; by_idempotency = [] }

abbrev handler : AnalysisJobHandler
handler = record {
  max_attempts = 2;
  attempts = [];
  digests = [];
  results = [];
  dlq = [];
  outbox = outbox;
}

made : new_handler 2 outbox ≡ ok handler
unfolding new_handler
made = refl

abbrev job : AnalysisJob
job = record {
  company_id = 1;
  scope = scope;
  submission_id = 40;
  analysis_version = 1;
  source_type = codes "resume";
  idempotency_key = key;
}

abbrev draws : Draws
draws = record { analysis_id = 60; event_id = 70; now = 900 }

abbrev timeout : Outcome AnalysisOutcome
timeout = err (safe ErrorCode.dependency_timeout)

abbrev ready : AnalysisOutcome
ready = record { status = OutcomeStatus.ready; impact_code = none; analysis_id = none }

abbrev once : AnalysisJobHandler
once = (handle same fold digest applicant job draws timeout handler).1

abbrev twice : AnalysisJobHandler
twice = (handle same fold digest applicant job draws timeout once).1

first_attempt : (handle same fold digest applicant job draws timeout handler).0 ≡ timeout
unfolding handle gbsa_aws_project.Shared.Tenant.ensure_applicant_scope lookup
    gbsa_aws_project.Base.Dict.insert
first_attempt = refl

attempt_counted : attempts_for job once ≡ 1
unfolding attempts_for handle lookup gbsa_aws_project.Shared.Tenant.ensure_applicant_scope
    gbsa_aws_project.Base.Dict.insert
attempt_counted = refl

last_attempt :
    handle same fold digest applicant job draws timeout once
    ≡ (ok (with_analysis_id 60 (failure true ErrorCode.dependency_timeout)), twice)
unfolding handle gbsa_aws_project.Shared.Tenant.ensure_applicant_scope lookup
    gbsa_aws_project.Base.Dict.insert gbsa_aws_project.Messaging.Outbox.aggregate_post_init
    gbsa_aws_project.Messaging.Shapes.safe_code gbsa_aws_project.Messaging.Outbox.event_post_init
    gbsa_aws_project.Messaging.Outbox.is_event_type
    gbsa_aws_project.Messaging.Payload.freeze_operational_payload
    gbsa_aws_project.Messaging.Shapes.is_safe_key gbsa_aws_project.Messaging.Shapes.is_prohibited
    uuid_text gbsa_aws_project.Messaging.Shapes.has_scheme
    gbsa_aws_project.Messaging.Shapes.is_token_shaped gbsa_aws_project.Messaging.Outbox.add
last_attempt = refl

buried_key : twice.dlq ≡ (job_key job ∷ [])
unfolding handle gbsa_aws_project.Shared.Tenant.ensure_applicant_scope lookup
    gbsa_aws_project.Base.Dict.insert gbsa_aws_project.Messaging.Outbox.aggregate_post_init
    gbsa_aws_project.Messaging.Shapes.safe_code gbsa_aws_project.Messaging.Outbox.event_post_init
    gbsa_aws_project.Messaging.Outbox.is_event_type
    gbsa_aws_project.Messaging.Payload.freeze_operational_payload
    gbsa_aws_project.Messaging.Shapes.is_safe_key gbsa_aws_project.Messaging.Shapes.is_prohibited
    uuid_text gbsa_aws_project.Messaging.Shapes.has_scheme
    gbsa_aws_project.Messaging.Shapes.is_token_shaped gbsa_aws_project.Analysis.Job.add_to_dlq
buried_key = refl

handler-IsSettled : IsSettled handler
handler-IsSettled = Later-new same fold digest 2 outbox handler handler made Later.here

twice_Later : Later same fold digest handler twice
twice_Later =
    Later.handles applicant job draws timeout (Later.handles applicant job draws timeout Later.here)

Later-AreRecorded_example :
    IsSettled twice × AreOf digest (Handled same fold digest twice_Later) twice
Later-AreRecorded_example =
    Later-AreRecorded same fold digest 2 outbox handler twice made twice_Later

once-IsSettled : IsSettled once
once-IsSettled =
    Later-new same fold digest 2 outbox handler once made
      (Later.handles applicant job draws timeout Later.here)

handle_replay_example :
    handle same fold digest reviewer job draws (ok ready) twice
    ≡ (ok (with_analysis_id 60 (failure true ErrorCode.dependency_timeout)), twice)
handle_replay_example =
    handle_replay same fold digest applicant reviewer job job draws draws timeout (ok ready) once
      twice once-IsSettled last_attempt Later.here reviewer-MayAct refl refl

handle_all-Ends_example :
    Ends same fold digest applicant job
      (handle_all same fold digest applicant job ((draws, timeout) ∷ (draws, timeout) ∷ []) handler)
handle_all-Ends_example =
    handle_all-Ends same fold digest applicant job (draws, timeout) ((draws, timeout) ∷ []) handler
      (tt, (tt, tt)) applicant-MayAct (unfold lookup in refl) handler-IsSettled
      (unfold lookup in omega arith)

abbrev short_job : AnalysisJob
short_job = record job { idempotency_key = codes "key-1" }

handle_lost_example :
    (x : Error) × (h' : AnalysisJobHandler) × (handle same fold digest applicant short_job draws
        (ok ready)
        handler
      ≡ (err x, h'))
    × (h'.outbox ≡ outbox)
    × (handle same fold digest reviewer short_job draws timeout h'
        ≡ (ok (with_analysis_id 60 ready), h'))
handle_lost_example =
    handle_lost same fold digest applicant reviewer short_job draws draws ready timeout handler
      applicant-MayAct reviewer-MayAct
      (record { unsettled = unfold lookup in refl; own = unfold lookup in refl }) (omega arith)
