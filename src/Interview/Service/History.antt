-- ===== src/Interview/Service/History.antt =====
-- The service over any number of commands, in any order.
use gbsa_aws_project.Base.{ℕ, ◌≡◌, none, [], arith}
use gbsa_aws_project.Base.Equality.{nat_eq, list_eq, pair_eq}
use gbsa_aws_project.Base.Dict.{lookup}
use gbsa_aws_project.Shared.Errors.{Outcome}
use gbsa_aws_project.Shared.Ids.{OpaqueId, Instant}
use gbsa_aws_project.Shared.Tenant.{TenantContext, ApplicantScope, session_key}
use gbsa_aws_project.Interview.Text.{Text}
use gbsa_aws_project.Interview.Service.{InterviewService, Settings, Answer}
use gbsa_aws_project.Interview.Service.Invariant.{IsConsistent}
use gbsa_aws_project.Interview.Service.Commands.{Completion, create, start, complete}
use gbsa_aws_project.Interview.Service.Finalize.{finalize}
use gbsa_aws_project.Interview.Service.Commands.Started.{create-IsConsistent, start-IsConsistent}
use gbsa_aws_project.Interview.Service.Finalize.Answered.{finalize-IsConsistent}
use gbsa_aws_project.Interview.Service.Commands.Finished.{complete-IsConsistent}

-- The service of a new process.
abbrev pub fresh_service : InterviewService
fresh_service = record { sessions = []; turns = []; checkpoints = [] }

module _ (casefold : Text → Text) (uuid : Text → Outcome ℕ) (settings : Settings) where
  -- What commands leave, be it after they raised. A new session has an identifier that no
  -- checkpoint names.
  pub data Reached : InterviewService → Type 0 where
    begins : Reached fresh_service
    creates :
        {service : InterviewService} (scope : ApplicantScope)
        (session_id strategy_id version_id : OpaqueId) (now : Instant)
        → lookup (session_key scope session_id) service.checkpoints ≡ none
        → Reached service
        → Reached (create scope session_id strategy_id version_id now service).1
    starts :
        {service : InterviewService} (context : TenantContext) (scope : ApplicantScope)
        (session_id : OpaqueId) (expected : ℕ) (started_at awaiting_at : Instant)
        (checkpoint_id : OpaqueId) (now : Instant)
        → Reached service
        → Reached
            (start context scope session_id expected started_at awaiting_at checkpoint_id now
              service).1
    answers :
        {service : InterviewService} (context : TenantContext) (scope : ApplicantScope)
        (session_id : OpaqueId) (a : Answer)
        → Reached service
        → Reached (finalize casefold uuid settings context scope session_id a service).1
    completes :
        {service : InterviewService} (context : TenantContext) (scope : ApplicantScope)
        (session_id : OpaqueId) (c : Completion)
        → Reached service
        → Reached (complete context scope session_id c service).1

  fresh_IsConsistent : IsConsistent fresh_service
  unfolding lookup
  fresh_IsConsistent = record {
    filed = λ k v e. absurd (ground arith);
    numbered = λ k v e. absurd (ground arith);
    behind = λ k v e. absurd (ground arith);
  }

  -- Whatever commands were called, by whomever and however they ended: each session is well formed
  -- and stands under its own key, the turns of each session are numbered 1, 2, 3 and so on, and each
  -- checkpoint is of a session on record and not ahead of it.
  pub Reached-IsConsistent : (service : InterviewService) → Reached service → IsConsistent service
  Reached-IsConsistent _ begins = fresh_IsConsistent
  Reached-IsConsistent _ (creates {service} scope session_id strategy_id version_id now new r) =
      create-IsConsistent scope session_id strategy_id version_id now service
        (Reached-IsConsistent service r) new
  Reached-IsConsistent _
        (starts {service} context scope session_id expected started_at awaiting_at checkpoint_id now
          r) =
      start-IsConsistent context scope session_id expected started_at awaiting_at checkpoint_id now
        service (Reached-IsConsistent service r)
  Reached-IsConsistent _ (answers {service} context scope session_id a r) =
      finalize-IsConsistent casefold uuid settings context scope session_id a service
        (Reached-IsConsistent service r)
  Reached-IsConsistent _ (completes {service} context scope session_id c r) =
      complete-IsConsistent context scope session_id c service (Reached-IsConsistent service r)
