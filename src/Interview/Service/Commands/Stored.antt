-- ===== src/Interview/Service/Commands/Stored.antt =====
-- The session on record, and what a command stores of a later one.
use gbsa_aws_project.Base.{◌<◌, ◌≡◌, ◌⊎◌, refl, ap, some, List, arith, inl, inr, Option-cases}
use gbsa_aws_project.Base.Equality.{nat_eq, list_eq, pair_eq}
use gbsa_aws_project.Base.Dict.{lookup, insert}
use gbsa_aws_project.Base.Exec.{ok, err, Result-cases}
use gbsa_aws_project.Shared.Errors.{Error, lookup_error}
use gbsa_aws_project.Shared.Ids.{OpaqueId, Instant}
use gbsa_aws_project.Shared.Tenant.{
  TenantContext, ApplicantScope, session_key, ensure_applicant_scope,
}
use gbsa_aws_project.Shared.Tenant.Isolation.{MayAct, passed-MayAct, ensure_applicant_scope_iff}
use gbsa_aws_project.Interview.Session.{InterviewSession}
use gbsa_aws_project.Interview.Turn.{Turn}
use gbsa_aws_project.Interview.Checkpoints.{
  CheckpointRequest, checkpoint_of, record_of, record_checkpoint,
}
use gbsa_aws_project.Interview.Checkpoints.Progress.{record_checkpoint_later}
use gbsa_aws_project.Interview.Service.{InterviewService, with_turns, with_session, get_session}
use gbsa_aws_project.Interview.Service.Invariant.{IsFiled, IsConsistent, after}
use gbsa_aws_project.Interview.Service.Commands.{checkpointed}

pub own_id :
    (scope : ApplicantScope) (session_id : OpaqueId) (s : InterviewSession)
    → IsFiled (session_key scope session_id) s
    → s.interview_session_id ≡ session_id
own_id scope session_id s f = ap (λ k. k.1.1.1) f.own_key

-- The session on record is what an actor of the scope gets.
pub get_session_found :
    (context : TenantContext) (scope : ApplicantScope) (session_id : OpaqueId)
    (service : InterviewService) (s : InterviewSession)
    → MayAct context scope
    → lookup (session_key scope session_id) service.sessions ≡ some s
    → get_session context scope session_id service ≡ ok s
unfolding get_session
get_session_found context scope session_id service s may at =
    rw ((ensure_applicant_scope_iff context scope).1 may) (rw at refl)

-- What `get_session` gives is the session on record, to an actor of the scope.
pub get_session_cases :
    (context : TenantContext) (scope : ApplicantScope) (session_id : OpaqueId)
    (service : InterviewService)
    → ((e : Error) × (get_session context scope session_id service ≡ err e))
      ⊎ (MayAct context scope
          × ((s : InterviewSession) × (lookup (session_key scope session_id) service.sessions
                ≡ some s)
              × (get_session context scope session_id service ≡ ok s)))
unfolding get_session
get_session_cases context scope session_id service =
    elim (Result-cases (ensure_applicant_scope (some context) scope)) [
      | inr (e, denied) ↦ inl (e, rw denied refl)
      | inl (c, passed) ↦
          elim (Option-cases (lookup (session_key scope session_id) service.sessions)) [
            | inl missing ↦
                inl (lookup_error "interview session was not found", rw passed (rw missing refl))
            | inr (s, at) ↦
                inr (passed-MayAct context scope passed, (s, at, rw passed (rw at refl)))
          ]
    ]

-- A checkpoint of a later sequence than the session's is recorded.
pub later_recorded :
    (context : TenantContext) (scope : ApplicantScope) (session_id checkpoint_id : OpaqueId)
    (now : Instant) (s : InterviewSession) (r : CheckpointRequest) (service : InterviewService)
    → IsConsistent service
    → MayAct context scope
    → lookup (session_key scope session_id) service.sessions ≡ some s
    → s.session_sequence < r.session_sequence
    → let key = session_key scope session_id in
      let made = checkpoint_of scope session_id checkpoint_id now r in
      record_checkpoint context scope session_id checkpoint_id now r service.checkpoints
      ≡ (ok made, insert key (record_of made r) service.checkpoints)
later_recorded context scope session_id checkpoint_id now s r service h may at lt =
    record_checkpoint_later context scope session_id checkpoint_id now r service.checkpoints may
      (λ c found.
        let (t, t_at, le) = h.behind (session_key scope session_id) c found in
        let p : s ≡ t = ground arith in
        let q : s.session_sequence ≡ t.session_sequence = ap (λ u. u.session_sequence) p in
        omega arith)

-- A command that stores a later session and turns has its checkpoint recorded.
pub checkpointed_later :
    {A : Type 0} (result : A) (context : TenantContext) (scope : ApplicantScope)
    (session_id checkpoint_id : OpaqueId) (now : Instant) (s s' : InterviewSession) (ts : List Turn)
    (r : CheckpointRequest) (service : InterviewService)
    → IsConsistent service
    → MayAct context scope
    → lookup (session_key scope session_id) service.sessions ≡ some s
    → s.session_sequence < r.session_sequence
    → s'.interview_session_id ≡ session_id
    → let key = session_key scope session_id in
      checkpointed result
        (with_turns key ts (with_session scope s' service))
        (record_checkpoint context scope session_id checkpoint_id now r service.checkpoints)
      ≡ (
        ok result,
        after key s' ts (record_of (checkpoint_of scope session_id checkpoint_id now r) r) service,
      )
unfolding checkpointed
checkpointed_later result context scope session_id checkpoint_id now s s' ts r service h may at lt
      own =
    rw (later_recorded context scope session_id checkpoint_id now s r service h may at lt, own) refl

pub same_key :
    (s s' : InterviewSession)
    → s'.scope ≡ s.scope
    → s'.interview_session_id ≡ s.interview_session_id
    → session_key s'.scope s'.interview_session_id ≡ session_key s.scope s.interview_session_id
same_key s s' p q = rw (p, q) refl
