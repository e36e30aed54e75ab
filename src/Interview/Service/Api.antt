-- ===== src/Interview/Service/Api.antt =====
-- interview_engine/application/interview_service.py: the commands as a client calls them, each run
-- once per idempotency key.
use gbsa_aws_project.Base.{inl, inr, ℕ, ◌≡◌, ap, subst, some, arith}
use gbsa_aws_project.Base.Equality.{nat_eq, list_eq, pair_eq}
use gbsa_aws_project.Base.Exec.{Result, ok, err, Result-cases}
use gbsa_aws_project.Shared.Errors.{Error, Outcome, Method}
use gbsa_aws_project.Shared.Ids.{OpaqueId, Instant}
use gbsa_aws_project.Shared.Tenant.{TenantContext, ApplicantScope, ensure_applicant_scope}
use gbsa_aws_project.Shared.Tenant.Isolation.{MayAct, ensure_applicant_scope_iff}
use gbsa_aws_project.Interview.Text.{Text, codes}
use gbsa_aws_project.Interview.Session.{InterviewSession}
use gbsa_aws_project.Interview.Idempotency.{ScopedIdempotencyStore, execute}
use gbsa_aws_project.Interview.Idempotency.Replay.{Later, execute_replay}
use gbsa_aws_project.Interview.Service.{InterviewService, Settings, Answer, NextQuestionResult}
use gbsa_aws_project.Interview.Service.Commands.{Completion, create, complete}
use gbsa_aws_project.Interview.Service.Finalize.{finalize}

-- The payloads of the commands, of which the store keeps a digest.
pub data Payload : Type 0 where
  create_payload : (strategy_id competency_model_version_id : OpaqueId) → Payload
  answer_payload :
      (session_id : OpaqueId) (expected_sequence : ℕ) (answer_turn_id : OpaqueId)
      (transcript_digest : Text) (criterion_id : OpaqueId) (last_recording_chunk_sequence : ℕ)
      → Payload
  complete_payload :
      (session_id : OpaqueId) (expected_sequence last_recording_chunk_sequence : ℕ) → Payload

-- What the commands give.
pub data Reply : Type 0 where
  session_created session_completed : InterviewSession → Reply
  question_asked : NextQuestionResult → Reply

abbrev pub Commands : Type 0
Commands = ScopedIdempotencyStore Reply × InterviewService

pub reply_as :
    {A : Type 0}
    → (A → Reply)
    → Result Error A × InterviewService
    → Result Error Reply × InterviewService
reply_as f (ok a, service) = (ok (f a), service)
reply_as f (err e, service) = (err e, service)

-- The scope check that comes before a command.
pub checked_first : Outcome ApplicantScope → Method Commands Reply → Method Commands Reply
checked_first (err e) command state = (err e, state)
checked_first (ok _) command state = command state

module _ (casefold : Text → Text) (uuid : Text → Outcome ℕ) (fingerprint : Payload → Text)
    (text_digest : Text → Text) (settings : Settings) where
  unfoldable pub create_session :
      TenantContext
      → ApplicantScope
      → (session_id strategy_id competency_model_version_id : OpaqueId) → Instant
      → (idempotency_key : Text) → Method Commands Reply
  unfolding checked_first reply_as
  create_session context scope session_id strategy_id competency_model_version_id now key =
      checked_first (ensure_applicant_scope (some context) scope) (
        execute fingerprint context scope key
          (create_payload strategy_id competency_model_version_id)
          (λ service.
            reply_as session_created
              (create scope session_id strategy_id competency_model_version_id now service))
          (codes "session-create"))

  abbrev pub payload_of : OpaqueId → Answer → Payload
  payload_of session_id a =
      answer_payload session_id a.expected_sequence a.answer_turn_id (text_digest a.transcript_text)
        a.criterion_id a.last_recording_chunk_sequence

  unfoldable pub finalize_answer :
      TenantContext → ApplicantScope → OpaqueId → Answer → Method Commands Reply
  unfolding checked_first reply_as
  finalize_answer context scope session_id a =
      checked_first (ensure_applicant_scope (some context) scope) (
        execute fingerprint context scope a.idempotency_key (payload_of session_id a)
          (λ service.
            reply_as question_asked
              (finalize casefold uuid settings context scope session_id a service))
          (codes "answer-complete"))

  unfoldable pub complete_session :
      TenantContext
      → ApplicantScope
      → OpaqueId
      → Completion
      → (idempotency_key : Text) → Method Commands Reply
  unfolding checked_first reply_as
  complete_session context scope session_id c key =
      checked_first (ensure_applicant_scope (some context) scope) (
        execute fingerprint context scope key
          (complete_payload session_id c.expected_sequence c.last_recording_chunk_sequence)
          (λ service. reply_as session_completed (complete context scope session_id c service))
          (codes "session-complete"))

  -- Once an answer was taken, the same answer sent again by any actor of the scope, with whatever
  -- identifiers, readings of the clock and answers of other services, gives the same question, and
  -- changes neither sessions nor turns nor checkpoints.
  pub finalize_answer_retry :
      (context context' : TenantContext) (scope : ApplicantScope) (session_id : OpaqueId)
      (a a' : Answer) (state : Commands) (service'' : InterviewService) {reply : Reply}
      {records' : ScopedIdempotencyStore Reply} {service' : InterviewService}
      → finalize_answer context scope session_id a state ≡ (ok reply, (records', service'))
      → MayAct context' scope
      → a.idempotency_key ≡ a'.idempotency_key
      → payload_of session_id a ≡ payload_of session_id a'
      → finalize_answer context' scope session_id a' (records', service'')
        ≡ (ok reply, (records', service''))
  unfolding finalize_answer checked_first
  finalize_answer_retry context context' scope session_id a a' (records, service) service'' {reply}
        {records'} {service'} e may same_key same =
      elim (Result-cases (ensure_applicant_scope (some context) scope)) [
        | inr (x, denied) ↦ absurd (ground arith)
        | inl (c, passed) ↦
            let op = λ (s : InterviewService).
              reply_as question_asked
                (finalize casefold uuid settings context scope session_id a s) in
            let op' = λ (s : InterviewService).
              reply_as question_asked
                (finalize casefold uuid settings context' scope session_id a' s) in
            let p' = payload_of session_id a' in
            rw ((ensure_applicant_scope_iff context' scope).1 may) (
              subst
                (λ k.
                  execute fingerprint context' scope k p' op' (codes "answer-complete")
                    (records', service'')
                  ≡ (ok reply, (records', service'')))
                same_key
                (execute_replay fingerprint context context' scope a.idempotency_key
                  (codes "answer-complete") (payload_of session_id a) p' op op' records service
                  service'' (rw passed at e) Later.here may (ap fingerprint same)))
      ]
