-- ===== src/Tests/Service.antt =====
-- An interview of one answer.
use gbsa_aws_project.Base.{
  ap, arith, Bool, ℕ, ◌+◌, ◌*◌, ◌^◌, ◌≡◌, ◌≢◌, ◌⊎◌, refl, true, false, Option, some, none, List, [],
  ◌∷◌, length, map,
}
use gbsa_aws_project.Base.Equality.{nat_eq, list_eq, pair_eq}
use gbsa_aws_project.Base.Dict.{lookup}
use gbsa_aws_project.Base.Exec.{Result, ok, err}
use gbsa_aws_project.Shared.Errors.{Error, Outcome, value_error}
use gbsa_aws_project.Shared.Ids.{OpaqueId}
use gbsa_aws_project.Shared.Tenant.{session_key}
use gbsa_aws_project.Interview.Text.{Text, codes}
use gbsa_aws_project.Interview.Session.{SessionState, InterviewSession, allowed}
use gbsa_aws_project.Interview.Context.{Criterion}
use gbsa_aws_project.Interview.Dialogue.{Double}
use gbsa_aws_project.Interview.Service.{
  InterviewService, Settings, Answer, NextQuestionResult, turn_list,
}
use gbsa_aws_project.Interview.Service.Invariant.{IsConsistent, stored, after}
use gbsa_aws_project.Interview.Service.Commands.{
  Completion, create, start, complete, last_final_turn_id,
}
use gbsa_aws_project.Interview.Service.Commands.LastFinal.{IsLastFinal}
use gbsa_aws_project.Interview.Service.Finalize.{finalize}
use gbsa_aws_project.Interview.Service.Commands.Started.{start_record, start_cases}
use gbsa_aws_project.Interview.Service.Finalize.Presenting.{IsAwaiting}
use gbsa_aws_project.Interview.Service.Finalize.Outcomes.{Ends}
use gbsa_aws_project.Interview.Service.Finalize.Answered.{finalize_cases}
use gbsa_aws_project.Interview.Service.Commands.Finished.{
  IsOpen, IsCompletionOf, completion_record, complete_cases,
}
use gbsa_aws_project.Interview.Service.History.{
  Reached, begins, creates, starts, answers, fresh_service, Reached-IsConsistent,
}
use gbsa_aws_project.Interview.Service.Api.{
  Payload, Reply, Commands, finalize_answer, finalize_answer_retry,
}
use gbsa_aws_project.Tests.Samples.{scope, applicant, applicant-MayAct, key, session}

abbrev criterion_id : ℕ
criterion_id = 7 * 2 ^ 76 + 2 * 2 ^ 62

abbrev uuid : Text → Outcome ℕ
uuid t = ok criterion_id

abbrev same_text : Text → Text
same_text t = t

abbrev settings : Settings
settings = record {
  max_tokens = 1800;
  review_threshold = 1;
  prohibited_topics = [];
  model_config_version = codes "question-v1";
  speech_fails = false;
  url_ttl = 300000;
}

abbrev created : InterviewService
created = (create scope 7 5 6 100 fresh_service).1

abbrev started : InterviewService
started = (start applicant scope 7 0 110 111 20 112 created).1

abbrev awaiting : InterviewSession
awaiting = record session {
  state = SessionState.awaiting_answer;
  session_sequence = 2;
  row_version = 3;
  started_at = some 110;
}

created_session : lookup (session_key scope 7) created.sessions ≡ some session
unfolding create lookup gbsa_aws_project.Base.Dict.insert
created_session = refl

started_session : lookup (session_key scope 7) started.sessions ≡ some awaiting
unfolding create start lookup gbsa_aws_project.Shared.Tenant.ensure_applicant_scope
    gbsa_aws_project.Base.Dict.insert gbsa_aws_project.Interview.Session.transition
    gbsa_aws_project.Interview.Checkpoints.record_checkpoint
started_session = refl

no_checkpoint : lookup (session_key scope 7) fresh_service.checkpoints ≡ none
unfolding lookup
no_checkpoint = refl

created-Reached : Reached same_text uuid settings created
created-Reached = creates scope 7 5 6 100 no_checkpoint begins

started-Reached : Reached same_text uuid settings started
started-Reached = starts applicant scope 7 0 110 111 20 112 created-Reached

Reached-IsConsistent_example : IsConsistent started
Reached-IsConsistent_example = Reached-IsConsistent same_text uuid settings started started-Reached

start_cases_example :
    let outcome = start applicant scope 7 0 110 111 20 112 created in
    ((session.session_sequence ≢ 0)
      × (outcome ≡ (err (value_error "stale session sequence"), created)))
    ⊎ ((session.session_sequence ≡ 0)
        × (allowed SessionState.preparing SessionState.in_progress ≡ false)
        × (outcome ≡ (err (value_error "session transition is not allowed"), created)))
    ⊎ ((session.session_sequence ≡ 0)
        × (allowed SessionState.preparing SessionState.in_progress ≡ true)
        × ((s' : InterviewSession) × IsAwaiting 2 session s'
            × (outcome ≡ (
              ok s',
              stored (session_key scope 7) s' (start_record scope 7 20 112 s') created,
            ))))
start_cases_example =
    start_cases applicant scope 7 0 110 111 20 112 created session
      (Reached-IsConsistent same_text uuid settings created created-Reached) applicant-MayAct
      created_session

abbrev answer : Answer
answer = record {
  expected_sequence = 2;
  answer_turn_id = 30;
  transcript_text = codes "우리는 매일 회의를 했습니다.";
  transcript_confidence = Double.units 1;
  criterion_id = criterion_id;
  criterion_name = codes "협업";
  remaining_criteria = record { criterion_id = some (codes "c1"); name = some (codes "협업") } ∷ [];
  idempotency_key = key;
  last_recording_chunk_sequence = 0;
  summary = none;
  finalized_at = 120;
  answer_created_at = 120;
  preparing_at = 121;
  question_turn_id = 31;
  question_key_id = 32;
  question_created_at = 122;
  audio_id = 33;
  marks_id = 34;
  synthesized_at = 123;
  awaiting_at = 124;
  checkpoint_id = 35;
  checkpoint_at = 125;
  retrieved = err Error.timeout_error;
  model_answer = none;
}

abbrev outcome : Result Error NextQuestionResult × InterviewService
outcome = finalize same_text uuid settings applicant scope 7 answer started

two_turns : map (λ t. t.sequence) (turn_list (session_key scope 7) outcome.1) ≡ 1 ∷ 2 ∷ []
unfolding create start finalize lookup gbsa_aws_project.Shared.Tenant.ensure_applicant_scope
    gbsa_aws_project.Base.Dict.insert gbsa_aws_project.Interview.Session.transition
    gbsa_aws_project.Interview.Checkpoints.record_checkpoint
    gbsa_aws_project.Interview.Dialogue.transcribe gbsa_aws_project.Interview.Text.strip
    gbsa_aws_project.Interview.Turn.turn_post_init gbsa_aws_project.Interview.Context.build
    gbsa_aws_project.Interview.Dialogue.retrieve gbsa_aws_project.Interview.Generator.generate
    gbsa_aws_project.Shared.Ids.opaque_id gbsa_aws_project.Interview.Questions.validate
    gbsa_aws_project.Interview.Questions.normalize gbsa_aws_project.Interview.Text.uuid_text
    gbsa_aws_project.Interview.Generator.synthesize
    gbsa_aws_project.Interview.Session.with_degraded_mode
two_turns = refl

finalize_cases_example : Ends same_text uuid settings scope 7 answer awaiting started outcome
finalize_cases_example =
    finalize_cases same_text uuid settings applicant scope 7 answer started awaiting
      (Reached-IsConsistent same_text uuid settings started started-Reached) applicant-MayAct
      started_session

abbrev completion : Completion
completion = record {
  expected_sequence = 4;
  last_recording_chunk_sequence = 4;
  paused_at = 130;
  completed_at = 131;
  checkpoint_id = 36;
  checkpoint_at = 132;
}

abbrev or_session : Option InterviewSession → InterviewSession
or_session none = session
or_session (some s) = s

-- The session after the answer: the last of its turns is the next question.
abbrev asked_on : InterviewSession
asked_on = or_session (lookup (session_key scope 7) outcome.1.sessions)

asked_session : lookup (session_key scope 7) outcome.1.sessions ≡ some asked_on
unfolding create start finalize lookup gbsa_aws_project.Shared.Tenant.ensure_applicant_scope
    gbsa_aws_project.Base.Dict.insert gbsa_aws_project.Interview.Session.transition
    gbsa_aws_project.Interview.Checkpoints.record_checkpoint
    gbsa_aws_project.Interview.Dialogue.transcribe gbsa_aws_project.Interview.Text.strip
    gbsa_aws_project.Interview.Turn.turn_post_init gbsa_aws_project.Interview.Context.build
    gbsa_aws_project.Interview.Dialogue.retrieve gbsa_aws_project.Interview.Generator.generate
    gbsa_aws_project.Shared.Ids.opaque_id gbsa_aws_project.Interview.Questions.validate
    gbsa_aws_project.Interview.Questions.normalize gbsa_aws_project.Interview.Text.uuid_text
    gbsa_aws_project.Interview.Generator.synthesize
    gbsa_aws_project.Interview.Session.with_degraded_mode
asked_session = refl

asked_sequence : asked_on.session_sequence ≡ 4
unfolding create start finalize lookup gbsa_aws_project.Shared.Tenant.ensure_applicant_scope
    gbsa_aws_project.Base.Dict.insert gbsa_aws_project.Interview.Session.transition
    gbsa_aws_project.Interview.Checkpoints.record_checkpoint
    gbsa_aws_project.Interview.Dialogue.transcribe gbsa_aws_project.Interview.Text.strip
    gbsa_aws_project.Interview.Turn.turn_post_init gbsa_aws_project.Interview.Context.build
    gbsa_aws_project.Interview.Dialogue.retrieve gbsa_aws_project.Interview.Generator.generate
    gbsa_aws_project.Shared.Ids.opaque_id gbsa_aws_project.Interview.Questions.validate
    gbsa_aws_project.Interview.Questions.normalize gbsa_aws_project.Interview.Text.uuid_text
    gbsa_aws_project.Interview.Generator.synthesize
    gbsa_aws_project.Interview.Session.with_degraded_mode
asked_sequence = refl

asked_answer : last_final_turn_id (turn_list (session_key scope 7) outcome.1) ≡ some 30
unfolding last_final_turn_id create start finalize lookup
    gbsa_aws_project.Shared.Tenant.ensure_applicant_scope gbsa_aws_project.Base.Dict.insert
    gbsa_aws_project.Interview.Session.transition
    gbsa_aws_project.Interview.Checkpoints.record_checkpoint
    gbsa_aws_project.Interview.Dialogue.transcribe gbsa_aws_project.Interview.Text.strip
    gbsa_aws_project.Interview.Turn.turn_post_init gbsa_aws_project.Interview.Context.build
    gbsa_aws_project.Interview.Dialogue.retrieve gbsa_aws_project.Interview.Generator.generate
    gbsa_aws_project.Shared.Ids.opaque_id gbsa_aws_project.Interview.Questions.validate
    gbsa_aws_project.Interview.Questions.normalize gbsa_aws_project.Interview.Text.uuid_text
    gbsa_aws_project.Interview.Generator.synthesize
    gbsa_aws_project.Interview.Session.with_degraded_mode
asked_answer = refl

complete_cases_example :
    let ends = complete applicant scope 7 completion outcome.1 in
    let ts = turn_list (session_key scope 7) outcome.1 in
    ((asked_on.session_sequence ≢ 4)
      × (ends ≡ (err (value_error "stale session sequence"), outcome.1)))
    ⊎ ((asked_on.session_sequence ≡ 4)
        × (allowed asked_on.state SessionState.paused ≡ false)
        × (¬ IsOpen asked_on.state)
        × (ends ≡ (err (value_error "session transition is not allowed"), outcome.1)))
    ⊎ ((asked_on.session_sequence ≡ 4)
        × (allowed asked_on.state SessionState.paused ≡ true)
        × IsOpen asked_on.state
        × ((s' : InterviewSession) × (final : Option OpaqueId) × IsCompletionOf completion asked_on
              s'
            × IsLastFinal ts final
            × (ends ≡ (
              ok s',
              after
                  (session_key scope 7)
                  s'
                  ts
                  (completion_record scope 7 completion s' final)
                  outcome.1,
            ))))
complete_cases_example =
    complete_cases applicant scope 7 completion outcome.1 asked_on
      (Reached-IsConsistent same_text uuid settings outcome.1
        (answers applicant scope 7 answer started-Reached))
      applicant-MayAct asked_session

abbrev digest : Payload → Text
digest (Payload.create_payload a b) = a ∷ b ∷ []
digest (Payload.answer_payload a b c d e f) = a ∷ b ∷ c ∷ e ∷ f ∷ d
digest (Payload.complete_payload a b c) = a ∷ b ∷ c ∷ []

abbrev again : Answer
again = record answer {
  question_turn_id = 41;
  finalized_at = 200;
  model_answer = some (err Error.timeout_error);
}

abbrev call : Answer → Commands → Result Error Reply × Commands
call a state = finalize_answer same_text uuid digest same_text settings applicant scope 7 a state

abbrev reply_of : Result Error Reply → Reply
reply_of (ok reply) = reply
reply_of (err e) = Reply.session_created session

abbrev answered : Result Error Reply × Commands
answered = call answer ([], started)

abbrev is_reply : Result Error Reply → Bool
is_reply (ok reply) = true
is_reply (err e) = false

is_answered : is_reply answered.0 ≡ true
unfolding finalize_answer gbsa_aws_project.Interview.Idempotency.execute
    gbsa_aws_project.Interview.Idempotency.is_namespace create start finalize lookup
    gbsa_aws_project.Shared.Tenant.ensure_applicant_scope gbsa_aws_project.Base.Dict.insert
    gbsa_aws_project.Interview.Session.transition
    gbsa_aws_project.Interview.Checkpoints.record_checkpoint
    gbsa_aws_project.Interview.Dialogue.transcribe gbsa_aws_project.Interview.Text.strip
    gbsa_aws_project.Interview.Turn.turn_post_init gbsa_aws_project.Interview.Context.build
    gbsa_aws_project.Interview.Dialogue.retrieve gbsa_aws_project.Interview.Generator.generate
    gbsa_aws_project.Shared.Ids.opaque_id gbsa_aws_project.Interview.Questions.validate
    gbsa_aws_project.Interview.Questions.normalize gbsa_aws_project.Interview.Text.uuid_text
    gbsa_aws_project.Interview.Generator.synthesize
    gbsa_aws_project.Interview.Session.with_degraded_mode
is_answered = refl

replied : (r : Result Error Reply) → is_reply r ≡ true → r ≡ ok (reply_of r)
replied (ok reply) e = refl
replied (err x) e = absurd (ground arith)

first_answer : answered ≡ (ok (reply_of answered.0), (answered.1.0, answered.1.1))
first_answer = ap (λ r. (r, answered.1)) (replied answered.0 is_answered)

finalize_answer_retry_example :
    call again (answered.1.0, started) ≡ (ok (reply_of answered.0), (answered.1.0, started))
finalize_answer_retry_example =
    finalize_answer_retry same_text uuid digest same_text settings applicant applicant scope 7
      answer again ([], started) started first_answer applicant-MayAct refl refl
