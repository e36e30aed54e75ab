-- ===== src/Interview/Service/Finalize/Asking.antt =====
-- What a question that was made comes with.
use gbsa_aws_project.Base.{
  ℕ, ◌≡◌, sym, subst, Option, none, some, List, arith, inl, inr, Bool-cases,
}
use gbsa_aws_project.Base.Equality.{nat_eq, list_eq, pair_eq}
use gbsa_aws_project.Base.Exec.{ok, err, Result-cases}
use gbsa_aws_project.Shared.Errors.{Error, Outcome}
use gbsa_aws_project.Shared.Ids.{OpaqueId}
use gbsa_aws_project.Shared.Tenant.{TenantContext, ApplicantScope}
use gbsa_aws_project.Interview.Text.{Text, codes, uuid_text}
use gbsa_aws_project.Interview.Session.{SessionState, InterviewSession, transition}
use gbsa_aws_project.Interview.Turn.{Turn, turn_post_init}
use gbsa_aws_project.Interview.Context.{InterviewContext, build}
use gbsa_aws_project.Interview.Questions.{validate}
use gbsa_aws_project.Interview.Questions.Accepted.{IsAskable, validate_iff}
use gbsa_aws_project.Interview.Dialogue.{retrieve, RetrievalResult, is_outage, StreamingTranscript}
use gbsa_aws_project.Interview.Generator.{GeneratedQuestion, ModelPayload, generate, ask_model}
use gbsa_aws_project.Interview.Service.{
  Settings, Answer, Asked, question_turn_of, question_texts, turn_contexts,
}
use gbsa_aws_project.Interview.Service.Finalize.{make_question, ask}

-- A turn that was constructed is the turn that was given.
pub turn_post_init-same : (t : Turn) {u : Turn} → turn_post_init t ≡ ok u → t ≡ u
unfolding turn_post_init
turn_post_init-same t e = ground arith

-- Whatever the model answers, a question that comes of it is on the criterion that was asked for.
ask_model-criterion :
    (criterion_id : OpaqueId) (name version : Text) (retrieval : RetrievalResult)
    (answer : Option (Outcome ModelPayload)) {g : GeneratedQuestion}
    → ask_model criterion_id name version retrieval answer ≡ ok g
    → g.target_criterion_id ≡ criterion_id
unfolding ask_model
ask_model-criterion criterion_id name version retrieval none e = ground arith
ask_model-criterion criterion_id name version retrieval (some (ok payload)) e = ground arith
ask_model-criterion criterion_id name version retrieval (some (err (Error.safe code))) e =
    elim (Bool-cases (is_outage code)) [
      | inl out ↦ ground arith
      | inr other ↦ absurd (ground arith)
    ]
ask_model-criterion criterion_id name version retrieval (some (err _)) e = absurd (ground arith)

module _ (casefold : Text → Text) (uuid : Text → Outcome ℕ) (settings : Settings) where
  -- What a question rests on: the session that was moved, the criterion of the answer, a question
  -- that may be asked after those among the turns, and the turn that follows them.
  pub record IsAsked (scope : ApplicantScope) (session_id : OpaqueId) (a : Answer)
      (s : InterviewSession) (ts : List Turn) (asked : Asked) : Type 0 where
    pub moves :
        transition a.preparing_at s a.expected_sequence SessionState.preparing_question
        ≡ ok asked.preparing
    pub criterion : asked.generated.target_criterion_id ≡ a.criterion_id
    pub askable : IsAskable casefold settings.prohibited_topics (question_texts ts) asked.question
    pub turn :
        asked.question_turn ≡ question_turn_of scope session_id ts asked.question asked.generated a

  generate-criterion :
      (context : TenantContext) (built : InterviewContext) (criterion_id : OpaqueId) (name : Text)
      (retrieval : RetrievalResult) (version : Text) (answer : Option (Outcome ModelPayload))
      {g : GeneratedQuestion}
      → generate uuid context built criterion_id name retrieval version answer ≡ ok g
      → g.target_criterion_id ≡ criterion_id
  unfolding generate
  generate-criterion context built criterion_id name retrieval version answer {g} e =
      ask_model-criterion criterion_id name version retrieval answer {g = g} (ground arith)

  make_question-criterion :
      (context : TenantContext) (scope : ApplicantScope) (session_id : OpaqueId) (a : Answer)
      (transcript : StreamingTranscript) (ts : List Turn) {g : GeneratedQuestion}
      → make_question casefold uuid settings context scope session_id a transcript ts ≡ ok g
      → g.target_criterion_id ≡ a.criterion_id
  unfolding make_question
  make_question-criterion context scope session_id a transcript ts e =
      elim (Result-cases (turn_contexts ts)) [
        | inr (x, f) ↦ absurd (ground arith)
        | inl (recent, e1) ↦
            let built =
              build settings.max_tokens context scope session_id a.summary recent
                a.remaining_criteria in
            elim (Result-cases built) [
              | inr (x, f) ↦ absurd (ground arith)
              | inl (c, e2) ↦
                  elim (Result-cases (
                    retrieve context transcript.text (some scope) (some a.criterion_id)
                      (some session_id) (codes "hybrid-v1") a.retrieved)) [
                        | inr (x, f) ↦ absurd (ground arith)
                        | inl (r, e3) ↦
                            generate-criterion context c a.criterion_id a.criterion_name r
                              settings.model_config_version a.model_answer (rw (e1, e2, e3) at e)
                      ]
            ]
      ]

  pub ask-IsAsked :
      (context : TenantContext) (scope : ApplicantScope) (session_id : OpaqueId) (a : Answer)
      (s : InterviewSession) (transcript : StreamingTranscript) (ts : List Turn) {asked : Asked}
      → ask casefold uuid settings context scope session_id a s transcript ts ≡ ok asked
      → IsAsked scope session_id a s ts asked
  unfolding ask
  ask-IsAsked context scope session_id a s transcript ts {asked} e =
      elim (Result-cases
        (transition a.preparing_at s a.expected_sequence SessionState.preparing_question)) [
          | inr (x, f) ↦ absurd (ground arith)
          | inl (preparing, e1) ↦
              elim (Result-cases
                (make_question casefold uuid settings context scope session_id a transcript ts)) [
                  | inr (x, f) ↦ absurd (ground arith)
                  | inl (g, e2) ↦
                      let on_criterion =
                        make_question-criterion context scope session_id a transcript ts e2 in
                      elim (Result-cases (
                        validate casefold settings.prohibited_topics g.text
                          (uuid_text g.target_criterion_id) (question_texts ts)
                          (some (uuid_text a.criterion_id)))) [
                            | inr (x, f) ↦ absurd (ground arith)
                            | inl (q, e3) ↦
                                elim (Result-cases
                                  (turn_post_init (question_turn_of scope session_id ts q g a))) [
                                    | inr (x, f) ↦ absurd (ground arith)
                                    | inl (turn, e4) ↦
                                        let made : Asked = record {
                                          preparing = preparing;
                                          generated = g;
                                          question = q;
                                          question_turn = turn;
                                        } in
                                        let found : ok made ≡ ok asked = rw (e1, e2, e3, e4) at e in
                                        let is_made : made ≡ asked = ground arith in
                                        let same =
                                          turn_post_init-same
                                            (question_turn_of scope session_id ts q g a) e4 in
                                        let accepted = rw on_criterion at e3 in
                                        let askable =
                                          ((validate_iff casefold settings.prohibited_topics
                                              (question_texts ts) g.text (uuid_text a.criterion_id)
                                              q).0
                                            accepted).1 in
                                        subst (IsAsked scope session_id a s ts) is_made (record {
                                          moves = e1;
                                          criterion = on_criterion;
                                          askable = askable;
                                          turn = sym same;
                                        })
                                  ]
                          ]
                ]
        ]
