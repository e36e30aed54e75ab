-- ===== src/Interview/Generator.antt =====
-- interview_engine/application/question_generator.py and adapters/polly.py: the next question and
-- its speech.
use gbsa_aws_project.Base.{
  ℕ, suc, ◌+◌, ◌*◌, Bool, true, false, not, Option, none, some, List, [], ◌∷◌, ◌++◌, map, any,
  if◌then◌else◌,
}
use gbsa_aws_project.Base.Equality.{eq, nat_eq, list_eq}
use gbsa_aws_project.Base.Exec.{ok, err, raise_if, ◌>>=◌, ◌>>◌}
use gbsa_aws_project.Shared.Errors.{Error, Outcome, value_error, safe}
use gbsa_aws_project.Shared.Ids.{OpaqueId, Instant, opaque_id}
use gbsa_aws_project.Shared.Tenant.{TenantContext, require_tenant_context, ensure_company_scope}
use gbsa_aws_project.Interview.Text.{Text, codes, strip, is_space, uuid_text}
use gbsa_aws_project.Interview.Context.{InterviewContext}
use gbsa_aws_project.Interview.Questions.{is_empty, is_blank}
use gbsa_aws_project.Interview.Dialogue.{DegradedMode, RetrievalResult, is_outage}

pub record GeneratedQuestion : Type 0 where
  pub text : Text
  pub target_criterion_id : OpaqueId
  pub model_config_version : Text
  pub source_references : List Text
  pub degraded_mode : DegradedMode

-- The model's answer: `none` where an entry is missing or no text.
pub record ModelPayload : Type 0 where
  pub question : Option Text
  pub target_criterion_id : Option Text

-- `_fallback`
abbrev pub fallback : OpaqueId → Text → Text → List Text → DegradedMode → GeneratedQuestion
fallback criterion_id criterion_name version references mode = record {
  text = criterion_name ++ codes " 역량을 보여 준 경험과 당시 판단 근거를 설명해 주세요.";
  target_criterion_id = criterion_id;
  model_config_version = version;
  source_references = references;
  degraded_mode = mode;
}

abbrev question_of : Option Text → Outcome Text
question_of none = err (value_error "question model returned an invalid question")
question_of (some text) = do
  raise_if (is_blank text) (value_error "question model returned an invalid question")
  ok (strip text)

abbrev is_text : Option Text → Text → Bool
is_text none t = false
is_text (some s) t = eq s t

-- What the model answers: `none` where the generator has no model.
unfoldable pub ask_model :
    OpaqueId
    → Text
    → (version : Text) → RetrievalResult
    → Option (Outcome ModelPayload)
    → Outcome GeneratedQuestion
ask_model criterion_id criterion_name version retrieval none =
    let references = map (λ i. i.source_reference) retrieval.results in
    ok (
      fallback criterion_id criterion_name version references
        (if is_empty references then DegradedMode.search_fallback else DegradedMode.model_fallback))
ask_model criterion_id criterion_name version retrieval (some (err (Error.safe code))) =
    if is_outage code
    then ok (
        fallback criterion_id criterion_name version
          (map (λ i. i.source_reference) retrieval.results) DegradedMode.model_fallback)
    else err (safe code)
ask_model criterion_id criterion_name version retrieval (some (err e)) = err e
ask_model criterion_id criterion_name version retrieval (some (ok payload)) = do
  text ← question_of payload.question
  raise_if (not (is_text payload.target_criterion_id (uuid_text criterion_id)))
      (value_error "question model attempted to change the fixed criterion axis")
  ok (record {
    text = text;
    target_criterion_id = criterion_id;
    model_config_version = version;
    source_references = map (λ i. i.source_reference) retrieval.results;
    degraded_mode = retrieval.degraded_mode;
  })

-- `uuid` is `uuid.UUID` of a text.
module _ (uuid : Text → Outcome ℕ) where
  abbrev pub parse_ids : List Text → Outcome (List OpaqueId)
  parse_ids [] = ok []
  parse_ids (t ∷ ts) =
      uuid t >>= λ value. opaque_id value >>= λ id. parse_ids ts >>= λ ids. ok (id ∷ ids)

  -- `QuestionGenerator.generate`, for a generator with the given version.
  unfoldable pub generate :
      TenantContext
      → InterviewContext
      → (criterion_id : OpaqueId) → (criterion_name : Text) → RetrievalResult
      → (version : Text) → Option (Outcome ModelPayload)
      → Outcome GeneratedQuestion
  unfolding ask_model
  generate context interview_context criterion_id criterion_name retrieval version answer = do
    require_tenant_context (some context)
    remaining ← parse_ids interview_context.remaining_criterion_ids
    raise_if (not (any (eq criterion_id) remaining))
        (value_error "question criterion is outside the remaining fixed axis")
    raise_if (is_blank criterion_name) (value_error "criterion_name must not be blank")
    ask_model criterion_id criterion_name version retrieval answer

pub record VisemeMark : Type 0 where
  pub offset_ms : ℕ
  pub value : Text

pub record SpeechSynthesis : Type 0 where
  pub text_only : Bool
  pub audio_url : Option Text
  pub audio_expires_at : Option Instant
  pub speech_marks_url : Option Text
  pub visemes : List VisemeMark
  pub degraded_mode : DegradedMode

-- The marks of the characters from `index` on.
unfoldable pub visemes_from : ℕ → Text → List VisemeMark
unfolding is_space
visemes_from index [] = []
visemes_from index (c ∷ cs) =
    let rest = visemes_from (suc index) cs in
    if is_space c then rest else record { offset_ms = index * 120; value = codes "syllable" } ∷ rest

abbrev pub silent : SpeechSynthesis
silent = record {
  text_only = true;
  audio_url = none;
  audio_expires_at = none;
  speech_marks_url = none;
  visemes = [];
  degraded_mode = DegradedMode.text_only;
}

-- `SpeechSynthesizer.synthesize`, with the identifiers and the clock's reading that it takes.
unfoldable pub synthesize :
    (fails : Bool)
    → (url_ttl : ℕ) → TenantContext
    → (company_id : OpaqueId) → (question : Text) → (audio_id marks_id : OpaqueId) → Instant
    → Outcome SpeechSynthesis
unfolding visemes_from
synthesize fails url_ttl context company_id question audio_id marks_id now = do
  checked ← ensure_company_scope (some context) company_id
  raise_if (is_blank question) (value_error "question must not be blank")
  ok (
      if fails then silent else record {
        text_only = false;
        audio_url = some (
            codes "https://media.example.invalid/"
            ++ (uuid_text checked.company_id ++ (codes "/speech/" ++ uuid_text audio_id)));
        audio_expires_at = some (now + url_ttl);
        speech_marks_url = some (
            codes "https://media.example.invalid/"
            ++ (uuid_text checked.company_id ++ (codes "/speech-marks/" ++ uuid_text marks_id)));
        visemes = visemes_from 0 question;
        degraded_mode = DegradedMode.undegraded;
      })
