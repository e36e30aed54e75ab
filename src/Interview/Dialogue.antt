-- ===== src/Interview/Dialogue.antt =====
-- interview_engine/adapters/retrieval_client.py and transcribe.py: what the service makes of a transcript
-- and of the answer of the retrieval contract.

use gbsa_aws_project.Base.{
  ℕ, ◌^◌, Bool, true, false, not, ◌&&◌, ◌||◌, Option, none, some, List, [], ◌∷◌, ltb, leb,
  if◌then◌else◌,
}
use gbsa_aws_project.Base.Equality.{nat_eq, list_eq}
use gbsa_aws_project.Base.Exec.{ok, err, raise_if, ◌>>=◌, ◌>>◌}
use gbsa_aws_project.Shared.Errors.{Error, ErrorCode, Outcome, value_error, safe}
use gbsa_aws_project.Shared.Ids.{OpaqueId}
use gbsa_aws_project.Shared.Tenant.{
  TenantContext, ApplicantScope, require_tenant_context, ensure_applicant_scope,
}
use gbsa_aws_project.Interview.Text.{Text, codes}
use gbsa_aws_project.Interview.Session.{is_some}
use gbsa_aws_project.Interview.Questions.{is_empty, is_blank}

-- A float: `units n` is n * 2^-1074, of which every finite float is a multiple.
pub data Double : Type 0 where
  units below_zero : ℕ → Double
  infinity nan : Double

abbrev pub one : ℕ
one = 2 ^ 1074

-- `0 <= value <= 1`
abbrev pub in_unit_interval : Double → Bool
in_unit_interval (Double.units n) = leb n one
in_unit_interval _ = false

-- `value < threshold`
abbrev pub is_below : Double → ℕ → Bool
is_below (Double.units n) threshold = ltb n threshold
is_below (Double.below_zero n) threshold = true
is_below _ threshold = false

pub record StreamingTranscript : Type 0 where
  pub text : Text
  pub confidence : Double
  pub is_final : Bool
  pub evidence_eligible : Bool
  pub review_required : Bool

-- `StreamingTranscriber.result`
unfoldable pub transcribe :
    (review_threshold : ℕ)
    → Text
    → (confidence : Double) → (is_final : Bool) → Outcome StreamingTranscript
transcribe review_threshold text confidence is_final = do
  raise_if (not (in_unit_interval confidence))
      (value_error "transcription confidence must be between zero and one")
  raise_if (is_blank text) (value_error "transcription text must not be blank")
  ok (record {
    text = text;
    confidence = confidence;
    is_final = is_final;
    evidence_eligible = is_final;
    review_required = is_final && is_below confidence review_threshold;
  })

-- `Literal["none", "search_fallback"]` and the modes of the generator and the synthesizer.
pub data DegradedMode : Type 0 where
  undegraded search_fallback model_fallback text_only : DegradedMode

abbrev pub mode_text : DegradedMode → Text
mode_text DegradedMode.undegraded = codes "none"
mode_text DegradedMode.search_fallback = codes "search_fallback"
mode_text DegradedMode.model_fallback = codes "model_fallback"
mode_text DegradedMode.text_only = codes "text_only"

-- A source reference, a mapping, is here the text of its JSON.
pub record RetrievalItem : Type 0 where
  pub rank : ℕ
  pub score : Double
  pub source_reference : Text

pub record RetrievalResult : Type 0 where
  pub results : List RetrievalItem
  pub degraded_mode : DegradedMode
  pub retrieval_config_version : Text

-- An item of the contract's answer: `none` where an entry is missing or of another type.
pub record RawItem : Type 0 where
  pub rank : Option ℕ
  pub score : Option Double
  pub source_reference : Option Text

-- An entry of the list, be it no object.
pub data RawEntry : Type 0 where
  object : RawItem → RawEntry
  no_object : RawEntry

-- The value under "results": absent or null, a list, or a value of another type.
pub data RawResults : Type 0 where
  absent no_list : RawResults
  entries : List RawEntry → RawResults

-- The value under "retrieval_config_version".
pub data RawVersion : Type 0 where
  missing no_text : RawVersion
  version : Text → RawVersion

-- The contract's answer.
pub record RetrievalPayload : Type 0 where
  pub results : RawResults
  pub retrieval_config_version : RawVersion

abbrev parse_item : Option ℕ → Option Double → Option Text → Outcome RetrievalItem
parse_item (some rank) (some score) (some reference) =
    ok (record { rank = rank; score = score; source_reference = reference })
parse_item (some rank) (some score) none =
    err (value_error "retrieval contract source reference is invalid")
parse_item _ _ _ = err (value_error "retrieval contract rank or score is invalid")

abbrev parse_entry : RawEntry → Outcome RetrievalItem
parse_entry (RawEntry.object i) = parse_item i.rank i.score i.source_reference
parse_entry RawEntry.no_object = err (value_error "retrieval contract item must be an object")

abbrev parse_items : List RawEntry → Outcome (List RetrievalItem)
parse_items [] = ok []
parse_items (e ∷ es) = parse_entry e >>= λ item. parse_items es >>= λ items. ok (item ∷ items)

-- `_parse_results`
unfoldable pub parse_results : RawResults → Outcome (List RetrievalItem)
parse_results RawResults.absent = ok []
parse_results RawResults.no_list = err (value_error "retrieval contract results must be a list")
parse_results (RawResults.entries es) = parse_items es

-- `error.code in {DEPENDENCY_TIMEOUT, DEPENDENCY_UNAVAILABLE}`
abbrev pub is_outage : ErrorCode → Bool
is_outage ErrorCode.dependency_timeout = true
is_outage ErrorCode.dependency_unavailable = true
is_outage _ = false

abbrev pub no_results : Text → RetrievalResult
no_results config_version = record {
  results = [];
  degraded_mode = DegradedMode.search_fallback;
  retrieval_config_version = config_version;
}

-- `payload.get("retrieval_config_version", config_version)`, which must be a string
abbrev returned_version : RawVersion → Text → Outcome Text
returned_version RawVersion.missing config_version = ok config_version
returned_version RawVersion.no_text config_version =
    err (value_error "retrieval contract returned an invalid config version")
returned_version (RawVersion.version v) config_version = ok v

-- The answer of the contract, or what it raised.
unfoldable pub receive :
    (config_version : Text) → Outcome RetrievalPayload → Outcome RetrievalResult
unfolding parse_results
receive config_version (err (Error.safe code)) =
    if is_outage code then ok (no_results config_version) else err (safe code)
receive config_version (err Error.timeout_error) = ok (no_results config_version)
receive config_version (err e) = err e
receive config_version (ok payload) = do
  results ← parse_results payload.results
  returned ← returned_version payload.retrieval_config_version config_version
  ok (record {
    results = results;
    degraded_mode =
        if is_empty results then DegradedMode.search_fallback else DegradedMode.undegraded;
    retrieval_config_version = returned;
  })

-- The scope check of `retrieve`.
abbrev check_scope :
    TenantContext → Option ApplicantScope → Option OpaqueId → Option OpaqueId → Outcome (Unit {0})
check_scope context none criterion_id session_id = ok tt
check_scope context (some scope) criterion_id session_id = do
  ensure_applicant_scope (some context) scope
  raise_if (not (is_some criterion_id) || not (is_some session_id))
      (value_error "scoped retrieval requires criterion and session identifiers")
  ok tt

-- `RetrievalClient.retrieve`, for the answer of `retrieve_context`.
unfoldable pub retrieve :
    TenantContext
    → (query : Text) → Option ApplicantScope
    → (criterion_id session_id : Option OpaqueId) → (config_version : Text)
    → Outcome RetrievalPayload
    → Outcome RetrievalResult
unfolding receive
retrieve context query scope criterion_id session_id config_version answer = do
  require_tenant_context (some context)
  raise_if (is_blank query) (value_error "retrieval query must not be blank")
  check_scope context scope criterion_id session_id
  receive config_version answer
