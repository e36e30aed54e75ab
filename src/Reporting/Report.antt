-- ===== src/Reporting/Report.antt =====
-- reporting/domain/report.py, application/evidence_service.py and workers/reporting/report.py: reports
-- and the evidence of their items.
pub mod Anchored
use gbsa_aws_project.Base.{
  ℕ, suc, Bool, true, false, not, ◌&&◌, ◌||◌, Option, none, some, List, [], ◌∷◌, ◌++◌, ltb, leb,
  ◌==◌, any, all, if◌then◌else◌,
}
use gbsa_aws_project.Base.Equality.{eq, nat_eq, list_eq}
use gbsa_aws_project.Base.Dict.{Dict, lookup}
use gbsa_aws_project.Base.Exec.{ok, err, raise_if, ◌>>=◌, ◌>>◌}
use gbsa_aws_project.Shared.Errors.{Outcome, value_error}
use gbsa_aws_project.Shared.Ids.{OpaqueId, Instant}
use gbsa_aws_project.Interview.Text.{Text, codes}
use gbsa_aws_project.Interview.Questions.{is_blank, is_empty}

pub data AssessmentState : Type 0 where
  confirmed partially_confirmed insufficient_evidence needs_follow_up : AssessmentState

pub data Sufficiency : Type 0 where
  direct supporting weak : Sufficiency

pub record Evidence : Type 0 where
  pub evidence_id : OpaqueId
  pub company_id : OpaqueId
  pub report_item_id : OpaqueId
  pub criterion_id : OpaqueId
  pub competency_model_version_id : OpaqueId
  pub answer_turn_id : OpaqueId
  pub transcript_segment_id : OpaqueId
  pub video_start_ms : ℕ
  pub video_end_ms : ℕ
  pub observation : Text
  pub rationale : Text
  pub sufficiency : Sufficiency
  pub generation_version : Text
  pub created_at : Instant

-- `Evidence.__post_init__`
unfoldable pub evidence_post_init : Evidence → Outcome Evidence
evidence_post_init e = do
  raise_if (leb e.video_end_ms e.video_start_ms) (value_error "Evidence video range is invalid")
  raise_if (is_blank e.observation || is_blank e.rationale || is_blank e.generation_version)
      (value_error "Evidence narrative and provenance are required")
  ok e

pub record ReportItem : Type 0 where
  pub report_item_id : OpaqueId
  pub report_id : OpaqueId
  pub criterion_id : OpaqueId
  pub competency_model_version_id : OpaqueId
  pub assessment_state : AssessmentState
  pub observation : Text
  pub rationale : Text
  pub uncertainty : Text
  pub evidence : List Evidence
  pub follow_up_question : Option Text

-- `assessment_state in {CONFIRMED, PARTIALLY_CONFIRMED}`
abbrev pub is_confirmed : AssessmentState → Bool
is_confirmed AssessmentState.confirmed = true
is_confirmed AssessmentState.partially_confirmed = true
is_confirmed _ = false

-- Whether a piece of evidence is on another axis than the item.
abbrev pub is_off_axis : ReportItem → Evidence → Bool
is_off_axis i e =
    not (e.report_item_id == i.report_item_id)
    || not (e.criterion_id == i.criterion_id)
    || not (e.competency_model_version_id == i.competency_model_version_id)

-- `ReportItem.__post_init__`
unfoldable pub item_post_init : ReportItem → Outcome ReportItem
item_post_init i = do
  raise_if (is_confirmed i.assessment_state && is_empty i.evidence)
      (value_error "confirmed ReportItem requires Evidence")
  raise_if (any (is_off_axis i) i.evidence) (value_error "Evidence axis does not match ReportItem")
  ok i

-- `kind` is "ai_original" for every report that is made.
pub record Report : Type 0 where
  pub report_id : OpaqueId
  pub company_id : OpaqueId
  pub interview_session_id : OpaqueId
  pub competency_model_version_id : OpaqueId
  pub report_version : ℕ
  pub status : Text
  pub summary : Text
  pub model_config_version : Text
  pub prompt_version : Text
  pub items : List ReportItem
  pub created_at : Instant
  pub kind : Text

-- `Report.__post_init__`
unfoldable pub report_post_init : Report → Outcome Report
report_post_init r = do
  raise_if (ltb r.report_version 1 || not (eq r.kind (codes "ai_original")))
      (value_error "report version or immutable kind is invalid")
  ok r

pub record Anchor : Type 0 where
  pub answer_turn_final : Bool
  pub answer_speaker : Text
  pub transcript_within_turn : Bool
  pub media_available : Bool
  pub technical_failure : Bool

-- `EvidenceService.validate_anchor`
unfoldable pub validate_anchor : Anchor → Outcome (Unit {0})
validate_anchor a = do
  raise_if (not a.answer_turn_final || not (eq a.answer_speaker (codes "applicant")))
      (value_error "Evidence requires a final applicant Turn")
  raise_if (not a.transcript_within_turn || not a.media_available || a.technical_failure)
      (value_error "Evidence anchor range is unavailable")
  ok tt

-- `EvidenceService.attach`
unfoldable pub attach : ReportItem → Evidence → Anchor → Outcome ReportItem
unfolding validate_anchor item_post_init
attach i e anchor = do
  validate_anchor anchor
  item_post_init (record i { evidence = i.evidence ++ e ∷ [] })

abbrev pub or_no_evidence : Option (List Evidence) → List Evidence
or_no_evidence none = []
or_no_evidence (some es) = es

abbrev pub item_of :
    (report_id model_id item_id : OpaqueId) → OpaqueId × Text → List Evidence → ReportItem
item_of report_id model_id item_id (criterion_id, name) evidence = record {
  report_item_id = item_id;
  report_id = report_id;
  criterion_id = criterion_id;
  competency_model_version_id = model_id;
  assessment_state =
      if is_empty evidence then AssessmentState.needs_follow_up else AssessmentState.confirmed;
  observation = name ++ codes " 관찰";
  rationale = codes "제공된 Evidence 기준";
  uncertainty = codes "Evidence 범위에 한정";
  evidence = evidence;
  follow_up_question = if is_empty evidence then some (codes "추가 사례를 확인하세요.") else none;
}

-- The items of the criteria, with the identifiers `ids 0`, `ids 1` and so on that the generator draws.
unfoldable pub items_of :
    (report_id model_id : OpaqueId)
    → (ids : ℕ → OpaqueId) → (drawn : ℕ) → List (OpaqueId × Text)
    → Dict OpaqueId (List Evidence)
    → Outcome (List ReportItem)
unfolding item_post_init
items_of report_id model_id ids drawn [] evidence_by_criterion = ok []
items_of report_id model_id ids drawn (criterion ∷ criteria) evidence_by_criterion =
    item_post_init (
      item_of report_id model_id (ids drawn) criterion
        (or_no_evidence (lookup criterion.0 evidence_by_criterion)))
    >>= λ item.
        items_of report_id model_id ids (suc drawn) criteria evidence_by_criterion >>= λ items.
        ok (item ∷ items)

-- `ReportGenerator.generate`, with the identifiers and the reading of the clock that it takes.
unfoldable pub generate_report :
    (company_id session_id model_id : OpaqueId)
    → List (OpaqueId × Text)
    → Dict OpaqueId (List Evidence)
    → (report_id : OpaqueId) → (ids : ℕ → OpaqueId) → Instant
    → Outcome Report
unfolding items_of report_post_init
generate_report company_id session_id model_id criteria evidence_by_criterion report_id ids now = do
  items ← items_of report_id model_id ids 0 criteria evidence_by_criterion
  report_post_init (record {
    report_id = report_id;
    company_id = company_id;
    interview_session_id = session_id;
    competency_model_version_id = model_id;
    report_version = 1;
    status = codes "ready";
    summary = codes "Evidence 기반 AI 원본";
    model_config_version = codes "report-v1";
    prompt_version = codes "prompt-v1";
    items = items;
    created_at = now;
    kind = codes "ai_original";
  })
