-- ===== src/Company/Criteria.antt =====
-- company_management/domain/criteria.py: versions of a competency model.
pub mod Frozen
use gbsa_aws_project.Base.{
  ℕ, ◌+◌, ◌*◌, ◌^◌, Bool, true, false, not, ◌&&◌, ◌||◌, Option, none, some, List, [], ◌∷◌, ltb, leb,
  ◌==◌, length, any, all, map, keep, if◌then◌else◌,
}
use gbsa_aws_project.Base.{String}
use gbsa_aws_project.Base.Equality.{Eq, eq, nat_eq, list_eq}
use gbsa_aws_project.Base.Exec.{ok, err, raise_if, ◌>>=◌, ◌>>◌}
use gbsa_aws_project.Shared.Errors.{Outcome, value_error, safe, conflict}
use gbsa_aws_project.Shared.Ids.{OpaqueId, Instant}
use gbsa_aws_project.Interview.Text.{Text, strip}
use gbsa_aws_project.Interview.Questions.{is_empty}
use gbsa_aws_project.Interview.Dialogue.{Double, one}

pub data CompetencyModelStatus : Type 0 where
  draft published retired : CompetencyModelStatus

-- The mappings of evidence are the texts of their JSON.
pub record EvaluationCriterion : Type 0 where
  pub criterion_id : OpaqueId
  pub company_id : OpaqueId
  pub competency_model_version_id : OpaqueId
  pub code : Text
  pub name : Text
  pub description : Text
  pub weight : Double
  pub good_evidence : Text
  pub weak_evidence : Text
  pub abstain_guidance : Text
  pub common_questions : List Text
  pub required : Bool

-- `_text`
unfoldable pub bounded_text : (value : Text) → (field_name : String) → (maximum : ℕ) → Outcome Text
bounded_text value field_name maximum = do
  let normalized = strip value
  raise_if (is_empty normalized || ltb maximum (length normalized)) (value_error field_name)
  ok normalized

abbrev is_code_char : ℕ → Bool
is_code_char c = leb b'A' c && leb c b'Z' || leb b'0' c && leb c b'9' || c == b'_' || c == b'-'

-- `_CRITERION_CODE.fullmatch(value)`
unfoldable pub is_criterion_code : Text → Bool
is_criterion_code value = leb 2 (length value) && leb (length value) 40 && all is_code_char value

-- `math.isfinite(weight) and weight >= 0`; no multiple below zero is zero.
abbrev is_weight : Double → Bool
is_weight (Double.units n) = true
is_weight _ = false

-- `tuple(item.strip() for item in items if item.strip())`
unfoldable pub stripped : List Text → List Text
stripped items = keep (λ t. not (is_empty t)) (map strip items)

-- `EvaluationCriterion.__post_init__`
unfoldable pub criterion_post_init : EvaluationCriterion → Outcome EvaluationCriterion
unfolding bounded_text is_criterion_code stripped
criterion_post_init c = do
  raise_if (not (is_criterion_code c.code))
      (value_error "criterion code must match the public contract")
  name ← bounded_text c.name "name" 200
  description ← bounded_text c.description "description" 4000
  raise_if (not (is_weight c.weight))
      (value_error "criterion weight must be finite and non-negative")
  guidance ← bounded_text c.abstain_guidance "abstain_guidance" 4000
  ok (record c {
    name = name;
    description = description;
    abstain_guidance = guidance;
    common_questions = stripped c.common_questions;
  })

pub record CompetencyModelVersion : Type 0 where
  pub competency_model_version_id : OpaqueId
  pub company_id : OpaqueId
  pub position_id : OpaqueId
  pub version_number : ℕ
  pub criteria : List EvaluationCriterion
  pub prohibited_topics : List Text
  pub interview_duration_minutes : ℕ
  pub persona_definition : Text
  pub status : CompetencyModelStatus
  pub published_at : Option Instant
  pub row_version : ℕ

-- the loop of `_validate_criterion_scope`, with the codes that it has seen
unfoldable pub validate_criteria :
    (company_id version_id : OpaqueId) → List Text → List EvaluationCriterion → Outcome (Unit {0})
validate_criteria company_id version_id seen [] = ok tt
validate_criteria company_id version_id seen (c ∷ cs) =
    raise_if (not (c.company_id == company_id && c.competency_model_version_id == version_id))
      (value_error "criteria must belong to the same tenant and version")
    >> raise_if (any (eq c.code) seen)
        (value_error "criterion codes must be unique within a version")
    >> validate_criteria company_id version_id (c.code ∷ seen) cs

-- `CompetencyModelVersion.__post_init__`
unfoldable pub version_post_init : CompetencyModelVersion → Outcome CompetencyModelVersion
version_post_init v = do
  raise_if (ltb v.version_number 1 || ltb v.row_version 1)
      (value_error "version numbers must be positive")
  raise_if (not (leb 10 v.interview_duration_minutes && leb v.interview_duration_minutes 120))
      (value_error "interview duration must be between 10 and 120 minutes")
  validate_criteria v.company_id v.competency_model_version_id [] v.criteria
  ok (record v { prohibited_topics = stripped v.prohibited_topics })

abbrev pub is_draft : CompetencyModelStatus → Bool
is_draft CompetencyModelStatus.draft = true
is_draft _ = false

abbrev pub is_published : CompetencyModelStatus → Bool
is_published CompetencyModelStatus.published = true
is_published _ = false

-- `CompetencyModelVersion.replace_criteria`
unfoldable pub replace_criteria :
    List EvaluationCriterion → CompetencyModelVersion → Outcome CompetencyModelVersion
replace_criteria criteria v =
    raise_if (not (is_draft v.status)) (safe conflict)
    >> version_post_init (record v { criteria = criteria; row_version = v.row_version + 1 })

-- The float `1e-6`, in the units of `Double`.
abbrev millionth : ℕ
millionth = 4722366482869645 * 2 ^ 1002

-- `math.isclose(total, 1.0, abs_tol=1e-6)`. The difference of a float between one half and two to
-- one is exact, and that of any other is far from both tolerances, so that no rounding matters.
abbrev pub is_close_to_one : Double → Bool
is_close_to_one (Double.units n) = leb one (n + millionth) && leb n (one + millionth)
is_close_to_one _ = false

-- `CompetencyModelVersion.publish`. `sum`, of floats, is a parameter: the rounding of its partial
-- sums is not modelled.
unfoldable pub publish_version :
    (sum : List Double → Double) → Instant → CompetencyModelVersion → Outcome CompetencyModelVersion
publish_version sum published_at v =
    if is_published v.status
    then ok v
    else (raise_if (not (is_draft v.status) || is_empty v.criteria) (safe conflict)
        >> raise_if (not (is_close_to_one (sum (map (λ c. c.weight) v.criteria)))) (safe conflict)
        >> version_post_init (record v {
          status = CompetencyModelStatus.published;
          published_at = some published_at;
          row_version = v.row_version + 1;
        }))
