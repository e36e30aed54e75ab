-- ===== src/Tests/Criteria.antt =====
-- A version with one criterion.
use gbsa_aws_project.Base.{◌≡◌, ◌+◌, refl, true, some, none, List, [], ◌∷◌}
use gbsa_aws_project.Base.Exec.{ok}
use gbsa_aws_project.Interview.Text.{codes}
use gbsa_aws_project.Interview.Dialogue.{Double, one}
use gbsa_aws_project.Company.Criteria.{
  CompetencyModelStatus, EvaluationCriterion, CompetencyModelVersion, criterion_post_init,
  version_post_init, replace_criteria, publish_version,
}
use gbsa_aws_project.Company.Criteria.Frozen.{
  IsProper, Keeps, Reaches, new_version-IsProper, Reaches-Frozen,
}

-- A sum that needs no rounding.
abbrev plus : Double → Double → Double
plus (Double.units a) (Double.units b) = Double.units (a + b)
plus _ _ = Double.nan

abbrev exact_sum : List Double → Double
exact_sum [] = Double.units 0
exact_sum (w ∷ ws) = plus w (exact_sum ws)

abbrev criterion : EvaluationCriterion
criterion = record {
  criterion_id = 90;
  company_id = 1;
  competency_model_version_id = 6;
  code = codes "DESIGN_1";
  name = codes "Design";
  description = codes "Reasons about trade-offs";
  weight = Double.units one;
  good_evidence = codes "{}";
  weak_evidence = codes "{}";
  abstain_guidance = codes "Ask again";
  common_questions = codes "Why a queue?" ∷ [];
  required = true;
}

normal : criterion_post_init (record criterion { name = codes " Design " }) ≡ ok criterion
unfolding criterion_post_init gbsa_aws_project.Interview.Text.strip
    gbsa_aws_project.Interview.Text.is_space
normal = refl

abbrev draft : CompetencyModelVersion
draft = record {
  competency_model_version_id = 6;
  company_id = 1;
  position_id = 12;
  version_number = 1;
  criteria = [];
  prohibited_topics = [];
  interview_duration_minutes = 30;
  persona_definition = codes "{}";
  status = CompetencyModelStatus.draft;
  published_at = none;
  row_version = 1;
}

drafted : version_post_init draft ≡ ok draft
unfolding version_post_init gbsa_aws_project.Company.Criteria.validate_criteria
    gbsa_aws_project.Company.Criteria.stripped
drafted = refl

abbrev filled : CompetencyModelVersion
filled = record draft { criteria = criterion ∷ []; row_version = 2 }

fills : replace_criteria (criterion ∷ []) draft ≡ ok filled
unfolding replace_criteria version_post_init gbsa_aws_project.Company.Criteria.validate_criteria
    gbsa_aws_project.Company.Criteria.stripped
fills = refl

abbrev live : CompetencyModelVersion
live = record filled {
  status = CompetencyModelStatus.published;
  published_at = some 50;
  row_version = 3;
}

publishes : publish_version exact_sum 50 filled ≡ ok live
unfolding publish_version version_post_init gbsa_aws_project.Company.Criteria.validate_criteria
    gbsa_aws_project.Company.Criteria.stripped
publishes = refl

Reaches-Frozen_example : IsProper exact_sum live × Keeps exact_sum draft live
Reaches-Frozen_example =
    Reaches-Frozen exact_sum draft live (new_version-IsProper exact_sum draft refl drafted)
      (Reaches.publishes 50 publishes (Reaches.replaces (criterion ∷ []) fills Reaches.here))
