-- ===== src/Tests/Reports.antt =====
-- Reviews, evidence and a report.
use gbsa_aws_project.Base.{
  ℕ, ◌≡◌, ◌≢◌, ◌⊎◌, ◌↔◌, refl, All, any, Option, some, none, List, [], ◌∷◌, ◌++◌, map, true, false,
  arith,
}
use gbsa_aws_project.Base.Equality.{nat_eq, list_eq, pair_eq}
use gbsa_aws_project.Base.Dict.{Dict, lookup}
use gbsa_aws_project.Base.Exec.{ok, err}
use gbsa_aws_project.Shared.Errors.{value_error, permission_error}
use gbsa_aws_project.Interview.Text.{Text, codes}
use gbsa_aws_project.Reporting.Review.{
  ReviewType, HumanReview, ReviewService, ReviewRequest, review_of, append, decision_request,
  final_decision,
}
use gbsa_aws_project.Reporting.Review.Appended.{LacksReason, IsReviewOf, Adds, append_cases}
use gbsa_aws_project.Reporting.Review.Replay.{Later, append_replay}
use gbsa_aws_project.Reporting.Report.{
  Sufficiency, Evidence, ReportItem, is_off_axis, Anchor, attach, Report, item_of, generate_report,
}
use gbsa_aws_project.Reporting.Report.Anchored.{
  IsAnchored, IsSound, attach_iff, IsFair, generate_report-IsFair,
}
use gbsa_aws_project.Tests.Samples.{reviewer, applicant, key}

abbrev no_reviews : ReviewService
no_reviews = record { reviews = []; keys = [] }

abbrev decision : ReviewRequest
decision = decision_request 3 (codes "advance") (codes "strong answers") key 70 800

abbrev review : HumanReview
review = review_of reviewer decision

abbrev with_review : ReviewService
with_review = record { reviews = ((1, 3), review ∷ []) ∷ []; keys = ((1, key), review) ∷ [] }

decides :
    final_decision reviewer 3 (codes "advance") (codes "strong answers") key 70 800 no_reviews
    ≡ (ok review, with_review)
unfolding final_decision gbsa_aws_project.Shared.Tenant.ensure_company_scope lookup
    gbsa_aws_project.Base.Dict.insert
decides = refl

appends : append reviewer decision no_reviews ≡ (ok review, with_review)
unfolding append gbsa_aws_project.Shared.Tenant.ensure_company_scope lookup
    gbsa_aws_project.Base.Dict.insert
appends = refl

applicant_refused :
    final_decision applicant 3 (codes "advance") (codes "strong answers") key 70 800 no_reviews
    ≡ (err (permission_error "final decision must be human-authored"), no_reviews)
unfolding final_decision
applicant_refused = refl

append_cases_example :
    let outcome = append reviewer decision no_reviews in
    ((old : HumanReview) × (lookup (1, key) no_reviews.keys ≡ some old)
      × (outcome ≡ (ok old, no_reviews)))
    ⊎ ((lookup (1, key) no_reviews.keys ≡ none)
        × LacksReason decision
        × (outcome ≡ (err (value_error "override and final decision require reason"), no_reviews)))
    ⊎ ((lookup (1, key) no_reviews.keys ≡ none)
        × (¬ LacksReason decision)
        × ((r : HumanReview) × (service' : ReviewService) × (outcome ≡ (ok r, service'))
            × IsReviewOf reviewer decision r
            × Adds (1, 3) (1, key) r no_reviews service'))
append_cases_example = append_cases reviewer decision no_reviews

-- Another decision about another invitation, under the same key; and a note under another key.
abbrev other : ReviewRequest
other = decision_request 4 (codes "reject") (codes "weak answers") key 71 900

abbrev remark : ReviewRequest
remark = record other {
  review_type = ReviewType.note;
  idempotency_key = codes "another-key-of-sixteen";
}

abbrev remarked : ReviewService
remarked = (append reviewer remark with_review).1

append_replay_example : append reviewer other remarked ≡ (ok review, remarked)
append_replay_example =
    append_replay reviewer reviewer decision other no_reviews remarked appends
      (Later.appends reviewer remark Later.here) refl refl

abbrev evidence : Evidence
evidence = record {
  evidence_id = 80;
  company_id = 1;
  report_item_id = 81;
  criterion_id = 82;
  competency_model_version_id = 6;
  answer_turn_id = 30;
  transcript_segment_id = 83;
  video_start_ms = 0;
  video_end_ms = 10;
  observation = codes "observed";
  rationale = codes "said so";
  sufficiency = Sufficiency.direct;
  generation_version = codes "v1";
  created_at = 800;
}

abbrev item : ReportItem
item = item_of 90 6 81 (82, codes "teamwork") []

abbrev anchor : Anchor
anchor = record {
  answer_turn_final = true;
  answer_speaker = codes "applicant";
  transcript_within_turn = true;
  media_available = true;
  technical_failure = false;
}

abbrev attached : ReportItem
attached = record item { evidence = evidence ∷ [] }

attach_iff_example : (attach item evidence anchor ≡ ok attached) ↔ (
    IsSound anchor
    × (is_off_axis item evidence ≡ false)
    × (attached ≡ record item { evidence = [] ++ evidence ∷ [] })
    × IsAnchored attached)
attach_iff_example =
    attach_iff item attached evidence anchor (record { evidenced = refl; on_axis = refl })

abbrev by_criterion : Dict ℕ (List Evidence)
by_criterion = (82, evidence ∷ []) ∷ []

abbrev criteria : List (ℕ × Text)
criteria = (82, codes "teamwork") ∷ (84, codes "design") ∷ []

abbrev ids : ℕ → ℕ
ids n = 81

abbrev report : Report
report = record {
  report_id = 90;
  company_id = 1;
  interview_session_id = 7;
  competency_model_version_id = 6;
  report_version = 1;
  status = codes "ready";
  summary = codes "Evidence 기반 AI 원본";
  model_config_version = codes "report-v1";
  prompt_version = codes "prompt-v1";
  items =
      item_of 90 6 81 (82, codes "teamwork") (evidence ∷ [])
      ∷ item_of 90 6 81 (84, codes "design") []
      ∷ [];
  created_at = 900;
  kind = codes "ai_original";
}

generates : generate_report 1 7 6 criteria by_criterion 90 ids 900 ≡ ok report
unfolding generate_report lookup
generates = refl

generate_report-IsFair_example :
    All IsFair report.items × (map (λ i. i.criterion_id) report.items ≡ map (λ c. c.0) criteria)
generate_report-IsFair_example =
    generate_report-IsFair 1 7 6 criteria by_criterion 90 ids 900 generates
