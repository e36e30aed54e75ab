-- ===== src/Tests/Context.antt =====
-- Contexts and questions.
use gbsa_aws_project.Base.{ℕ, zero, suc, ◌≡◌, ◌↔◌, refl, true, some, none, List, [], ◌∷◌}
use gbsa_aws_project.Base.Exec.{ok, err}
use gbsa_aws_project.Shared.Errors.{value_error}
use gbsa_aws_project.Interview.Text.{Text, codes}
use gbsa_aws_project.Interview.Context.{
  Criterion, RecentTurn, InterviewContext, build, fixed_text, criterion_lines,
}
use gbsa_aws_project.Interview.Context.Budget.{Shows, build-Shows}
use gbsa_aws_project.Interview.Questions.{normalize, question_count, validate}
use gbsa_aws_project.Interview.Questions.Accepted.{IsAskable, validate_iff}
use gbsa_aws_project.Tests.Samples.{scope, applicant}

abbrev criterion : Criterion
criterion = record { criterion_id = some (codes "c1"); name = some (codes "협업") }

abbrev turn : ℕ → Text → RecentTurn
turn n text = record {
  turn_id = some (n ∷ []);
  speaker = some (codes "applicant");
  text = some text;
}

abbrev repeated : ℕ → Text
repeated zero = []
repeated (suc n) = b'x' ∷ repeated n

-- The budget leaves room for the short turn, not for the long one.
abbrev turns : List RecentTurn
turns = turn b'1' (codes "first") ∷ turn b'2' (repeated 600) ∷ turn b'3' (codes "last") ∷ []

abbrev fixed : Text
fixed = codes "고정 평가축을 변경하지 말고 한 번에 하나의 질문만 생성하세요.\n남은 평가 기준:\n- c1: 협업"

abbrev context : InterviewContext
context = record {
  interview_session_id = 7;
  prompt =
      codes
        "고정 평가축을 변경하지 말고 한 번에 하나의 질문만 생성하세요.\n남은 평가 기준:\n- c1: 협업\n최근 대화:\n[applicant] first\n[applicant] last";
  included_turn_ids = (b'1' ∷ []) ∷ (b'3' ∷ []) ∷ [];
  remaining_criterion_ids = codes "c1" ∷ [];
  estimated_tokens = 23;
  truncated = true;
}

built : build 128 applicant scope 7 none turns (criterion ∷ []) ≡ ok context
unfolding build fixed_text gbsa_aws_project.Shared.Tenant.ensure_applicant_scope
built = refl

build-Shows_example :
    (shown : List Text × List Text) × (criterion_lines (criterion ∷ []) ≡ ok shown)
    × (context.remaining_criterion_ids ≡ shown.1)
    × ((lines : List (Text × Text)) × Shows 128 turns (fixed_text shown.0 none) lines context)
build-Shows_example = build-Shows 128 applicant scope 7 none turns (criterion ∷ []) built

abbrev question : Text
question = codes "  어떤   협업을 했나요? "

normalized : normalize question ≡ codes "어떤 협업을 했나요?"
unfolding normalize gbsa_aws_project.Interview.Text.is_space
normalized = refl

two_questions : question_count (codes "무엇을 했나요? 왜 했나요?") ≡ 2
unfolding question_count gbsa_aws_project.Interview.Text.strip
    gbsa_aws_project.Interview.Text.is_space
two_questions = refl

repeated_question :
    validate (λ t. t) [] question [] (codes "어떤 협업을 했나요?" ∷ []) none
    ≡ err (value_error "duplicate question is not allowed")
unfolding validate normalize gbsa_aws_project.Interview.Text.is_space
repeated_question = refl

validate_iff_example :
    (validate (λ t. t) [] question (codes "c1") [] (some (codes "c1")) ≡ ok (normalize question))
    ↔ ((normalize question ≡ normalize question) × IsAskable (λ t. t) [] [] (normalize question))
validate_iff_example = validate_iff (λ t. t) [] [] question (codes "c1") (normalize question)
