-- ===== src/Interview/Context.antt =====
-- interview_engine/application/context_builder.py: the prompt's context within a token budget.
pub mod Selection
pub mod Budget
use mathlib.Core.List.{reverse}
use gbsa_aws_project.Base.{
  ℕ, ◌+◌, ◌/◌, ◌≤◌, Bool, true, false, ◌||◌, Option, none, some, List, [], ◌∷◌, ◌++◌, map, ltb, max,
  length, if◌then◌else◌,
}
use gbsa_aws_project.Base.Exec.{ok, err, raise_if, ◌>>=◌, ◌>>◌}
use gbsa_aws_project.Shared.Errors.{Outcome, value_error}
use gbsa_aws_project.Shared.Ids.{OpaqueId}
use gbsa_aws_project.Shared.Tenant.{TenantContext, ApplicantScope, ensure_applicant_scope}
use gbsa_aws_project.Interview.Text.{Text, codes, strip, join_lines}

-- A criterion as the mapping that the caller passes: `none` where the entry is missing or no text.
pub record Criterion : Type 0 where
  pub criterion_id : Option Text
  pub name : Option Text

-- A turn as such a mapping. `text` is what a `ProtectedText` reveals, or a plain text.
pub record RecentTurn : Type 0 where
  pub turn_id : Option Text
  pub speaker : Option Text
  pub text : Option Text

pub record InterviewContext : Type 0 where
  pub interview_session_id : OpaqueId
  pub prompt : Text
  pub included_turn_ids : List Text
  pub remaining_criterion_ids : List Text
  pub estimated_tokens : ℕ
  pub truncated : Bool

-- `ContextBuilder.__init__`: the budget of a builder.
unfoldable pub context_builder : (max_tokens : ℕ) → Outcome ℕ
context_builder max_tokens = do
  raise_if (ltb max_tokens 128) (value_error "context token budget must be at least 128")
  ok max_tokens

unfoldable pub token_cost : Text → ℕ
token_cost value = max 1 ((length value + 3) / 4)

-- The line and the identifier of one criterion.
abbrev pub criterion_line : Option Text → Option Text → Outcome (Text × Text)
criterion_line (some criterion_id) (some name) =
    ok (codes "- " ++ (criterion_id ++ (codes ": " ++ name)), criterion_id)
criterion_line _ _ = err (value_error "remaining criteria require criterion_id and name")

unfoldable pub criterion_lines : List Criterion → Outcome (List Text × List Text)
criterion_lines [] = ok ([], [])
criterion_lines (c ∷ cs) = criterion_line c.criterion_id c.name >>= λ first.
    criterion_lines cs >>= λ rest. ok (first.0 ∷ rest.0, first.1 ∷ rest.1)

abbrev pub render_parts : Option Text → Option Text → Option Text → Outcome (Text × Text)
render_parts (some turn_id) (some speaker) (some text) =
    ok (turn_id, codes "[" ++ (speaker ++ (codes "] " ++ text)))
render_parts (some turn_id) (some speaker) none =
    err (value_error "recent Turn requires protected text")
render_parts _ _ _ = err (value_error "recent Turn requires turn_id and speaker")

-- `_render_turn`
unfoldable pub render_turn : RecentTurn → Outcome (Text × Text)
render_turn t = render_parts t.turn_id t.speaker t.text

-- The selected turns with their lines, the tokens used, and whether a turn was left out.
abbrev pub Selection : Type 0
Selection = List (Text × Text) × ℕ × Bool

-- One turn more: it is skipped if it does not fit. The source appends to a list that it reverses
-- after the loop; here a turn goes in front.
abbrev pub step : ℕ → Text × Text → Selection → Selection
step max_tokens line (selected, used, truncated) =
    let cost = token_cost line.1 in
    if ltb max_tokens (used + cost)
    then (selected, used, true)
    else (line ∷ selected, used + cost, truncated)

-- The loop of `build` over `turns`, the newest first.
unfoldable pub select : ℕ → List RecentTurn → Selection → Outcome Selection
unfolding render_turn
select max_tokens [] s = ok s
select max_tokens (t ∷ turns) s =
    render_turn t >>= λ line. select max_tokens turns (step max_tokens line s)

-- `if summary: fixed_lines.extend(...)`
abbrev pub summary_lines : Option Text → List Text
summary_lines (some (c ∷ cs)) = codes "이전 답변 요약:" ∷ strip (c ∷ cs) ∷ []
summary_lines _ = []

unfoldable pub fixed_text : List Text → Option Text → Text
unfolding strip join_lines
fixed_text lines summary = join_lines (
    (codes "고정 평가축을 변경하지 말고 한 번에 하나의 질문만 생성하세요." ∷ codes "남은 평가 기준:" ∷ lines)
    ++ summary_lines summary)

abbrev pub conversation : List (Text × Text) → List Text
conversation [] = []
conversation (s ∷ ss) = codes "최근 대화:" ∷ map (λ e. e.1) (s ∷ ss)

-- `ContextBuilder.build`, for a builder with budget `max_tokens`.
unfoldable pub build :
    (max_tokens : ℕ)
    → TenantContext
    → ApplicantScope
    → OpaqueId
    → (summary : Option Text) → (recent_turns : List RecentTurn)
    → (remaining_criteria : List Criterion) → Outcome InterviewContext
unfolding select criterion_lines token_cost fixed_text
build max_tokens context scope session_id summary recent_turns remaining_criteria = do
  ensure_applicant_scope (some context) scope
  criteria ← criterion_lines remaining_criteria
  raise_if (ltb max_tokens (token_cost (fixed_text criteria.0 summary)))
      (value_error "summary and remaining criteria exceed the context budget")
  s ←
      select max_tokens (reverse recent_turns)
        ([], token_cost (fixed_text criteria.0 summary), false)
  ok (record {
    interview_session_id = session_id;
    prompt = join_lines (fixed_text criteria.0 summary ∷ conversation s.0);
    included_turn_ids = map (λ e. e.0) s.0;
    remaining_criterion_ids = criteria.1;
    estimated_tokens = s.1;
    truncated = s.2;
  })
