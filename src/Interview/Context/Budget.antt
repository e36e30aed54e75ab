-- ===== src/Interview/Context/Budget.antt =====
-- What a context that `build` returns holds.
use mathlib.Core.List.{reverse, reverse-reverse, append-nil}
use gbsa_aws_project.Base.{
  ℕ, ◌+◌, ◌≤◌, ◌≡◌, ◌↔◌, subst, false, Option, some, List, [], ◌∷◌, map, ltb, length, arith,
  Bool-cases, inl, inr, refl,
}
use gbsa_aws_project.Base.Exec.{ok, Result-cases}
use gbsa_aws_project.Shared.Ids.{OpaqueId}
use gbsa_aws_project.Shared.Tenant.{TenantContext, ApplicantScope, ensure_applicant_scope}
use gbsa_aws_project.Interview.Text.{Text, join_lines}
use gbsa_aws_project.Interview.Context.{
  Criterion, RecentTurn, InterviewContext, Selection, token_cost, select, criterion_lines,
  fixed_text, conversation, build,
}
use gbsa_aws_project.Interview.Context.Selection.{Kept, total_cost, Selects, select-Selects}

-- `c` shows `lines` of some of `turns`, below the text `fixed`.
pub record Shows (max_tokens : ℕ) (turns : List RecentTurn) (fixed : Text)
    (lines : List (Text × Text)) (c : InterviewContext) : Type 0 where
  pub prompt : c.prompt ≡ join_lines (fixed ∷ conversation lines)
  pub in_order : Kept turns lines
  pub included : c.included_turn_ids ≡ map (λ e. e.0) lines
  pub estimate : c.estimated_tokens ≡ token_cost fixed + total_cost lines
  pub within : c.estimated_tokens ≤ max_tokens
  pub untruncated : (c.truncated ≡ false) ↔ (length lines ≡ length turns)

selected_Shows :
    (max_tokens : ℕ) (turns : List RecentTurn) (session_id : OpaqueId) (fixed : Text)
    (ids : List Text) (s : Selection)
    → Selects max_tokens (token_cost fixed) turns s
    → Shows max_tokens turns fixed s.0 (record {
      interview_session_id = session_id;
      prompt = join_lines (fixed ∷ conversation s.0);
      included_turn_ids = map (λ e. e.0) s.0;
      remaining_criterion_ids = ids;
      estimated_tokens = s.1;
      truncated = s.2;
    })
selected_Shows max_tokens turns session_id fixed ids s h = record {
  prompt = refl;
  in_order = h.kept;
  included = refl;
  estimate = h.used;
  within = h.fits;
  untruncated = h.complete;
}

all_selected :
    (max_tokens : ℕ) (turns : List RecentTurn) (fixed : Text) (s : Selection)
    → ltb max_tokens (token_cost fixed) ≡ false
    → select max_tokens (reverse turns) ([], token_cost fixed, false) ≡ ok s
    → Selects max_tokens (token_cost fixed) turns s
all_selected max_tokens turns fixed s room e =
    rw (append-nil (reverse (reverse turns)), reverse-reverse turns) at
      (select-Selects max_tokens (token_cost fixed) [] (reverse turns) ([], token_cost fixed, false)
        s
        (record {
          kept = Kept.nothing;
          used = omega arith;
          fits = ground arith;
          complete = (λ _. refl, λ _. refl);
        })
        e)

-- Where `build` returns a context, the fixed text and the criteria come first, then the lines of
-- some of the turns in their order; the estimate is the tokens of these parts and within the
-- budget, and the context counts as truncated exactly if a turn was left out.
pub build-Shows :
    (max_tokens : ℕ) (context : TenantContext) (scope : ApplicantScope) (session_id : OpaqueId)
    (summary : Option Text) (turns : List RecentTurn) (criteria : List Criterion)
    {c : InterviewContext}
    → build max_tokens context scope session_id summary turns criteria ≡ ok c
    → (shown : List Text × List Text) × (criterion_lines criteria ≡ ok shown)
      × (c.remaining_criterion_ids ≡ shown.1)
      × ((lines : List (Text × Text)) × Shows max_tokens turns (fixed_text shown.0 summary) lines c)
unfolding build
build-Shows max_tokens context scope session_id summary turns criteria {c} e =
    elim (Result-cases (ensure_applicant_scope (some context) scope)) [
      | inr (x, denied) ↦ absurd (ground arith)
      | inl (_, passed) ↦ elim (Result-cases (criterion_lines criteria)) [
        | inr (x, failed) ↦ absurd (ground arith)
        | inl (shown, found) ↦
            let fixed = fixed_text shown.0 summary in
            elim (Bool-cases (ltb max_tokens (token_cost fixed))) [
              | inl over ↦ absurd (ground arith)
              | inr room ↦
                  elim (Result-cases
                    (select max_tokens (reverse turns) ([], token_cost fixed, false))) [
                      | inr (x, failed) ↦ absurd (ground arith)
                      | inl (s, selected) ↦
                          let h =
                            selected_Shows max_tokens turns session_id fixed shown.1 s
                              (all_selected max_tokens turns fixed s room selected) in
                          let p : record {
                            interview_session_id = session_id;
                            prompt = join_lines (fixed ∷ conversation s.0);
                            included_turn_ids = map (λ e. e.0) s.0;
                            remaining_criterion_ids = shown.1;
                            estimated_tokens = s.1;
                            truncated = s.2;
                          }
                              ≡ c =
                            ground arith in
                          (
                            shown,
                            found,
                            ground arith,
                            (s.0, subst (Shows max_tokens turns fixed s.0) p h),
                          )
                    ]
            ]
      ]
    ]
