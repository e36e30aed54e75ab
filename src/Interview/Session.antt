-- ===== src/Interview/Session.antt =====
-- interview_engine/domain/session.py and application/state_machine.py: a session and its moves.
pub mod Machine
pub mod History
pub mod Degraded
use gbsa_aws_project.Base.{◌≡◌, ◌↔◌, arith}
use gbsa_aws_project.Base.{
  ℕ, ◌+◌, ◌≤◌, Bool, true, false, not, ◌&&◌, ◌||◌, Option, none, some, List, [], ◌∷◌, ◌++◌, leb,
  ltb, ◌==◌, any, if◌then◌else◌,
}
use gbsa_aws_project.Base.Equality.{eq, nat_eq, list_eq}
use gbsa_aws_project.Base.Exec.{ok, err, raise_if, ◌>>=◌, ◌>>◌}
use gbsa_aws_project.Shared.Errors.{Outcome, value_error}
use gbsa_aws_project.Shared.Ids.{OpaqueId, Instant}
use gbsa_aws_project.Shared.Tenant.{ApplicantScope}
use gbsa_aws_project.Interview.Text.{Text, has_space}

pub data SessionState : Type 0 where
  preparing in_progress awaiting_answer preparing_question : SessionState
  paused completed report_generating reviewable : SessionState

-- `state in _COMPLETED_STATES`
abbrev pub is_completed : SessionState → Bool
is_completed SessionState.completed = true
is_completed SessionState.report_generating = true
is_completed SessionState.reviewable = true
is_completed _ = false

pub record InterviewSession : Type 0 where
  pub interview_session_id : OpaqueId
  pub scope : ApplicantScope
  pub interview_strategy_id : OpaqueId
  pub competency_model_version_id : OpaqueId
  pub state : SessionState
  pub session_sequence : ℕ
  pub row_version : ℕ
  pub created_at : Instant
  pub started_at : Option Instant
  pub completed_at : Option Instant
  pub degraded_modes : List Text

abbrev pub is_some {ℓ} : {A : Type ℓ} → Option A → Bool
is_some none = false
is_some (some _) = true

-- `len(modes) != len(set(modes))`
unfoldable pub has_duplicates : List Text → Bool
has_duplicates [] = false
has_duplicates (m ∷ ms) = any (eq m) ms || has_duplicates ms

-- `not mode or any(character.isspace() for character in mode)`
unfoldable pub is_unsafe_mode : Text → Bool
unfolding has_space
is_unsafe_mode [] = true
is_unsafe_mode (c ∷ cs) = has_space (c ∷ cs)

-- `InterviewSession.__post_init__`, which every construction and every `replace` runs. Identifiers
-- and instants are of their types already; a sequence is a natural number.
unfoldable pub post_init : InterviewSession → Outcome InterviewSession
unfolding has_duplicates is_unsafe_mode
post_init s = do
  raise_if (ltb s.row_version 1) (value_error "row_version must be positive")
  raise_if (is_some s.completed_at && not (is_some s.started_at))
      (value_error "completed sessions require started_at")
  raise_if (is_completed s.state && not (is_some s.completed_at))
      (value_error "completed session states require completed_at")
  raise_if (not (is_completed s.state) && is_some s.completed_at)
      (value_error "active session states cannot have completed_at")
  raise_if (has_duplicates s.degraded_modes)
      (value_error "degraded_modes must not contain duplicates")
  raise_if (any is_unsafe_mode s.degraded_modes)
      (value_error "degraded_modes must contain safe non-empty codes")
  ok s

unfoldable pub with_degraded_mode : InterviewSession → Text → Outcome InterviewSession
unfolding post_init
with_degraded_mode s mode =
    if any (eq mode) s.degraded_modes
    then ok s
    else post_init (record s { degraded_modes = s.degraded_modes ++ mode ∷ [] })

-- `checked_target in _ALLOWED_TRANSITIONS[state]`
abbrev pub allowed : SessionState → SessionState → Bool
allowed SessionState.preparing SessionState.in_progress = true
allowed SessionState.preparing SessionState.paused = true
allowed SessionState.in_progress SessionState.awaiting_answer = true
allowed SessionState.in_progress SessionState.preparing_question = true
allowed SessionState.in_progress SessionState.paused = true
allowed SessionState.awaiting_answer SessionState.preparing_question = true
allowed SessionState.awaiting_answer SessionState.paused = true
allowed SessionState.preparing_question SessionState.awaiting_answer = true
allowed SessionState.preparing_question SessionState.paused = true
allowed SessionState.paused SessionState.in_progress = true
allowed SessionState.paused SessionState.awaiting_answer = true
allowed SessionState.paused SessionState.preparing_question = true
allowed SessionState.paused SessionState.completed = true
allowed SessionState.completed SessionState.report_generating = true
allowed SessionState.report_generating SessionState.reviewable = true
allowed _ _ = false

abbrev or_now : Option Instant → Instant → Option Instant
or_now none now = some now
or_now (some t) now = some t

-- `started_at` of the session after a transition at `now`.
abbrev pub next_started_at : SessionState → Option Instant → Instant → Option Instant
next_started_at SessionState.in_progress started_at now = or_now started_at now
next_started_at SessionState.completed started_at now = or_now started_at now
next_started_at _ started_at now = started_at

abbrev pub next_completed_at : SessionState → Option Instant → Instant → Option Instant
next_completed_at SessionState.completed completed_at now = some now
next_completed_at _ completed_at now = completed_at

-- `SessionStateMachine.transition`, with the clock's reading.
unfoldable pub transition :
    Instant
    → InterviewSession
    → (expected_sequence : ℕ) → (target : SessionState) → Outcome InterviewSession
unfolding post_init
transition now s expected_sequence target = do
  raise_if (not (s.session_sequence == expected_sequence)) (value_error "stale session sequence")
  raise_if (not (allowed s.state target)) (value_error "session transition is not allowed")
  post_init (record s {
    state = target;
    session_sequence = s.session_sequence + 1;
    row_version = s.row_version + 1;
    started_at = next_started_at target s.started_at now;
    completed_at = next_completed_at target s.completed_at now;
  })

-- `==` of two states
abbrev pub state_eq : SessionState → SessionState → Bool
state_eq SessionState.preparing SessionState.preparing = true
state_eq SessionState.in_progress SessionState.in_progress = true
state_eq SessionState.awaiting_answer SessionState.awaiting_answer = true
state_eq SessionState.preparing_question SessionState.preparing_question = true
state_eq SessionState.paused SessionState.paused = true
state_eq SessionState.completed SessionState.completed = true
state_eq SessionState.report_generating SessionState.report_generating = true
state_eq SessionState.reviewable SessionState.reviewable = true
state_eq _ _ = false

pub state_eq_iff : (a b : SessionState) → (state_eq a b ≡ true) ↔ (a ≡ b)
state_eq_iff a b = (λ h. ground arith, λ h. ground arith)
