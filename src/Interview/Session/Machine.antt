-- ===== src/Interview/Session/Machine.antt =====
-- A session's transitions keep it well formed and count its sequence up.
use gbsa_aws_project.Base.{◌⊎◌, ◌&&◌, not, inl, inr, Bool-cases, ◌==◌}
use gbsa_aws_project.Base.{
  none, some, ℕ, ◌+◌, ◌≤◌, ◌≡◌, refl, true, false, Option, any, arith, ◌↔◌, ◌≢◌,
}
use gbsa_aws_project.Base.Equality.{nat_eq, list_eq}
use gbsa_aws_project.Base.Exec.{ok, err}
use gbsa_aws_project.Shared.Errors.{value_error}
use gbsa_aws_project.Shared.Ids.{Instant}
use gbsa_aws_project.Interview.Session.{
  SessionState, InterviewSession, is_completed, is_some, has_duplicates, is_unsafe_mode, post_init,
  allowed, next_started_at, next_completed_at, transition,
}

-- What holds of every session that was constructed.
pub record IsValid (s : InterviewSession) : Type 0 where
  pub versioned : 1 ≤ s.row_version
  pub started : (is_some s.completed_at && not (is_some s.started_at)) ≡ false
  pub finished : is_completed s.state ≡ is_some s.completed_at
  pub distinct : has_duplicates s.degraded_modes ≡ false
  pub safe : any is_unsafe_mode s.degraded_modes ≡ false

-- The constructor accepts exactly the well-formed sessions, and changes none.
pub post_init_iff : (s : InterviewSession) → (post_init s ≡ ok s) ↔ IsValid s
unfolding post_init
post_init_iff s = (
  λ h. record {
    versioned = ground arith;
    started = ground arith;
    finished = ground arith;
    distinct = ground arith;
    safe = ground arith;
  },
  λ v. ground arith,
)

-- The states that a session may move to.
pub Leads : SessionState → SessionState → Type 0
Leads SessionState.preparing to = (to ≡ SessionState.in_progress) ⊎ (to ≡ SessionState.paused)
Leads SessionState.in_progress to =
    (to ≡ SessionState.awaiting_answer)
    ⊎ (to ≡ SessionState.preparing_question)
    ⊎ (to ≡ SessionState.paused)
Leads SessionState.awaiting_answer to =
    (to ≡ SessionState.preparing_question) ⊎ (to ≡ SessionState.paused)
Leads SessionState.preparing_question to =
    (to ≡ SessionState.awaiting_answer) ⊎ (to ≡ SessionState.paused)
Leads SessionState.paused to =
    (to ≡ SessionState.in_progress)
    ⊎ (to ≡ SessionState.awaiting_answer)
    ⊎ (to ≡ SessionState.preparing_question)
    ⊎ (to ≡ SessionState.completed)
Leads SessionState.completed to = to ≡ SessionState.report_generating
Leads SessionState.report_generating to = to ≡ SessionState.reviewable
Leads SessionState.reviewable to = ⊥

allowed-Leads : (from to : SessionState) → allowed from to ≡ true → Leads from to
unfolding Leads
allowed-Leads from to h = ground arith

Leads-allowed : (from to : SessionState) → Leads from to → allowed from to ≡ true
unfolding Leads
Leads-allowed from to h = ground arith

started_at_kept :
    (target : SessionState) (started_at : Option Instant) (now t : Instant)
    → started_at ≡ some t
    → next_started_at target started_at now ≡ some t
started_at_kept target started_at now t h = ground arith

started_at_first :
    (target : SessionState) (started_at : Option Instant) (now : Instant)
    → started_at ≡ none
    → (target ≡ SessionState.in_progress) ⊎ (target ≡ SessionState.completed)
    → next_started_at target started_at now ≡ some now
started_at_first target started_at now h at = ground arith

started_at_waits :
    (target : SessionState) (started_at : Option Instant) (now : Instant)
    → target ≢ SessionState.in_progress
    → target ≢ SessionState.completed
    → next_started_at target started_at now ≡ started_at
started_at_waits target started_at now h k = ground arith

completed_at_kept :
    (target : SessionState) (completed_at : Option Instant) (now : Instant)
    → target ≢ SessionState.completed
    → next_completed_at target completed_at now ≡ completed_at
completed_at_kept target completed_at now h = ground arith

-- What a transition to `target` makes of `s`.
pub record Moved (now : Instant) (target : SessionState) (s s' : InterviewSession) : Type 0 where
  pub valid : IsValid s'
  pub state : s'.state ≡ target
  pub sequence : s'.session_sequence ≡ s.session_sequence + 1
  pub version : s'.row_version ≡ s.row_version + 1
  pub edge : Leads s.state target
  -- the start, once it is set, is kept; entering the interview or completing it sets it
  pub kept_start : (t : Instant) → s.started_at ≡ some t → s'.started_at ≡ some t
  pub first_start :
      s.started_at ≡ none
      → (target ≡ SessionState.in_progress) ⊎ (target ≡ SessionState.completed)
      → s'.started_at ≡ some now
  pub no_start :
      target ≢ SessionState.in_progress
      → target ≢ SessionState.completed
      → s'.started_at ≡ s.started_at
  pub completes : target ≡ SessionState.completed → s'.completed_at ≡ some now
  pub not_completes : target ≢ SessionState.completed → s'.completed_at ≡ s.completed_at
  pub ident : s'.interview_session_id ≡ s.interview_session_id
  pub scope : s'.scope ≡ s.scope
  pub degraded_modes : s'.degraded_modes ≡ s.degraded_modes

abbrev moved : Instant → SessionState → InterviewSession → InterviewSession
moved now target s = record s {
  state = target;
  session_sequence = s.session_sequence + 1;
  row_version = s.row_version + 1;
  started_at = next_started_at target s.started_at now;
  completed_at = next_completed_at target s.completed_at now;
}

completed-moved :
    (now : Instant) (from to : SessionState) (started_at completed_at : Option Instant)
    → allowed from to ≡ true
    → is_completed from ≡ is_some completed_at
    → (is_some completed_at && not (is_some started_at)) ≡ false
    → (is_completed to ≡ is_some (next_completed_at to completed_at now))
      × ((is_some (next_completed_at to completed_at now)
            && not (is_some (next_started_at to started_at now)))
          ≡ false)
completed-moved now from to started_at completed_at h same started = ground arith

moved-IsValid :
    (now : Instant) (target : SessionState) (s : InterviewSession)
    → IsValid s
    → allowed s.state target ≡ true
    → IsValid (moved now target s)
moved-IsValid now target s v h =
    let (finished, started) =
      completed-moved now s.state target s.started_at s.completed_at h v.finished v.started in
    record {
      versioned = omega arith;
      started = started;
      finished = finished;
      distinct = v.distinct;
      safe = v.safe;
    }

-- A well-formed session at the expected sequence moves along an allowed transition: the result is
-- well formed, in the target state, with sequence and row version one higher; `started_at` is set
-- on the first move into the interview or to its end, `completed_at` on completion, and nothing
-- else changes.
pub transition_moves :
    (now : Instant) (s : InterviewSession) (target : SessionState)
    → IsValid s
    → allowed s.state target ≡ true
    → (s' : InterviewSession) × (transition now s s.session_sequence target ≡ ok s')
      × Moved now target s s'
unfolding transition
transition_moves now s target v h =
    let v' = moved-IsValid now target s v h in
    (
      moved now target s,
      ground (arith, (post_init_iff (moved now target s)).1 v'),
      record {
        valid = v';
        state = refl;
        sequence = refl;
        version = refl;
        edge = allowed-Leads s.state target h;
        kept_start = started_at_kept target s.started_at now;
        first_start = started_at_first target s.started_at now;
        no_start = started_at_waits target s.started_at now;
        completes = λ done. rw done refl;
        not_completes = completed_at_kept target s.completed_at now;
        ident = refl;
        scope = refl;
        degraded_modes = refl;
      },
    )

-- Every outcome of a transition of a well-formed session: a stale sequence is refused first, then a
-- target that the state does not lead to, and otherwise the session moves to a well-formed session
-- in the target state, with sequence and row version one higher. A `started_at` that was set is
-- kept; one that was not is set on a move to `in_progress` or `completed`, and stays unset on any
-- other. `completed_at` is set on a move to `completed` and kept on any other. Identifier, scope and
-- modes are as before.
pub transition_cases :
    (now : Instant) (s : InterviewSession) (expected : ℕ) (target : SessionState)
    → IsValid s
    → ((s.session_sequence ≢ expected)
        × (transition now s expected target ≡ err (value_error "stale session sequence")))
      ⊎ ((s.session_sequence ≡ expected)
          × (allowed s.state target ≡ false)
          × (¬ Leads s.state target)
          × (transition now s expected target
              ≡ err (value_error "session transition is not allowed")))
      ⊎ ((s.session_sequence ≡ expected)
          × (allowed s.state target ≡ true)
          × ((s' : InterviewSession) × (transition now s expected target ≡ ok s')
              × Moved now target s s'))
unfolding transition
transition_cases now s expected target v = elim (Bool-cases (s.session_sequence == expected)) [
  | inr stale ↦ inl (ground arith, ground arith)
  | inl level ↦
      let e : s.session_sequence ≡ expected = ground arith in
      elim (Bool-cases (allowed s.state target)) [
        | inr refused ↦ inr (
            inl (
              e,
              refused,
              λ l. let fits = Leads-allowed s.state target l in absurd (ground arith),
              ground arith,
            ))
        | inl fits ↦
            let (t, moves, m) = transition_moves now s target v fits in
            inr (inr (e, fits, (t, ground arith, m)))
      ]
]
