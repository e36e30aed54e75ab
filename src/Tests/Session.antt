-- ===== src/Tests/Session.antt =====
-- A session's life.
use gbsa_aws_project.Base.{◌≡◌, ◌≢◌, ◌⊎◌, refl, true, false, some, arith}
use gbsa_aws_project.Base.Equality.{nat_eq, list_eq}
use gbsa_aws_project.Base.Exec.{ok, err}
use gbsa_aws_project.Shared.Errors.{value_error}
use gbsa_aws_project.Interview.Session.{
  allowed, SessionState, InterviewSession, is_unsafe_mode, has_duplicates, transition,
}
use gbsa_aws_project.Interview.Session.Machine.{
  IsValid, Leads, Moved, transition_moves, transition_cases,
}
use gbsa_aws_project.Interview.Session.History.{Reach, here, next, Later, Reach-Later}
use gbsa_aws_project.Tests.Samples.{session}

session-IsValid : IsValid session
unfolding has_duplicates is_unsafe_mode
session-IsValid = record {
  versioned = omega arith;
  started = refl;
  finished = refl;
  distinct = refl;
  safe = refl;
}

transition_moves_example :
    (s : InterviewSession) × (transition 150 session 0 SessionState.in_progress ≡ ok s)
    × Moved 150 SessionState.in_progress session s
transition_moves_example =
    transition_moves 150 session SessionState.in_progress session-IsValid refl

transition_cases_example :
    ((session.session_sequence ≢ 0)
      × (transition 150 session 0 SessionState.completed
          ≡ err (value_error "stale session sequence")))
    ⊎ ((session.session_sequence ≡ 0)
        × (allowed SessionState.preparing SessionState.completed ≡ false)
        × (¬ Leads SessionState.preparing SessionState.completed)
        × (transition 150 session 0 SessionState.completed
            ≡ err (value_error "session transition is not allowed")))
    ⊎ ((session.session_sequence ≡ 0)
        × (allowed SessionState.preparing SessionState.completed ≡ true)
        × ((s : InterviewSession) × (transition 150 session 0 SessionState.completed ≡ ok s)
            × Moved 150 SessionState.completed session s))
transition_cases_example = transition_cases 150 session 0 SessionState.completed session-IsValid

abbrev paused_session : InterviewSession
paused_session = record session {
  state = SessionState.paused;
  session_sequence = 1;
  row_version = 2;
}

abbrev completed_session : InterviewSession
completed_session = record session {
  state = SessionState.completed;
  session_sequence = 2;
  row_version = 3;
  started_at = some 300;
  completed_at = some 300;
}

completed_run : Reach session completed_session
unfolding transition
completed_run =
    next {t = paused_session} 300 1 SessionState.completed
      (next {t = session} 200 0 SessionState.paused here refl) refl

Reach-Later_example : Later session completed_session
Reach-Later_example = Reach-Later session completed_session session-IsValid completed_run
