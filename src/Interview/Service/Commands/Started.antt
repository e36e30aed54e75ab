-- ===== src/Interview/Service/Commands/Started.antt =====
-- How a session is created and started.
use gbsa_aws_project.Base.{
  ℕ, ◌+◌, ◌≡◌, ◌≢◌, ◌⊎◌, refl, sym, ◌∙◌, subst, true, false, none, some, [], arith, inl, inr,
  Bool-cases,
}
use gbsa_aws_project.Base.Equality.{eq, eq→≡, nat_eq, list_eq, pair_eq}
use gbsa_aws_project.Base.Dict.{lookup, lookup-insert, insert-Holds}
use gbsa_aws_project.Base.Exec.{ok, err}
use gbsa_aws_project.Shared.Errors.{value_error}
use gbsa_aws_project.Shared.Ids.{OpaqueId, Instant}
use gbsa_aws_project.Shared.Tenant.{TenantContext, ApplicantScope, session_key}
use gbsa_aws_project.Shared.Tenant.Isolation.{MayAct}
use gbsa_aws_project.Interview.Session.{SessionState, InterviewSession, has_duplicates, allowed}
use gbsa_aws_project.Interview.Session.Machine.{IsValid, transition_moves, transition_cases}
use gbsa_aws_project.Interview.Checkpoints.{CheckpointRecord, checkpoint_of, record_of}
use gbsa_aws_project.Interview.Service.{InterviewService}
use gbsa_aws_project.Interview.Service.Invariant.{
  IsFiled, IsConsistent, AreNumbered, stored, stored-IsConsistent,
}
use gbsa_aws_project.Interview.Service.Commands.{
  checkpointed, request_of, started, store_started, start, create,
}
use gbsa_aws_project.Interview.Service.Commands.Stored.{
  get_session_found, get_session_cases, own_id, same_key, later_recorded,
}
use gbsa_aws_project.Interview.Service.Finalize.Presenting.{IsAwaiting}

new_IsValid :
    (scope : ApplicantScope) (session_id strategy_id version_id : OpaqueId) (now : Instant)
    → IsValid (record {
      interview_session_id = session_id;
      scope = scope;
      interview_strategy_id = strategy_id;
      competency_model_version_id = version_id;
      state = SessionState.preparing;
      session_sequence = 0;
      row_version = 1;
      created_at = now;
      started_at = none;
      completed_at = none;
      degraded_modes = [];
    })
unfolding has_duplicates
new_IsValid scope session_id strategy_id version_id now = record {
  versioned = omega arith;
  started = refl;
  finished = refl;
  distinct = refl;
  safe = refl;
}

-- A new session, of an identifier that no session on record and no checkpoint has, keeps the
-- service consistent.
pub create-IsConsistent :
    (scope : ApplicantScope) (session_id strategy_id version_id : OpaqueId) (now : Instant)
    (service : InterviewService)
    → IsConsistent service
    → lookup (session_key scope session_id) service.checkpoints ≡ none
    → IsConsistent (create scope session_id strategy_id version_id now service).1
unfolding create
create-IsConsistent scope session_id strategy_id version_id now service h new =
    let key = session_key scope session_id in
    let made : InterviewSession = record {
      interview_session_id = session_id;
      scope = scope;
      interview_strategy_id = strategy_id;
      competency_model_version_id = version_id;
      state = SessionState.preparing;
      session_sequence = 0;
      row_version = 1;
      created_at = now;
      started_at = none;
      completed_at = none;
      degraded_modes = [];
    } in
    record {
      filed =
          insert-Holds IsFiled key made service.sessions
            (record {
              valid = new_IsValid scope session_id strategy_id version_id now;
              own_key = refl;
            })
            h.filed;
      numbered = insert-Holds (λ _ ts. AreNumbered 1 ts) key [] service.turns tt h.numbered;
      behind = λ j c found. elim (Bool-cases (eq key j)) [
        | inl same ↦
            let k : key ≡ j = eq→≡ key j same in
            let none_there : lookup j service.checkpoints ≡ none =
              subst (λ i. lookup i service.checkpoints ≡ none) k new in
            absurd (ground arith)
        | inr other ↦
            let (s, at, le) = h.behind j c found in
            (s, ground (arith, lookup-insert j key made service.sessions), le)
      ];
    }

started_cases :
    (expected : ℕ) (started_at awaiting_at : Instant) (s : InterviewSession)
    → IsValid s
    → ((s.session_sequence ≢ expected)
        × (started expected started_at awaiting_at s ≡ err (value_error "stale session sequence")))
      ⊎ ((s.session_sequence ≡ expected)
          × (allowed s.state SessionState.in_progress ≡ false)
          × (started expected started_at awaiting_at s
              ≡ err (value_error "session transition is not allowed")))
      ⊎ ((s.session_sequence ≡ expected)
          × (allowed s.state SessionState.in_progress ≡ true)
          × ((s' : InterviewSession) × (started expected started_at awaiting_at s ≡ ok s')
              × IsAwaiting (s.session_sequence + 2) s s'))
unfolding started
started_cases expected started_at awaiting_at s v =
    elim (transition_cases started_at s expected SessionState.in_progress v) [
      | inl (other, e) ↦ inl (other, rw e refl)
      | inr (inl (level, refused, _, e)) ↦ inr (inl (level, refused, rw e refl))
      | inr (inr (level, fits, (t, e, m))) ↦
          let goes_on : allowed t.state SessionState.awaiting_answer ≡ true = rw m.state refl in
          let (s', goes, n) =
            transition_moves awaiting_at t SessionState.awaiting_answer m.valid goes_on in
          inr (
            inr (
              level,
              fits,
              (
                s',
                rw e goes,
                record {
                  valid = n.valid;
                  state = n.state;
                  sequence = omega (arith, n.sequence, m.sequence);
                  ident = n.ident ∙ m.ident;
                  scope = n.scope ∙ m.scope;
                },
              ),
            ))
    ]

-- The checkpoint of a start.
abbrev pub start_record :
    ApplicantScope → OpaqueId → OpaqueId → Instant → InterviewSession → CheckpointRecord
start_record scope session_id checkpoint_id now s' =
    let r = record (request_of s' none 0 none) { degraded_modes = [] } in
    record_of (checkpoint_of scope session_id checkpoint_id now r) r

-- For an actor of the scope and a session on record: a start at another sequence is refused as stale,
-- one from a state that does not lead to the interview is refused, and both change nothing. Otherwise
-- the session awaits an answer two sequences later, and its checkpoint says so, with no turn.
pub start_cases :
    (context : TenantContext) (scope : ApplicantScope) (session_id : OpaqueId) (expected : ℕ)
    (started_at awaiting_at : Instant) (checkpoint_id : OpaqueId) (now : Instant)
    (service : InterviewService) (s : InterviewSession)
    → IsConsistent service
    → MayAct context scope
    → lookup (session_key scope session_id) service.sessions ≡ some s
    → let key = session_key scope session_id in
      let outcome =
        start context scope session_id expected started_at awaiting_at checkpoint_id now service in
      ((s.session_sequence ≢ expected)
        × (outcome ≡ (err (value_error "stale session sequence"), service)))
      ⊎ ((s.session_sequence ≡ expected)
          × (allowed s.state SessionState.in_progress ≡ false)
          × (outcome ≡ (err (value_error "session transition is not allowed"), service)))
      ⊎ ((s.session_sequence ≡ expected)
          × (allowed s.state SessionState.in_progress ≡ true)
          × ((s' : InterviewSession) × IsAwaiting (s.session_sequence + 2) s s'
              × (outcome ≡ (
                ok s',
                stored key s' (start_record scope session_id checkpoint_id now s') service,
              ))))
unfolding start store_started checkpointed
start_cases context scope session_id expected started_at awaiting_at checkpoint_id now service s h
      may at =
    let key = session_key scope session_id in
    let found = get_session_found context scope session_id service s may at in
    let f = h.filed key s at in
    elim (started_cases expected started_at awaiting_at s f.valid) [
      | inl (other, e) ↦ inl (other, rw (found, e) refl)
      | inr (inl (level, refused, e)) ↦ inr (inl (level, refused, rw (found, e) refl))
      | inr (inr (level, fits, (s', e, n))) ↦
          let r = record (request_of s' none 0 none) { degraded_modes = [] } in
          let own : s'.interview_session_id ≡ session_id = n.ident ∙ own_id scope session_id s f in
          inr (
            inr (
              level,
              fits,
              (
                s',
                n,
                rw (found, e)
                    (rw
                      (
                        own,
                        later_recorded context scope session_id checkpoint_id now s r service h may
                            at (omega (arith, n.sequence)),
                      )
                      refl),
              ),
            ))
    ]

-- A start, however it ends, keeps the service consistent.
pub start-IsConsistent :
    (context : TenantContext) (scope : ApplicantScope) (session_id : OpaqueId) (expected : ℕ)
    (started_at awaiting_at : Instant) (checkpoint_id : OpaqueId) (now : Instant)
    (service : InterviewService)
    → IsConsistent service
    → IsConsistent
        (start context scope session_id expected started_at awaiting_at checkpoint_id now service).1
unfolding start store_started
start-IsConsistent context scope session_id expected started_at awaiting_at checkpoint_id now
      service h =
    let key = session_key scope session_id in
    elim (get_session_cases context scope session_id service) [
      | inl (e, failed) ↦ rw failed h
      | inr (may, (s, at, found)) ↦
          elim (start_cases context scope session_id expected started_at awaiting_at checkpoint_id
            now service s h may at) [
              | inl (_, e) ↦ subst (λ r. IsConsistent r.1) (sym e) h
              | inr (inl (_, _, e)) ↦ subst (λ r. IsConsistent r.1) (sym e) h
              | inr (inr (_, _, (s', n, e))) ↦
                  let f = h.filed key s at in
                  subst (λ r. IsConsistent r.1) (sym e)
                    (stored-IsConsistent key s s'
                      (start_record scope session_id checkpoint_id now s') service h at
                      (omega (arith, n.sequence))
                      (record {
                        valid = n.valid;
                        own_key = same_key s s' n.scope n.ident ∙ f.own_key;
                      })
                      refl)
            ]
    ]
