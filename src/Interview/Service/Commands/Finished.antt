-- ===== src/Interview/Service/Commands/Finished.antt =====
-- How a session is completed.
use gbsa_aws_project.Base.{
  ◌+◌, ◌≡◌, ◌≢◌, ◌⊎◌, refl, sym, ◌∙◌, subst, true, false, Option, none, some, arith, inl, inr,
}
use gbsa_aws_project.Base.Equality.{nat_eq, list_eq, pair_eq}
use gbsa_aws_project.Base.Dict.{lookup}
use gbsa_aws_project.Base.Exec.{ok, err}
use gbsa_aws_project.Shared.Errors.{value_error}
use gbsa_aws_project.Shared.Ids.{OpaqueId}
use gbsa_aws_project.Shared.Tenant.{TenantContext, ApplicantScope, session_key}
use gbsa_aws_project.Shared.Tenant.Isolation.{MayAct}
use gbsa_aws_project.Interview.Session.{SessionState, InterviewSession, allowed, transition}
use gbsa_aws_project.Interview.Session.Machine.{IsValid, Moved, transition_moves, transition_cases}
use gbsa_aws_project.Interview.Turn.{HotViewSyncStatus}
use gbsa_aws_project.Interview.Checkpoints.{CheckpointRecord}
use gbsa_aws_project.Interview.Service.{InterviewService, turn_list}
use gbsa_aws_project.Interview.Service.Invariant.{
  IsConsistent, after, after-IsConsistent, turn_list-AreNumbered,
}
use gbsa_aws_project.Interview.Service.Commands.{
  request_of, Completion, completed, last_final_turn_id, store_completed, complete,
}
use gbsa_aws_project.Interview.Service.Commands.LastFinal.{
  IsLastFinal, last_final_turn_id-IsLastFinal,
}
use gbsa_aws_project.Interview.Service.Commands.Stored.{
  own_id, get_session_found, get_session_cases, checkpointed_later, same_key,
}

-- The session `s'` is `s` completed.
pub record IsCompletionOf (c : Completion) (s s' : InterviewSession) : Type 0 where
  pub valid : IsValid s'
  pub state : s'.state ≡ SessionState.completed
  pub sequence : s'.session_sequence ≡ s.session_sequence + 2
  pub completed_at : s'.completed_at ≡ some c.completed_at
  pub ident : s'.interview_session_id ≡ s.interview_session_id
  pub scope : s'.scope ≡ s.scope
  pub degraded_modes : s'.degraded_modes ≡ s.degraded_modes

paused_Completes :
    (c : Completion) (s t : InterviewSession)
    → Moved c.paused_at SessionState.paused s t
    → (s' : InterviewSession) × (transition c.completed_at t t.session_sequence
          SessionState.completed
        ≡ ok s')
      × IsCompletionOf c s s'
paused_Completes c s t m =
    let at_pause : allowed t.state SessionState.completed ≡ true = rw m.state refl in
    let (s', goes, n) = transition_moves c.completed_at t SessionState.completed m.valid at_pause in
    (
      s',
      goes,
      record {
        valid = n.valid;
        state = n.state;
        sequence = omega (arith, n.sequence, m.sequence);
        completed_at = n.completes refl;
        ident = n.ident ∙ m.ident;
        scope = n.scope ∙ m.scope;
        degraded_modes = n.degraded_modes ∙ m.degraded_modes;
      },
    )

completed_cases :
    (c : Completion) (s : InterviewSession)
    → IsValid s
    → ((s.session_sequence ≢ c.expected_sequence)
        × (completed c s ≡ err (value_error "stale session sequence")))
      ⊎ ((s.session_sequence ≡ c.expected_sequence)
          × (allowed s.state SessionState.paused ≡ false)
          × (completed c s ≡ err (value_error "session transition is not allowed")))
      ⊎ ((s.session_sequence ≡ c.expected_sequence)
          × (allowed s.state SessionState.paused ≡ true)
          × ((s' : InterviewSession) × (completed c s ≡ ok s') × IsCompletionOf c s s'))
unfolding completed
completed_cases c s v =
    elim (transition_cases c.paused_at s c.expected_sequence SessionState.paused v) [
      | inl (other, e) ↦ inl (other, rw e refl)
      | inr (inl (level, refused, _, e)) ↦ inr (inl (level, refused, rw e refl))
      | inr (inr (level, fits, (t, e, m))) ↦
          let (s', goes, n) = paused_Completes c s t m in
          inr (inr (level, fits, (s', rw e goes, n)))
    ]

-- The states that a session is completed from.
abbrev pub IsOpen : SessionState → Type 0
IsOpen state =
    (state ≡ SessionState.preparing)
    ⊎ (state ≡ SessionState.in_progress)
    ⊎ (state ≡ SessionState.awaiting_answer)
    ⊎ (state ≡ SessionState.preparing_question)

fits-IsOpen : (state : SessionState) → allowed state SessionState.paused ≡ true → IsOpen state
fits-IsOpen state h = ground arith

refused-IsOpen : (state : SessionState) → allowed state SessionState.paused ≡ false → ¬ IsOpen state
refused-IsOpen state h at = ground arith

-- The checkpoint of a completion that names the last final answer `final`.
abbrev pub completion_record :
    ApplicantScope → OpaqueId → Completion → InterviewSession → Option OpaqueId → CheckpointRecord
completion_record scope session_id c s' final = record {
  checkpoint = record {
    checkpoint_id = c.checkpoint_id;
    company_id = scope.company_id;
    interview_session_id = session_id;
    session_sequence = s'.session_sequence;
    last_media_chunk_sequence = c.last_recording_chunk_sequence;
    hot_view_sync_status = HotViewSyncStatus.pending;
    created_at = c.checkpoint_at;
    last_final_turn_id = final;
    pending_turn_id = none;
  };
  state = s'.state;
  degraded_modes = s'.degraded_modes;
}

-- For an actor of the scope and a session on record of a consistent service: a completion at another
-- sequence is refused as stale; one of a session that cannot be paused, be it paused already, is
-- refused; both change nothing. Otherwise, so from `preparing`, `in_progress`, `awaiting_answer` and
-- `preparing_question`, the session is completed two sequences later, with the turns it had, and its
-- checkpoint names no pending turn and the last final answer: the last turn of the applicant that is
-- final, or none if there is none.
pub complete_cases :
    (context : TenantContext) (scope : ApplicantScope) (session_id : OpaqueId) (c : Completion)
    (service : InterviewService) (s : InterviewSession)
    → IsConsistent service
    → MayAct context scope
    → lookup (session_key scope session_id) service.sessions ≡ some s
    → let key = session_key scope session_id in
      let outcome = complete context scope session_id c service in
      ((s.session_sequence ≢ c.expected_sequence)
        × (outcome ≡ (err (value_error "stale session sequence"), service)))
      ⊎ ((s.session_sequence ≡ c.expected_sequence)
          × (allowed s.state SessionState.paused ≡ false)
          × (¬ IsOpen s.state)
          × (outcome ≡ (err (value_error "session transition is not allowed"), service)))
      ⊎ ((s.session_sequence ≡ c.expected_sequence)
          × (allowed s.state SessionState.paused ≡ true)
          × IsOpen s.state
          × ((s' : InterviewSession) × (final : Option OpaqueId) × IsCompletionOf c s s'
              × IsLastFinal (turn_list key service) final
              × (outcome ≡ (
                ok s',
                after key s'
                    (turn_list key service)
                    (completion_record scope session_id c s' final)
                    service,
              ))))
unfolding complete store_completed
complete_cases context scope session_id c service s h may at =
    let key = session_key scope session_id in
    let found = get_session_found context scope session_id service s may at in
    let f = h.filed key s at in
    elim (completed_cases c s f.valid) [
      | inl (other, e) ↦ inl (other, rw (found, e) refl)
      | inr (inl (level, refused, e)) ↦
          inr (inl (level, refused, refused-IsOpen s.state refused, rw (found, e) refl))
      | inr (inr (level, fits, (s', e, n))) ↦
          let r =
            request_of s' (last_final_turn_id (turn_list key service))
              c.last_recording_chunk_sequence none in
          inr (
            inr (
              level,
              fits,
              fits-IsOpen s.state fits,
              (
                s',
                last_final_turn_id (turn_list key service),
                n,
                last_final_turn_id-IsLastFinal (turn_list key service),
                rw (found, e)
                    (checkpointed_later s' context scope session_id c.checkpoint_id c.checkpoint_at
                      s s' (turn_list key service) r service h may at (omega (arith, n.sequence))
                      (n.ident ∙ own_id scope session_id s f)),
              ),
            ))
    ]

-- A completion, however it ends, keeps the service consistent.
pub complete-IsConsistent :
    (context : TenantContext) (scope : ApplicantScope) (session_id : OpaqueId) (c : Completion)
    (service : InterviewService)
    → IsConsistent service
    → IsConsistent (complete context scope session_id c service).1
unfolding complete store_completed
complete-IsConsistent context scope session_id c service h =
    let key = session_key scope session_id in
    elim (get_session_cases context scope session_id service) [
      | inl (e, failed) ↦ rw failed h
      | inr (may, (s, at, found)) ↦
          elim (complete_cases context scope session_id c service s h may at) [
            | inl (_, e) ↦ subst (λ r. IsConsistent r.1) (sym e) h
            | inr (inl (_, _, _, e)) ↦ subst (λ r. IsConsistent r.1) (sym e) h
            | inr (inr (_, _, _, (s', final, n, _, e))) ↦
                let f = h.filed key s at in
                subst (λ r. IsConsistent r.1) (sym e)
                  (after-IsConsistent key s s' (turn_list key service)
                    (completion_record scope session_id c s' final) service h at
                    (omega (arith, n.sequence))
                    (record {
                      valid = n.valid;
                      own_key = same_key s s' n.scope n.ident ∙ f.own_key;
                    })
                    (turn_list-AreNumbered key service h) refl)
          ]
    ]
