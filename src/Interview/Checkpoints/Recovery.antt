-- ===== src/Interview/Checkpoints/Recovery.antt =====
-- What a client recovers from the checkpoint of its session.
use gbsa_aws_project.Base.{
  ℕ, ◌≡◌, subst, refl, Option, some, true, arith, Option-cases, Bool-cases, inl, inr, if◌then◌else◌,
  ltb, ◌==◌,
}
use gbsa_aws_project.Base.Equality.{nat_eq, list_eq, pair_eq, list_beq_iff}
use gbsa_aws_project.Base.Dict.{lookup, insert, lookup-insert_self}
use gbsa_aws_project.Base.Exec.{ok}
use gbsa_aws_project.Shared.Ids.{OpaqueId, Instant}
use gbsa_aws_project.Shared.Tenant.{TenantContext, ApplicantScope, SessionKey, session_key}
use gbsa_aws_project.Shared.Tenant.Isolation.{MayAct, ensure_applicant_scope_iff}
use gbsa_aws_project.Interview.Session.{state_eq_iff}
use gbsa_aws_project.Interview.Turn.{SessionCheckpoint}
use gbsa_aws_project.Interview.Checkpoints.{
  ResumeSnapshot, CheckpointRecord, CheckpointService, CheckpointRequest, option_beq, checkpoint_of,
  record_of, same_state, record_over, record_checked, record_checkpoint, is_paused, snapshot_of,
  resume, paused_messages, active_messages,
}

option_beq_sound : (a b : Option ℕ) → option_beq a b ≡ true → a ≡ b
option_beq_sound a b h = ground arith

-- The record that a request asks for agrees with `c`.
record Agrees (r : CheckpointRequest) (c : CheckpointRecord) : Type 0 where
  sequence : c.checkpoint.session_sequence ≡ r.session_sequence
  last_final : c.checkpoint.last_final_turn_id ≡ r.last_final_turn_id
  media : c.checkpoint.last_media_chunk_sequence ≡ r.last_media_chunk_sequence
  pending : c.checkpoint.pending_turn_id ≡ r.pending_turn_id
  state : c.state ≡ r.state
  modes : c.degraded_modes ≡ r.degraded_modes

same_state-Agrees :
    (c : CheckpointRecord) (r : CheckpointRequest)
    → same_state c r ≡ true
    → c.checkpoint.session_sequence ≡ r.session_sequence
    → Agrees r c
unfolding same_state
same_state-Agrees c r h e = record {
  sequence = e;
  last_final =
      ground (arith, option_beq_sound c.checkpoint.last_final_turn_id r.last_final_turn_id);
  media = ground arith;
  pending = ground (arith, option_beq_sound c.checkpoint.pending_turn_id r.pending_turn_id);
  state = ground (arith, state_eq_iff c.state r.state);
  modes = ground (arith, list_beq_iff c.degraded_modes r.degraded_modes);
}

-- The snapshot that a request promises to a client at `client_sequence`.
abbrev pub requested_snapshot : OpaqueId → CheckpointRequest → ℕ → ResumeSnapshot
requested_snapshot session_id r client_sequence = record {
  interview_session_id = session_id;
  state = r.state;
  server_sequence = r.session_sequence;
  last_final_turn_id = r.last_final_turn_id;
  pending_turn_id = r.pending_turn_id;
  last_verified_recording_chunk_sequence = r.last_media_chunk_sequence;
  degraded_modes = r.degraded_modes;
  stale_client = ltb client_sequence r.session_sequence;
  allowed_client_messages = if is_paused r.state then paused_messages else active_messages;
}

Agrees-snapshot :
    (session_id : OpaqueId) (r : CheckpointRequest) (c : CheckpointRecord) (client : ℕ)
    → Agrees r c
    → snapshot_of session_id c client ≡ requested_snapshot session_id r client
Agrees-snapshot session_id r c client a =
    cc (a.sequence, a.last_final, a.media, a.pending, a.state, a.modes)

module _ (scope : ApplicantScope) (session_id checkpoint_id : OpaqueId) (now : Instant)
    (r : CheckpointRequest) (records : CheckpointService) where
  abbrev key : SessionKey
  key = session_key scope session_id

  abbrev made : SessionCheckpoint
  made = checkpoint_of scope session_id checkpoint_id now r

  made-Agrees : Agrees r (record_of made r)
  made-Agrees = record {
    sequence = refl;
    last_final = refl;
    media = refl;
    pending = refl;
    state = refl;
    modes = refl;
  }

  abbrev Recorded : CheckpointService → Type 0
  Recorded m = (found : CheckpointRecord) × (lookup key m ≡ some found) × Agrees r found

  inserted :
      (found : CheckpointRecord) × (lookup key (insert key (record_of made r) records) ≡ some found)
      × Agrees r found
  inserted = (record_of made r, lookup-insert_self key (record_of made r) records, made-Agrees)

  record_over-Agrees :
      {records' : CheckpointService} {c : SessionCheckpoint}
      → record_over key made r (lookup key records) records ≡ (ok c, records')
      → (found : CheckpointRecord) × (lookup key records' ≡ some found) × Agrees r found
  unfolding record_over
  record_over-Agrees {records'} h = elim (Option-cases (lookup key records)) [
    | inl new ↦
        let e : insert key (record_of made r) records ≡ records' = ground arith in
        subst Recorded {x = insert key (record_of made r) records} e inserted
    | inr (old, at) ↦ elim (Bool-cases (ltb r.session_sequence old.checkpoint.session_sequence)) [
      | inl stale ↦ absurd (ground arith)
      | inr fresh ↦ elim (Bool-cases (old.checkpoint.session_sequence == r.session_sequence)) [
        | inl same ↦
            let e : records ≡ records' = ground arith in
            (
              old,
              subst (λ m. lookup key m ≡ some old) {x = records} e at,
              same_state-Agrees old r (ground arith) (ground arith),
            )
        | inr later ↦
            let e : insert key (record_of made r) records ≡ records' = ground arith in
            subst Recorded {x = insert key (record_of made r) records} e inserted
      ]
    ]
  ]

  -- A checkpoint that was recorded, be it new or a repetition of the one on record, is what the
  -- session's scope resumes from: state, sequence, turns, chunk and modes are those of the request,
  -- and the client is stale exactly when its sequence is lower.
  pub resume-record :
      (context context' : TenantContext) (client : ℕ) {records' : CheckpointService}
      {c : SessionCheckpoint}
      → record_checkpoint context scope session_id checkpoint_id now r records ≡ (ok c, records')
      → MayAct context' scope
      → resume context' scope session_id client records'
        ≡ ok (requested_snapshot session_id r client)
  unfolding record_checkpoint record_checked resume
  resume-record context context' client {records'} {c} h may =
      let (found, at, agrees) = record_over-Agrees {records' = records'} {c = c} (ground arith) in
      ground (
        arith,
        at,
        Agrees-snapshot session_id r found client agrees,
        (ensure_applicant_scope_iff context' scope).1 may,
      )
