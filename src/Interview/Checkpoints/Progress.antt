-- ===== src/Interview/Checkpoints/Progress.antt =====
-- The sequence on record never falls.
use gbsa_aws_project.Base.{
  ◌≤◌, ◌<◌, ◌≡◌, refl, some, true, false, arith, Option-cases, Bool-cases, inl, inr, ◌⊎◌, ltb, ◌==◌,
}
use gbsa_aws_project.Base.Equality.{eq, nat_eq, list_eq, pair_eq, pair_beq_iff}
use gbsa_aws_project.Base.Dict.{lookup, insert, lookup-insert}
use gbsa_aws_project.Base.Exec.{ok, err}
use gbsa_aws_project.Shared.Errors.{Outcome, value_error}
use gbsa_aws_project.Shared.Ids.{OpaqueId, Instant}
use gbsa_aws_project.Shared.Tenant.{
  TenantContext, ApplicantScope, SessionKey, session_key, ensure_applicant_scope,
}
use gbsa_aws_project.Shared.Tenant.Isolation.{MayAct, ensure_applicant_scope_iff}
use gbsa_aws_project.Interview.Turn.{SessionCheckpoint}
use gbsa_aws_project.Interview.Checkpoints.{
  CheckpointRecord, CheckpointService, CheckpointRequest, checkpoint_of, record_of, same_state,
  record_over, record_checked, record_checkpoint,
}

-- Every session on record stays on record, with a sequence that is not lower.
abbrev pub Advances : CheckpointService → CheckpointService → Type 0
Advances records records' =
    (j : SessionKey) (old : CheckpointRecord)
    → lookup j records ≡ some old
    → (new : CheckpointRecord) × (lookup j records' ≡ some new)
      × (old.checkpoint.session_sequence ≤ new.checkpoint.session_sequence)

insert-Advances :
    (key : SessionKey) (c : CheckpointRecord) (records : CheckpointService)
    → ((old : CheckpointRecord)
        → lookup key records ≡ some old
        → old.checkpoint.session_sequence ≤ c.checkpoint.session_sequence)
    → Advances records (insert key c records)
insert-Advances key c records up j old at = elim (Bool-cases (eq key j)) [
  | inl same ↦ (
    c,
    ground (arith, lookup-insert j key c records),
    up old (ground (arith, pair_beq_iff key j)),
  )
  | inr other ↦ (old, ground (arith, lookup-insert j key c records), omega arith)
]

record_over-Advances :
    (key : SessionKey) (c : SessionCheckpoint) (r : CheckpointRequest) (records : CheckpointService)
    → c.session_sequence ≡ r.session_sequence
    → Advances records (record_over key c r (lookup key records) records).1
unfolding record_over
record_over-Advances key c r records same = elim (Option-cases (lookup key records)) [
  | inl new ↦ rw new (insert-Advances key (record_of c r) records (λ old at. absurd (ground arith)))
  | inr (old, at) ↦ elim (Bool-cases (ltb r.session_sequence old.checkpoint.session_sequence)) [
    | inl stale ↦ rw (at, stale) (λ j x e. (x, e, omega arith))
    | inr fresh ↦ elim (Bool-cases (old.checkpoint.session_sequence == r.session_sequence)) [
      | inl repeated ↦ elim (Bool-cases (same_state old r)) [
        | inl agrees ↦ rw (at, fresh, repeated, agrees) (λ j x e. (x, e, omega arith))
        | inr differs ↦ rw (at, fresh, repeated, differs) (λ j x e. (x, e, omega arith))
      ]
      | inr later ↦
          rw (at, fresh, later) (insert-Advances key (record_of c r) records (λ x e. ground arith))
    ]
  ]
]

record_checked-Advances :
    (key : SessionKey) (c : SessionCheckpoint) (r : CheckpointRequest)
    (checked : Outcome ApplicantScope) (records : CheckpointService)
    → c.session_sequence ≡ r.session_sequence
    → Advances records (record_checked key c r checked records).1
unfolding record_checked
record_checked-Advances key c r (ok _) records same = record_over-Advances key c r records same
record_checked-Advances key c r (err _) records same = λ j x e. (x, e, omega arith)

-- Whatever is recorded and however it ends, no session leaves the record and no sequence on record
-- falls.
pub record_checkpoint-Advances :
    (context : TenantContext) (scope : ApplicantScope) (session_id checkpoint_id : OpaqueId)
    (now : Instant) (r : CheckpointRequest) (records : CheckpointService)
    → Advances records (record_checkpoint context scope session_id checkpoint_id now r records).1
unfolding record_checkpoint
record_checkpoint-Advances context scope session_id checkpoint_id now r records =
    record_checked-Advances (session_key scope session_id)
      (checkpoint_of scope session_id checkpoint_id now r) r
      (ensure_applicant_scope (some context) scope) records refl

-- For an actor of the scope and a session on record: a request below the sequence on record is
-- refused as stale, one at that sequence is answered with the old checkpoint if it agrees with it
-- and refused if it does not, all without a change; a later one replaces the record.
pub record_checkpoint_cases :
    (context : TenantContext) (scope : ApplicantScope) (session_id checkpoint_id : OpaqueId)
    (now : Instant) (r : CheckpointRequest) (records : CheckpointService) (old : CheckpointRecord)
    → MayAct context scope
    → lookup (session_key scope session_id) records ≡ some old
    → let outcome = record_checkpoint context scope session_id checkpoint_id now r records in
      let made = checkpoint_of scope session_id checkpoint_id now r in
      ((r.session_sequence < old.checkpoint.session_sequence)
        × (outcome ≡ (err (value_error "stale checkpoint sequence"), records)))
      ⊎ ((r.session_sequence ≡ old.checkpoint.session_sequence)
          × (same_state old r ≡ true)
          × (outcome ≡ (ok old.checkpoint, records)))
      ⊎ ((r.session_sequence ≡ old.checkpoint.session_sequence)
          × (same_state old r ≡ false)
          × (outcome
              ≡ (err (value_error "checkpoint sequence already records different state"), records)))
      ⊎ ((old.checkpoint.session_sequence < r.session_sequence)
          × (outcome ≡ (ok made, insert (session_key scope session_id) (record_of made r) records)))
unfolding record_checkpoint record_checked record_over
record_checkpoint_cases context scope session_id checkpoint_id now r records old may at =
    rw ((ensure_applicant_scope_iff context scope).1 may, at)
      elim (Bool-cases (ltb r.session_sequence old.checkpoint.session_sequence)) [
        | inl stale ↦ inl (ground arith, rw stale)
        | inr fresh ↦ elim (Bool-cases (old.checkpoint.session_sequence == r.session_sequence)) [
          | inl level ↦ elim (Bool-cases (same_state old r)) [
            | inl agrees ↦ inr (inl (ground arith, agrees, rw (fresh, level, agrees)))
            | inr differs ↦ inr (inr (inl (ground arith, differs, rw (fresh, level, differs))))
          ]
          | inr later ↦ inr (inr (inr (ground arith, rw (fresh, later))))
        ]
      ]

-- A checkpoint that is later than what is on record is recorded.
pub record_checkpoint_later :
    (context : TenantContext) (scope : ApplicantScope) (session_id checkpoint_id : OpaqueId)
    (now : Instant) (r : CheckpointRequest) (records : CheckpointService)
    → MayAct context scope
    → ((c : CheckpointRecord)
        → lookup (session_key scope session_id) records ≡ some c
        → c.checkpoint.session_sequence < r.session_sequence)
    → let made = checkpoint_of scope session_id checkpoint_id now r in
      record_checkpoint context scope session_id checkpoint_id now r records
      ≡ (ok made, insert (session_key scope session_id) (record_of made r) records)
unfolding record_checkpoint record_checked record_over
record_checkpoint_later context scope session_id checkpoint_id now r records may later =
    rw ((ensure_applicant_scope_iff context scope).1 may)
      (elim (Option-cases (lookup (session_key scope session_id) records)) [
        | inl new ↦ rw new refl
        | inr (c, old) ↦ let l = later c old in rw old (ground arith)
      ])
