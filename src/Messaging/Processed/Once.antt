-- ===== src/Messaging/Processed/Once.antt =====
-- A message is processed once.
use gbsa_aws_project.Base.{
  ◌≡◌, refl, sym, ◌∙◌, subst, true, some, List, arith, inl, inr, Bool-cases, Option-cases,
}
use gbsa_aws_project.Base.Equality.{nat_eq, list_eq, pair_eq, eq→≡}
use gbsa_aws_project.Base.Exec.{ok, err}
use gbsa_aws_project.Shared.Errors.{Outcome}
use gbsa_aws_project.Shared.Tenant.{TenantContext, ensure_company_scope}
use gbsa_aws_project.Messaging.Registry.Log.{
  Represents, Distinct, Logged, clash, append_value, log_value, register-Represents,
  Logged-Represents, Logged-Distinct,
}
use gbsa_aws_project.Messaging.Processed.{
  ProcessedMessage, MessageStore, message_event_key, message_idempotency_key, is_same_message,
  record_message,
}

-- What a consumer is told: a message of the outcome, the event and the key that it asked for.
pub record IsAnswer (m w : ProcessedMessage) : Type 0 where
  pub outcome : w.outcome_digest ≡ m.outcome_digest
  pub event : w.event_id ≡ m.event_id
  pub version : w.event_version ≡ m.event_version
  pub key : w.idempotency_key ≡ m.idempotency_key

same-IsAnswer : (w m : ProcessedMessage) → is_same_message w m ≡ true → IsAnswer m w
unfolding is_same_message
same-IsAnswer w m h = record {
  outcome = eq→≡ w.outcome_digest m.outcome_digest (ground arith);
  event = ground arith;
  version = ground arith;
  key = eq→≡ w.idempotency_key m.idempotency_key (ground arith);
}

log_value-IsAnswer :
    (m : ProcessedMessage) (o : Outcome TenantContext) (log : List ProcessedMessage)
    (w : ProcessedMessage)
    → (log_value message_event_key message_idempotency_key is_same_message m o log).0 ≡ ok w
    → IsAnswer m w
unfolding log_value append_value
log_value-IsAnswer m (err x) log w h = absurd (ground arith)
log_value-IsAnswer m (ok c) log w h =
    elim (Option-cases (clash message_event_key message_idempotency_key m log)) [
      | inl new ↦
          let h' = rw new at h in
          let p : m ≡ w = ground arith in
          subst (IsAnswer m) p (record { outcome = refl; event = refl; version = refl; key = refl })
      | inr (old, found) ↦ elim (Bool-cases (is_same_message old m)) [
        | inr other ↦ let h' = rw (found, other) at h in absurd (ground arith)
        | inl same ↦
            let h' = rw (found, same) at h in
            let p : old ≡ w = ground arith in subst (IsAnswer m) p (same-IsAnswer old m same)
      ]
    ]

-- Whatever was recorded: no two messages of a consumer on record have the same event and version or
-- the same key, the next message leaves the log of the new ones that it leaves, and an answer is of
-- the outcome, event, version and key that were asked for.
pub record_message_once :
    (store : MessageStore) (log : List ProcessedMessage) (context : TenantContext)
    (m : ProcessedMessage)
    → Logged message_event_key message_idempotency_key is_same_message store log
    → let next =
        log_value message_event_key message_idempotency_key is_same_message m
          (ensure_company_scope (some context) m.company_id)
          log in
      Distinct message_event_key message_idempotency_key log
      × Represents message_event_key message_idempotency_key
          (record_message context m store).1
          next.1
      × ((w : ProcessedMessage) → (record_message context m store).0 ≡ ok w → IsAnswer m w)
unfolding record_message
record_message_once store log context m l =
    let r =
      Logged-Represents message_event_key message_idempotency_key is_same_message store log l in
    let (answer, left) =
      register-Represents message_event_key message_idempotency_key is_same_message m store log r
        (ensure_company_scope (some context) m.company_id) in
    (
      Logged-Distinct message_event_key message_idempotency_key is_same_message store log l,
      left,
      λ w told.
          log_value-IsAnswer m (ensure_company_scope (some context) m.company_id) log w
            (sym answer ∙ told),
    )
