-- ===== src/Messaging/Outbox/Log.antt =====
-- The outbox against a log of its events.
use gbsa_aws_project.Base.{◌≡◌, Bool, some, List}
use gbsa_aws_project.Base.Equality.{nat_eq, list_eq, pair_eq}
use gbsa_aws_project.Shared.Tenant.{TenantContext, ensure_company_scope}
use gbsa_aws_project.Messaging.Registry.Log.{
  Represents, Distinct, Logged, log_value, register-Represents, Logged-Represents, Logged-Distinct,
}
use gbsa_aws_project.Messaging.Outbox.{
  OutboxEvent, InMemoryOutbox, event_key, idempotency_key_of, add,
}

-- Whatever was added, by whomever: the outbox is the log of the events that were new, in their
-- order and under both indexes; the log has no two events of one company with the same identifier
-- or key; and the next addition answers as the log does, and leaves the log that it leaves.
pub add-refines :
    (same : OutboxEvent → OutboxEvent → Bool) (outbox : InMemoryOutbox) (log : List OutboxEvent)
    (context : TenantContext) (e : OutboxEvent)
    → Logged event_key idempotency_key_of same outbox log
    → let next =
        log_value event_key idempotency_key_of same e
          (ensure_company_scope (some context) e.company_id)
          log in
      Represents event_key idempotency_key_of outbox log
      × Distinct event_key idempotency_key_of log
      × ((add same context e outbox).0 ≡ next.0)
      × Represents event_key idempotency_key_of (add same context e outbox).1 next.1
unfolding add
add-refines same outbox log context e l =
    let r = Logged-Represents event_key idempotency_key_of same outbox log l in
    let (answer, left) =
      register-Represents event_key idempotency_key_of same e outbox log r
        (ensure_company_scope (some context) e.company_id) in
    (r, Logged-Distinct event_key idempotency_key_of same outbox log l, answer, left)
