-- ===== src/Messaging/Registry.antt =====
-- shared/messaging/outbox.py: a store of values that are unique by two keys.
pub mod Log
use gbsa_aws_project.Base.{Bool, not, Option, none, some, if◌then◌else◌}
use gbsa_aws_project.Base.Equality.{Eq}
use gbsa_aws_project.Base.Dict.{Dict, lookup, insert}
use gbsa_aws_project.Base.Exec.{ok, err}
use gbsa_aws_project.Shared.Errors.{Outcome, Method, safe, idempotency_conflict}
use gbsa_aws_project.Shared.Tenant.{TenantContext}

pub record Registry (K L V : Type 0) : Type 0 where
  pub by_event : Dict K V
  pub by_idempotency : Dict L V

-- `by_event or by_idempotency`
abbrev pub or_else {ℓ} : {A : Type ℓ} → Option A → Option A → Option A
or_else none second = second
or_else (some a) second = some a

-- `agrees original v` is the test that a repeated value passes.
module _ {K L V : Type 0} ⦃e : Eq K⦄ ⦃f : Eq L⦄ (event_key : V → K) (idempotency_key : V → L)
    (agrees : V → V → Bool) where
  pub register_checked : V → Option V → Method (Registry K L V) V
  register_checked v none store = (
    ok v,
    record {
      by_event = insert (event_key v) v store.by_event;
      by_idempotency = insert (idempotency_key v) v store.by_idempotency;
    },
  )
  register_checked v (some original) store =
      (if not (agrees original v) then err (safe idempotency_conflict) else ok original, store)

  -- the common part of `InMemoryOutbox.add` and `InMemoryProcessedMessageStore.record`
  unfoldable pub register : V → Outcome TenantContext → Method (Registry K L V) V
  unfolding register_checked
  register v (err x) store = (err x, store)
  register v (ok context) store =
      register_checked v
        (or_else (lookup (event_key v) store.by_event)
          (lookup (idempotency_key v) store.by_idempotency))
        store
