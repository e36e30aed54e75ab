-- ===== src/Messaging/Processed.antt =====
-- shared/messaging/outbox.py: what consumers have processed.
pub mod Once
use gbsa_aws_project.Base.{ℕ, Bool, some, not, ◌&&◌, ltb, leb, ◌==◌, length}
use gbsa_aws_project.Base.Equality.{Eq, eq, nat_eq, list_eq, pair_eq}
use gbsa_aws_project.Base.Exec.{ok, err, raise_if, ◌>>=◌, ◌>>◌}
use gbsa_aws_project.Shared.Errors.{Outcome, Method, value_error}
use gbsa_aws_project.Shared.Ids.{OpaqueId, Instant}
use gbsa_aws_project.Shared.Tenant.{TenantContext, ensure_company_scope}
use gbsa_aws_project.Interview.Text.{Text}
use gbsa_aws_project.Interview.Turn.{is_sha256}
use gbsa_aws_project.Messaging.Shapes.{safe_code}
use gbsa_aws_project.Messaging.Payload.{
  Fields, freeze_operational_payload, plain_operational_payload,
}
use gbsa_aws_project.Messaging.Registry.{Registry, register}

pub record ProcessedMessage : Type 0 where
  pub company_id : OpaqueId
  pub consumer_name : Text
  pub event_id : OpaqueId
  pub event_version : ℕ
  pub idempotency_key : Text
  pub first_processed_at : Instant
  pub outcome_digest : Text

-- `ProcessedMessage.__post_init__`
unfoldable pub message_post_init : ProcessedMessage → Outcome ProcessedMessage
message_post_init m = do
  safe_code m.consumer_name "consumer_name"
  safe_code m.idempotency_key "idempotency_key"
  raise_if (ltb m.event_version 1) (value_error "event_version must be positive")
  raise_if (not (leb 16 (length m.idempotency_key) && leb (length m.idempotency_key) 128))
      (value_error "idempotency_key must contain between 16 and 128 characters")
  raise_if (not (is_sha256 m.outcome_digest))
      (value_error "outcome_digest must be a SHA-256 hex digest")
  ok m

-- `ProcessedMessage.from_outcome`: `digest` is the SHA-256 of the canonical JSON of a payload. The
-- digest of `m` is replaced.
unfoldable pub from_outcome :
    (casefold : Text → Text)
    → (digest : Fields → Text) → ProcessedMessage
    → (outcome : Fields) → Outcome ProcessedMessage
unfolding message_post_init
from_outcome casefold digest m outcome = do
  frozen_outcome ← freeze_operational_payload casefold outcome
  message_post_init
      (record m { outcome_digest = digest (plain_operational_payload frozen_outcome) })

abbrev pub MessageStore : Type 0
MessageStore =
    Registry (OpaqueId × (Text × (OpaqueId × ℕ))) (OpaqueId × (Text × Text)) ProcessedMessage

abbrev pub message_event_key : ProcessedMessage → OpaqueId × (Text × (OpaqueId × ℕ))
message_event_key m = (m.company_id, (m.consumer_name, (m.event_id, m.event_version)))

abbrev pub message_idempotency_key : ProcessedMessage → OpaqueId × (Text × Text)
message_idempotency_key m = (m.company_id, (m.consumer_name, m.idempotency_key))

-- Whether the message on record is taken for the new one.
unfoldable pub is_same_message : (original message : ProcessedMessage) → Bool
is_same_message original message =
    eq original.outcome_digest message.outcome_digest
    && original.event_id == message.event_id
    && original.event_version == message.event_version
    && eq original.idempotency_key message.idempotency_key

-- `InMemoryProcessedMessageStore.record`
unfoldable pub record_message :
    TenantContext → ProcessedMessage → Method MessageStore ProcessedMessage
unfolding register is_same_message
record_message context m store =
    register message_event_key message_idempotency_key is_same_message m
      (ensure_company_scope (some context) m.company_id) store
