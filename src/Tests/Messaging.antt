-- ===== src/Tests/Messaging.antt =====
-- Payloads, an outbox with two events, and messages.
use mathlib.Core.List.{Perm}
use gbsa_aws_project.Base.{
  ℕ, ◌≡◌, refl, true, false, Bool, some, none, List, [], ◌∷◌, ◌==◌, if◌then◌else◌, zero, suc,
}
use gbsa_aws_project.Base.Equality.{nat_eq, list_eq, pair_eq}
use gbsa_aws_project.Base.Exec.{ok, err}
use gbsa_aws_project.Shared.Errors.{value_error, safe, idempotency_conflict}
use gbsa_aws_project.Shared.Tenant.{ensure_company_scope}
use gbsa_aws_project.Interview.Text.{Text, codes, uuid_text}
use gbsa_aws_project.Messaging.Shapes.{is_safe_value}
use gbsa_aws_project.Messaging.Payload.{
  Value, Fields, Items, freeze_operational_payload, plain_operational_payload,
}
use gbsa_aws_project.Messaging.Payload.Frozen.{freeze-plain-freeze}
use gbsa_aws_project.Messaging.Registry.Log.{
  Represents, Distinct, Logged, log_value, Logged-Represents,
}
use gbsa_aws_project.Messaging.Outbox.{
  OutboxStatus, OutboxEvent, InMemoryOutbox, event_key, idempotency_key_of, is_event_type, add,
  pending_events, record_attempt, mark_published,
}
use gbsa_aws_project.Messaging.Outbox.Log.{add-refines}
use gbsa_aws_project.Messaging.Outbox.Pending.{InOrder, waiting, pending_events_lem}
use gbsa_aws_project.Messaging.Processed.{
  ProcessedMessage, MessageStore, message_event_key, message_idempotency_key, is_same_message,
  record_message,
}
use gbsa_aws_project.Messaging.Processed.Once.{IsAnswer, record_message_once}
use gbsa_aws_project.Tests.Samples.{reviewer, key}

-- `str.casefold` of ASCII
abbrev fold : Text → Text
fold [] = []
fold (c ∷ cs) = c ∷ fold cs

abbrev payload : Fields
payload = Fields.field (codes "analysis_id") (Value.text (uuid_text 7)) (
    Fields.field (codes "pages")
      (Value.list (Items.cons (Value.int false 3) (Items.cons Value.null Items.nil))) Fields.end)

abbrev frozen : Fields
frozen = Fields.field (codes "analysis_id") (Value.text (uuid_text 7)) (
    Fields.field (codes "pages")
      (Value.array (Items.cons (Value.int false 3) (Items.cons Value.null Items.nil))) Fields.end)

freezes : freeze_operational_payload fold payload ≡ ok frozen
unfolding freeze_operational_payload gbsa_aws_project.Messaging.Shapes.is_safe_key
    gbsa_aws_project.Messaging.Shapes.is_prohibited is_safe_value uuid_text
    gbsa_aws_project.Messaging.Shapes.has_scheme gbsa_aws_project.Messaging.Shapes.is_token_shaped
freezes = refl

refuses :
    freeze_operational_payload fold (Fields.field (codes "prompt") Value.null Fields.end)
    ≡ err (value_error "payload contains a prohibited field")
unfolding freeze_operational_payload gbsa_aws_project.Messaging.Shapes.is_safe_key
    gbsa_aws_project.Messaging.Shapes.is_prohibited
refuses = refl

freeze-plain-freeze_example :
    freeze_operational_payload fold (plain_operational_payload frozen) ≡ ok frozen
freeze-plain-freeze_example = freeze-plain-freeze fold payload freezes

event_types : is_event_type (codes "submission.analysis_completed") ≡ true
unfolding is_event_type
event_types = refl

no_event_types : is_event_type (codes "submission.") ≡ false
unfolding is_event_type
no_event_types = refl

abbrev event : OutboxEvent
event = record {
  event_id = 70;
  company_id = 1;
  event_type = codes "submission.received";
  event_version = 1;
  aggregate = record { aggregate_type = codes "submission"; aggregate_id = 40; version = 1 };
  idempotency_key = key;
  occurred_at = 900;
  trace_id = codes "trace";
  correlation_id = 9;
  causation_id = none;
  payload = frozen;
  status = OutboxStatus.pending;
  attempt_count = 0;
  last_failure_code = none;
  published_at = none;
}

abbrev earlier : OutboxEvent
earlier = record event {
  event_id = 71;
  idempotency_key = codes "another-key-0002";
  occurred_at = 800;
}

-- Events are told apart by their identifiers.
abbrev same : OutboxEvent → OutboxEvent → Bool
same e f = e.event_id == f.event_id

published :
    mark_published fold 950 event
    ≡ ok (record event { status = OutboxStatus.published; published_at = some 950 })
unfolding mark_published is_event_type gbsa_aws_project.Messaging.Shapes.safe_code
    freeze_operational_payload gbsa_aws_project.Messaging.Shapes.is_safe_key
    gbsa_aws_project.Messaging.Shapes.is_prohibited uuid_text
    gbsa_aws_project.Messaging.Shapes.has_scheme gbsa_aws_project.Messaging.Shapes.is_token_shaped
published = refl

retried :
    record_attempt fold (codes "TIMEOUT") event
    ≡ ok (record event {
      status = OutboxStatus.retrying;
      attempt_count = 1;
      last_failure_code = some (codes "TIMEOUT");
    })
unfolding record_attempt gbsa_aws_project.Messaging.Shapes.safe_code is_event_type
    freeze_operational_payload gbsa_aws_project.Messaging.Shapes.is_safe_key
    gbsa_aws_project.Messaging.Shapes.is_prohibited uuid_text
    gbsa_aws_project.Messaging.Shapes.has_scheme gbsa_aws_project.Messaging.Shapes.is_token_shaped
retried = refl

abbrev empty_outbox : InMemoryOutbox
empty_outbox = record { by_event = []; by_idempotency = [] }

abbrev outbox : InMemoryOutbox
outbox = (add same reviewer earlier (add same reviewer event empty_outbox).1).1

waits : pending_events reviewer outbox ≡ ok (earlier ∷ event ∷ [])
unfolding pending_events add ensure_company_scope gbsa_aws_project.Base.Dict.lookup
    gbsa_aws_project.Base.Dict.insert
waits = refl

reused_key :
    (add same reviewer (record event { event_id = 72 }) outbox).0 ≡ err (safe idempotency_conflict)
unfolding add ensure_company_scope gbsa_aws_project.Base.Dict.lookup
    gbsa_aws_project.Base.Dict.insert
reused_key = refl

outbox-Logged : Logged event_key idempotency_key_of same outbox (event ∷ earlier ∷ [])
unfolding add log_value gbsa_aws_project.Base.Dict.lookup ensure_company_scope
outbox-Logged =
    Logged.registers earlier (ok reviewer) (Logged.registers event (ok reviewer) Logged.begins)

abbrev next_event : OutboxEvent
next_event = record event { event_id = 73; idempotency_key = codes "a-third-key-0003" }

add-refines_example :
    let log = event ∷ earlier ∷ [] in
    let next =
      log_value event_key idempotency_key_of same next_event
        (ensure_company_scope (some reviewer) 1)
        log in
    Represents event_key idempotency_key_of outbox log
    × Distinct event_key idempotency_key_of log
    × ((add same reviewer next_event outbox).0 ≡ next.0)
    × Represents event_key idempotency_key_of (add same reviewer next_event outbox).1 next.1
add-refines_example =
    add-refines same outbox (event ∷ earlier ∷ []) reviewer next_event outbox-Logged

pending_events_lem_example :
    (es : List OutboxEvent) × (pending_events reviewer outbox ≡ ok es)
    × InOrder es
    × Perm es (waiting 1 (event ∷ earlier ∷ []))
pending_events_lem_example = pending_events_lem reviewer outbox (event ∷ earlier ∷ []) (
    Logged-Represents event_key idempotency_key_of same outbox (event ∷ earlier ∷ []) outbox-Logged)

abbrev message : ProcessedMessage
message = record {
  company_id = 1;
  consumer_name = codes "reporting";
  event_id = 70;
  event_version = 1;
  idempotency_key = key;
  first_processed_at = 1000;
  outcome_digest = codes "aaaaaaaaaaaaaaaaaaaaaaaaaaaaaaaaaaaaaaaaaaaaaaaaaaaaaaaaaaaaaaaa";
}

abbrev no_messages : MessageStore
no_messages = record { by_event = []; by_idempotency = [] }

abbrev messages : MessageStore
messages = (record_message reviewer message no_messages).1

messages-Logged :
    Logged message_event_key message_idempotency_key is_same_message messages (message ∷ [])
unfolding record_message log_value gbsa_aws_project.Base.Dict.lookup ensure_company_scope
messages-Logged = Logged.registers message (ok reviewer) Logged.begins

record_message_once_example :
    let next =
      log_value message_event_key message_idempotency_key is_same_message message
        (ensure_company_scope (some reviewer) 1)
        (message ∷ []) in
    Distinct message_event_key message_idempotency_key (message ∷ [])
    × Represents message_event_key message_idempotency_key
        (record_message reviewer message messages).1
        next.1
    × ((w : ProcessedMessage)
        → (record_message reviewer message messages).0 ≡ ok w
        → IsAnswer message w)
record_message_once_example =
    record_message_once messages (message ∷ []) reviewer message messages-Logged
