-- ===== src/Messaging/Outbox.antt =====
-- shared/messaging/outbox.py: events that wait to be published.
pub mod Log
pub mod Pending
use gbsa_aws_project.Base.{
  ℕ, ◌+◌, Bool, true, false, not, ◌&&◌, ◌||◌, Option, none, some, List, [], ◌∷◌, ltb, leb, ◌==◌,
  all, length, map, if◌then◌else◌, keep,
}
use gbsa_aws_project.Base.{String}
use gbsa_aws_project.Base.Equality.{Eq, eq, nat_eq, list_eq, pair_eq}
use gbsa_aws_project.Base.Dict.{Dict, lookup, insert}
use gbsa_aws_project.Base.Exec.{ok, err, raise_if, ◌>>=◌, ◌>>◌}
use gbsa_aws_project.Shared.Errors.{Outcome, Method, value_error, safe, idempotency_conflict}
use gbsa_aws_project.Shared.Ids.{OpaqueId, Instant}
use gbsa_aws_project.Shared.Tenant.{TenantContext, ensure_company_scope}
use gbsa_aws_project.Interview.Text.{Text}
use gbsa_aws_project.Interview.Session.{is_some}
use gbsa_aws_project.Messaging.Registry.{Registry, register}
use gbsa_aws_project.Messaging.Shapes.{is_lower, is_digit, safe_code}
use gbsa_aws_project.Messaging.Payload.{Fields, freeze_operational_payload}

pub data OutboxStatus : Type 0 where
  pending retrying published : OutboxStatus

abbrev pub is_published : OutboxStatus → Bool
is_published OutboxStatus.published = true
is_published _ = false

pub record AggregateRef : Type 0 where
  pub aggregate_type : Text
  pub aggregate_id : OpaqueId
  pub version : ℕ

pub record OutboxEvent : Type 0 where
  pub event_id : OpaqueId
  pub company_id : OpaqueId
  pub event_type : Text
  pub event_version : ℕ
  pub aggregate : AggregateRef
  pub idempotency_key : Text
  pub occurred_at : Instant
  pub trace_id : Text
  pub correlation_id : OpaqueId
  pub causation_id : Option OpaqueId
  pub payload : Fields
  pub status : OutboxStatus
  pub attempt_count : ℕ
  pub last_failure_code : Option Text
  pub published_at : Option Instant

abbrev is_word_char : ℕ → Bool
is_word_char c = is_lower c || is_digit c || c == b'_'

-- The rest of a match of `[a-z][a-z0-9_]*(?:\.[a-z][a-z0-9_]*)+`: at the start of a word, or within
-- one, after a dot or not.
pub event_type_rest : (starts dotted : Bool) → Text → Bool
event_type_rest true dotted [] = false
event_type_rest false dotted [] = dotted
event_type_rest true dotted (c ∷ cs) = is_lower c && event_type_rest false dotted cs
event_type_rest false dotted (c ∷ cs) =
    event_type_rest (c == b'.') (dotted || c == b'.') cs && (c == b'.' || is_word_char c)

-- `_EVENT_TYPE.fullmatch(value)`
unfoldable pub is_event_type : Text → Bool
unfolding event_type_rest
is_event_type value = event_type_rest true false value

-- `AggregateRef.__post_init__`
unfoldable pub aggregate_post_init : AggregateRef → Outcome AggregateRef
aggregate_post_init a = do
  safe_code a.aggregate_type "aggregate_type"
  raise_if (ltb a.version 1) (value_error "aggregate version must be positive")
  ok a

-- the check of an optional failure code
abbrev optional_code : Option Text → Outcome (Unit {0})
optional_code none = ok tt
optional_code (some code) = do safe_code code "last_failure_code"; ok tt

-- `OutboxEvent.__post_init__`; the payload of the result is frozen.
unfoldable pub event_post_init : (casefold : Text → Text) → OutboxEvent → Outcome OutboxEvent
event_post_init casefold e = do
  raise_if (not (is_event_type e.event_type))
      (value_error "event_type must be a namespaced lower-case code")
  raise_if (ltb e.event_version 1) (value_error "event_version must be positive")
  safe_code e.idempotency_key "idempotency_key"
  raise_if (not (leb 16 (length e.idempotency_key) && leb (length e.idempotency_key) 128))
      (value_error "idempotency_key must contain between 16 and 128 characters")
  safe_code e.trace_id "trace_id"
  frozen ← freeze_operational_payload casefold e.payload
  optional_code e.last_failure_code
  raise_if (is_published e.status && not (is_some e.published_at))
      (value_error "published events require published_at")
  raise_if (not (is_published e.status) && is_some e.published_at)
      (value_error "unpublished events cannot have published_at")
  ok (record e { payload = frozen })

-- `OutboxEvent.record_attempt`; `replace` runs `__post_init__` again.
unfoldable pub record_attempt :
    (casefold : Text → Text) → (failure_code : Text) → OutboxEvent → Outcome OutboxEvent
unfolding event_post_init
record_attempt casefold failure_code e =
    if is_published e.status
    then ok e
    else (safe_code failure_code "failure_code"
        >> event_post_init casefold (record e {
          status = OutboxStatus.retrying;
          attempt_count = e.attempt_count + 1;
          last_failure_code = some failure_code;
        }))

-- `OutboxEvent.mark_published`
unfoldable pub mark_published :
    (casefold : Text → Text) → (published_at : Instant) → OutboxEvent → Outcome OutboxEvent
unfolding event_post_init
mark_published casefold published_at e =
    if is_published e.status
    then ok e
    else event_post_init casefold (record e {
      status = OutboxStatus.published;
      published_at = some published_at;
      last_failure_code = none;
    })

abbrev pub InMemoryOutbox : Type 0
InMemoryOutbox = Registry (OpaqueId × OpaqueId) (OpaqueId × Text) OutboxEvent

abbrev pub event_key : OutboxEvent → OpaqueId × OpaqueId
event_key e = (e.company_id, e.event_id)

abbrev pub idempotency_key_of : OutboxEvent → OpaqueId × Text
idempotency_key_of e = (e.company_id, e.idempotency_key)

-- `InMemoryOutbox.add`. `==` of events, which compares payloads of any shape, is an argument.
unfoldable pub add :
    (same : OutboxEvent → OutboxEvent → Bool)
    → TenantContext
    → OutboxEvent
    → Method InMemoryOutbox OutboxEvent
unfolding register
add same context e outbox =
    register event_key idempotency_key_of same e (ensure_company_scope (some context) e.company_id)
      outbox

-- `(event.occurred_at, str(event.event_id))` is not above that of the other: texts of identifiers
-- compare as their numbers do.
abbrev pub is_not_after : OutboxEvent → OutboxEvent → Bool
is_not_after e f =
    ltb e.occurred_at f.occurred_at || e.occurred_at == f.occurred_at && leb e.event_id f.event_id

unfoldable pub insert_sorted : OutboxEvent → List OutboxEvent → List OutboxEvent
insert_sorted e [] = e ∷ []
insert_sorted e (f ∷ fs) = if is_not_after e f then e ∷ f ∷ fs else f ∷ insert_sorted e fs

-- `events.sort(key=...)`, which is stable.
unfoldable pub sort_events : List OutboxEvent → List OutboxEvent
unfolding insert_sorted
sort_events [] = []
sort_events (e ∷ es) = insert_sorted e (sort_events es)

abbrev pub is_pending_of : OpaqueId → (OpaqueId × OpaqueId) × OutboxEvent → Bool
is_pending_of company_id x = x.0.0 == company_id && not (is_published x.1.status)

-- `InMemoryOutbox.pending`
unfoldable pub pending_events : TenantContext → InMemoryOutbox → Outcome (List OutboxEvent)
unfolding sort_events
pending_events context outbox = do
  checked ← ensure_company_scope (some context) context.company_id
  ok (sort_events (map (λ x. x.1) (keep (is_pending_of checked.company_id) outbox.by_event)))
