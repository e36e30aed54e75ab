-- ===== src/Messaging/Outbox/Pending.antt =====
-- Which events of the outbox wait, and in which order.
use mathlib.Core.List.{Perm}
use mathlib.Core.List.Perm
use gbsa_aws_project.Base.{
  ◌≡◌, refl, ap, true, false, not, ◌&&◌, List, [], ◌∷◌, map, keep, ◌==◌, All, arith, inl, inr,
  Bool-cases,
}
use gbsa_aws_project.Base.Equality.{nat_eq, list_eq, pair_eq}
use gbsa_aws_project.Base.Exec.{ok}
use gbsa_aws_project.Shared.Ids.{OpaqueId}
use gbsa_aws_project.Shared.Tenant.{TenantContext}
use gbsa_aws_project.Shared.Tenant.Isolation.{ensure_company_scope-own}
use gbsa_aws_project.Messaging.Outbox.{
  OutboxEvent, InMemoryOutbox, event_key, idempotency_key_of, is_published, is_not_after,
  insert_sorted, sort_events, is_pending_of, pending_events,
}
use gbsa_aws_project.Messaging.Registry.Log.{Represents, indexed}

-- Each event is not after those that follow it.
abbrev pub InOrder : List OutboxEvent → Type 0
InOrder [] = Unit
InOrder (e ∷ es) = All (λ f. is_not_after e f ≡ true) es × InOrder es

is_not_after_total : (e f : OutboxEvent) → is_not_after e f ≡ false → is_not_after f e ≡ true
is_not_after_total e f h = ground arith

is_not_after_trans :
    (e f g : OutboxEvent)
    → is_not_after e f ≡ true
    → is_not_after f g ≡ true
    → is_not_after e g ≡ true
is_not_after_trans e f g h k = ground arith

All-not_after :
    (e f : OutboxEvent) (fs : List OutboxEvent)
    → is_not_after e f ≡ true
    → All (λ g. is_not_after f g ≡ true) fs
    → All (λ g. is_not_after e g ≡ true) fs
All-not_after e f [] h k = tt
All-not_after e f (g ∷ gs) h k = (is_not_after_trans e f g h k.0, All-not_after e f gs h k.1)

insert_sorted-All :
    (d e : OutboxEvent) (fs : List OutboxEvent)
    → is_not_after d e ≡ true
    → All (λ g. is_not_after d g ≡ true) fs
    → All (λ g. is_not_after d g ≡ true) (insert_sorted e fs)
unfolding insert_sorted
insert_sorted-All d e [] h k = (h, tt)
insert_sorted-All d e (f ∷ fs) h k = elim (Bool-cases (is_not_after e f)) [
  | inl first ↦ rw first (h, k)
  | inr later ↦ rw later (k.0, insert_sorted-All d e fs h k.1)
]

insert_sorted-InOrder :
    (e : OutboxEvent) (fs : List OutboxEvent) → InOrder fs → InOrder (insert_sorted e fs)
unfolding insert_sorted
insert_sorted-InOrder e [] h = (tt, tt)
insert_sorted-InOrder e (f ∷ fs) h = elim (Bool-cases (is_not_after e f)) [
  | inl first ↦ rw first ((first, All-not_after e f fs first h.0), h)
  | inr later ↦
      rw later (
        insert_sorted-All f e fs (is_not_after_total e f later) h.0,
        insert_sorted-InOrder e fs h.1,
      )
]

insert_sorted-perm : (e : OutboxEvent) (fs : List OutboxEvent) → Perm (insert_sorted e fs) (e ∷ fs)
unfolding insert_sorted
insert_sorted-perm e [] = Perm.refl (e ∷ [])
insert_sorted-perm e (f ∷ fs) = elim (Bool-cases (is_not_after e f)) [
  | inl first ↦ rw first (Perm.refl (e ∷ f ∷ fs))
  | inr later ↦ rw later (Perm.trans (Perm.cons f (insert_sorted-perm e fs)) (Perm.swap e f fs))
]

sort_events-InOrder : (es : List OutboxEvent) → InOrder (sort_events es)
unfolding sort_events
sort_events-InOrder [] = tt
sort_events-InOrder (e ∷ es) = insert_sorted-InOrder e (sort_events es) (sort_events-InOrder es)

sort_events-perm : (es : List OutboxEvent) → Perm (sort_events es) es
unfolding sort_events
sort_events-perm [] = Perm.refl []
sort_events-perm (e ∷ es) =
    Perm.trans (insert_sorted-perm e (sort_events es)) (Perm.cons e (sort_events-perm es))

-- The events of a company that are not published.
abbrev pub waiting : OpaqueId → List OutboxEvent → List OutboxEvent
waiting company_id = keep (λ e. e.company_id == company_id && not (is_published e.status))

kept_events :
    (company_id : OpaqueId) (log : List OutboxEvent)
    → map (λ x. x.1) (keep (is_pending_of company_id) (indexed event_key log))
      ≡ waiting company_id log
kept_events company_id [] = refl
kept_events company_id (e ∷ es) =
    elim (Bool-cases (e.company_id == company_id && not (is_published e.status))) [
      | inl waits ↦ rw waits (ap (λ t. e ∷ t) (kept_events company_id es))
      | inr other ↦ rw other (kept_events company_id es)
    ]

-- A company reads exactly those of its own events that are not published, each as often as the log
-- has it, the earliest first and those of one instant by their identifier.
pub pending_events_lem :
    (context : TenantContext) (outbox : InMemoryOutbox) (log : List OutboxEvent)
    → Represents event_key idempotency_key_of outbox log
    → (es : List OutboxEvent) × (pending_events context outbox ≡ ok es)
      × InOrder es
      × Perm es (waiting context.company_id log)
unfolding pending_events
pending_events_lem context outbox log r = (
  sort_events (waiting context.company_id log),
  rw (ensure_company_scope-own context, r.0)
      (ap (λ es. ok (sort_events es)) (kept_events context.company_id log)),
  sort_events-InOrder (waiting context.company_id log),
  sort_events-perm (waiting context.company_id log),
)
