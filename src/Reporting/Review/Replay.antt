-- ===== src/Reporting/Review/Replay.antt =====
-- reporting/application/review_service.py: reviews under a key that was used before.
use gbsa_aws_project.Base.{
  ◌≡◌, refl, ◌∙◌, subst, some, any, arith, Bool-cases, Option-cases, inl, inr,
}
use gbsa_aws_project.Base.Equality.{eq, nat_eq, list_eq, pair_eq}
use gbsa_aws_project.Base.Dict.{lookup, lookup-insert_self, lookup-distinct}
use gbsa_aws_project.Base.Exec.{ok, Result-cases}
use gbsa_aws_project.Shared.Tenant.Isolation.{ensure_company_scope-own}
use gbsa_aws_project.Shared.Ids.{OpaqueId, Instant}
use gbsa_aws_project.Shared.Tenant.{TenantContext}
use gbsa_aws_project.Interview.Text.{Text}
use gbsa_aws_project.Reporting.Review.Appended.{append_cases}
use gbsa_aws_project.Reporting.Review.{
  HumanReview, ReviewService, ReviewRequest, review_of, review_post_init, keep_review, append_new,
  append_checked, append, is_company_user, decisions, decision_request, decided, final_decision,
}

-- What calls make of a service, be it after they raised.
pub data Later (service : ReviewService) : ReviewService → Type 0 where
  here : Later service service
  appends :
      {t : ReviewService} (context : TenantContext) (q : ReviewRequest)
      → Later service t
      → Later service (append context q t).1
  decides :
      {t : ReviewService} (context : TenantContext) (invitation_id : OpaqueId)
      (decision reason key : Text) (review_id : OpaqueId) (now : Instant)
      → Later service t
      → Later service (final_decision context invitation_id decision reason key review_id now t).1

append-keeps :
    (context : TenantContext) (q : ReviewRequest) (service : ReviewService) (key : OpaqueId × Text)
    (r : HumanReview)
    → lookup key service.keys ≡ some r
    → lookup key (append context q service).1.keys ≡ some r
append-keeps context q service key r at =
    let mine : OpaqueId × Text = (context.company_id, q.idempotency_key) in
    elim (append_cases context q service) [
      | inl (_, _, e) ↦ rw e at
      | inr (inl (_, _, e)) ↦ rw e at
      | inr (inr (new, _, (_, service', e, _, adds))) ↦
          rw e (adds.other_keys key (lookup-distinct mine key service.keys new at) ∙ at)
    ]

final_decision-keeps :
    (context : TenantContext) (invitation_id : OpaqueId) (decision reason key : Text)
    (review_id : OpaqueId) (now : Instant) (service : ReviewService) (k : OpaqueId × Text)
    (r : HumanReview)
    → lookup k service.keys ≡ some r
    → lookup k
        (final_decision context invitation_id decision reason key review_id now service).1.keys
      ≡ some r
unfolding final_decision decided
final_decision-keeps context invitation_id decision reason key review_id now service k r at =
    let q = decision_request invitation_id decision reason key review_id now in
    elim (Bool-cases (is_company_user context.actor_type)) [
      | inr other ↦ rw other at
      | inl human ↦ elim (Bool-cases (any (eq decision) decisions)) [
        | inr other ↦ rw (human, other) at
        | inl valid ↦ rw (human, valid) (append-keeps context q service k r at)
      ]
    ]

Later-keeps :
    (service t : ReviewService) (key : OpaqueId × Text) (r : HumanReview)
    → lookup key service.keys ≡ some r
    → Later service t
    → lookup key t.keys ≡ some r
Later-keeps service _ key r at here = at
Later-keeps service _ key r at (appends {t} context q l) =
    append-keeps context q t key r (Later-keeps service t key r at l)
Later-keeps service _ key r at (decides {t} context i decision reason k review_id now l) =
    final_decision-keeps context i decision reason k review_id now t key r
      (Later-keeps service t key r at l)

-- A review that was accepted is kept under its key.
append_kept :
    (context : TenantContext) (q : ReviewRequest) (service service' : ReviewService)
    (r : HumanReview)
    → append context q service ≡ (ok r, service')
    → lookup (context.company_id, q.idempotency_key) service'.keys ≡ some r
unfolding append append_checked append_new keep_review
append_kept context q service service' r e =
    let key : OpaqueId × Text = (context.company_id, q.idempotency_key) in
    elim (Option-cases (lookup key service.keys)) [
      | inr (old, at) ↦ let e' = rw (ensure_company_scope-own context, at) at e in ground arith
      | inl new ↦ elim (Result-cases (review_post_init (review_of context q))) [
        | inr (x, failed) ↦
            let e' = rw (ensure_company_scope-own context, new, failed) at e in
            absurd (ground arith)
        | inl (made, passed) ↦
            let e' = rw (ensure_company_scope-own context, new, passed) at e in
            ground (arith, lookup-insert_self key made service.keys)
      ]
    ]

-- Once a review was accepted, every later call of the company under its key gives that review and
-- changes nothing, whatever the call asks for and whatever was reviewed and decided in between, by
-- any company and under any key.
pub append_replay :
    (context context' : TenantContext) (q q' : ReviewRequest) (service t : ReviewService)
    {r : HumanReview} {service' : ReviewService}
    → append context q service ≡ (ok r, service')
    → Later service' t
    → context.company_id ≡ context'.company_id
    → q.idempotency_key ≡ q'.idempotency_key
    → append context' q' t ≡ (ok r, t)
unfolding append append_checked append_new
append_replay context context' q q' service t {r} {service'} e l same_company same_key =
    let kept : lookup (context.company_id, q.idempotency_key) t.keys ≡ some r =
      Later-keeps service' t (context.company_id, q.idempotency_key) r
        (append_kept context q service service' r e) l in
    let found : lookup (context'.company_id, q'.idempotency_key) t.keys ≡ some r =
      subst (λ k. lookup (context'.company_id, k) t.keys ≡ some r) same_key
        (subst (λ c. lookup (c, q.idempotency_key) t.keys ≡ some r) same_company kept) in
    rw (ensure_company_scope-own context', found) refl
