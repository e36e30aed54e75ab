-- ===== src/Reporting/Review/Appended.antt =====
-- Reviews are only ever added, and once per idempotency key.
use gbsa_aws_project.Base.{
  ◌≡◌, ◌≢◌, ◌⊎◌, refl, ap, true, none, some, List, [], ◌∷◌, ◌++◌, ◌&&◌, not, any, arith, Bool-cases,
  Option-cases, inl, inr,
}
use gbsa_aws_project.Base.Equality.{eq, nat_eq, list_eq, pair_eq}
use gbsa_aws_project.Base.Dict.{lookup, lookup-insert_self, lookup-insert_other}
use gbsa_aws_project.Base.Exec.{ok, err}
use gbsa_aws_project.Shared.Tenant.Isolation.{ensure_company_scope-own}
use gbsa_aws_project.Shared.Errors.{value_error}
use gbsa_aws_project.Shared.Ids.{OpaqueId, Instant}
use gbsa_aws_project.Shared.Tenant.{TenantContext}
use gbsa_aws_project.Interview.Text.{Text}
use gbsa_aws_project.Interview.Turn.{is_present}
use gbsa_aws_project.Reporting.Review.{
  ReviewType, HumanReview, ReviewService, ReviewRequest, or_no_reviews, review_of, review_post_init,
  needs_reason, keep_review, append_new, append_checked, append, is_company_user, decisions,
  decision_request, decided, final_decision,
}

-- The reviews of a report.
abbrev pub reviews_at : OpaqueId × OpaqueId → ReviewService → List HumanReview
reviews_at report service = or_no_reviews (lookup report service.reviews)

-- A request that needs a reason and has none.
abbrev pub LacksReason : ReviewRequest → Type 0
LacksReason q =
    ((q.review_type ≡ ReviewType.assessment_override) ⊎ (q.review_type ≡ ReviewType.final_review))
    × ((q.reason ≡ none) ⊎ (q.reason ≡ some []))

reason_cases :
    (context : TenantContext) (q : ReviewRequest)
    → (LacksReason q
        × (review_post_init (review_of context q)
            ≡ err (value_error "override and final decision require reason")))
      ⊎ ((¬ LacksReason q) × (review_post_init (review_of context q) ≡ ok (review_of context q)))
unfolding review_post_init
reason_cases context q =
    elim (Bool-cases (needs_reason q.review_type && not (is_present q.reason))) [
      | inl lacks ↦ inl (ground arith, rw lacks refl)
      | inr has ↦ inr (λ l. ground arith, rw has refl)
    ]

-- The review that a request asks for.
pub record IsReviewOf (context : TenantContext) (q : ReviewRequest) (r : HumanReview) : Type 0 where
  pub ident : r.human_review_id ≡ q.review_id
  pub company : r.company_id ≡ context.company_id
  pub report : r.report_id ≡ q.report_id
  pub author : r.company_user_id ≡ context.actor_id
  pub type_of : r.review_type ≡ q.review_type
  pub target : r.target_id ≡ q.target_id
  pub value : r.value ≡ q.value
  pub reason : r.reason ≡ q.reason
  pub created : r.created_at ≡ q.created_at

-- `service'` has one review more than `service`: the last one of its report, under a new key.
pub record Adds (report : OpaqueId × OpaqueId) (key : OpaqueId × Text) (r : HumanReview)
    (service service' : ReviewService) : Type 0 where
  pub filed : reviews_at report service' ≡ reviews_at report service ++ r ∷ []
  pub other_reports :
      (j : OpaqueId × OpaqueId) → report ≢ j → reviews_at j service' ≡ reviews_at j service
  pub recorded : lookup key service'.keys ≡ some r
  pub other_keys : (k : OpaqueId × Text) → key ≢ k → lookup k service'.keys ≡ lookup k service.keys

keep_review-Adds :
    (report : OpaqueId × OpaqueId) (key : OpaqueId × Text) (r : HumanReview)
    (service : ReviewService)
    → Adds report key r service (keep_review report key (ok r) service).1
unfolding keep_review
keep_review-Adds report key r service =
    let more = reviews_at report service ++ r ∷ [] in
    record {
      filed = ap or_no_reviews (lookup-insert_self report more service.reviews);
      other_reports =
          λ j ne. ap or_no_reviews (lookup-insert_other j report more service.reviews ne);
      recorded = lookup-insert_self key r service.keys;
      other_keys = λ k ne. lookup-insert_other k key r service.keys ne;
    }

-- How a call of `append` ends. Under a key that the company has used, the review of then is given;
-- an override or a final review without a reason is refused; both change nothing. Otherwise the
-- review that was asked for is given: it is the last one of the report that the request names, in
-- the company of the caller, and is recorded under the key, while the reviews of every other report
-- and what is under every other key stay.
pub append_cases :
    (context : TenantContext) (q : ReviewRequest) (service : ReviewService)
    → let key : OpaqueId × Text = (context.company_id, q.idempotency_key) in
      let outcome = append context q service in
      ((old : HumanReview) × (lookup key service.keys ≡ some old) × (outcome ≡ (ok old, service)))
      ⊎ ((lookup key service.keys ≡ none)
          × LacksReason q
          × (outcome ≡ (err (value_error "override and final decision require reason"), service)))
      ⊎ ((lookup key service.keys ≡ none)
          × (¬ LacksReason q)
          × ((r : HumanReview) × (service' : ReviewService) × (outcome ≡ (ok r, service'))
              × IsReviewOf context q r
              × Adds (context.company_id, q.report_id) key r service service'))
unfolding append append_checked append_new keep_review
append_cases context q service =
    let key : OpaqueId × Text = (context.company_id, q.idempotency_key) in
    let report : OpaqueId × OpaqueId = (context.company_id, q.report_id) in
    elim (Option-cases (lookup key service.keys)) [
      | inr (old, at) ↦ inl (old, at, rw (ensure_company_scope-own context, at) refl)
      | inl new ↦ elim (reason_cases context q) [
        | inl (lacks, failed) ↦
            inr (inl (new, lacks, rw (ensure_company_scope-own context, new, failed) refl))
        | inr (has, passed) ↦
            let r = review_of context q in
            inr (
              inr (
                new,
                has,
                (
                  r,
                  (keep_review report key (ok r) service).1,
                  rw (ensure_company_scope-own context, new, passed) refl,
                  record {
                    ident = refl;
                    company = refl;
                    report = refl;
                    author = refl;
                    type_of = refl;
                    target = refl;
                    value = refl;
                    reason = refl;
                    created = refl;
                  },
                  keep_review-Adds report key r service,
                ),
              ))
      ]
    ]

append_reason :
    (context : TenantContext) (q : ReviewRequest) (service : ReviewService) {r : HumanReview}
    {service' : ReviewService}
    → needs_reason q.review_type ≡ true
    → append context q service ≡ (ok r, service')
    → (is_present q.reason ≡ true)
      ⊎ ((old : HumanReview) × (lookup (context.company_id, q.idempotency_key) service.keys
            ≡ some old))
unfolding append append_checked append_new keep_review review_post_init
append_reason context q service needed e =
    elim (Option-cases (lookup (context.company_id, q.idempotency_key) service.keys)) [
      | inr (old, at) ↦ inr (old, at)
      | inl new ↦ elim (Bool-cases (is_present q.reason)) [
        | inl given ↦ inl given
        | inr missing ↦
            let e' = rw (ensure_company_scope-own context, new, needed, missing) at e in
            absurd (ground arith)
      ]
    ]

-- A final decision that is accepted was asked for by a user of the company and is one of the four
-- decisions; it has a reason, unless the company had used its key before.
pub final_decision_accepted :
    (context : TenantContext) (invitation_id : OpaqueId) (decision reason key : Text)
    (review_id : OpaqueId) (now : Instant) (service : ReviewService) {r : HumanReview}
    {service' : ReviewService}
    → final_decision context invitation_id decision reason key review_id now service
      ≡ (ok r, service')
    → (is_company_user context.actor_type ≡ true)
      × (any (eq decision) decisions ≡ true)
      × ((is_present (some reason) ≡ true)
          ⊎ ((old : HumanReview) × (lookup (context.company_id, key) service.keys ≡ some old)))
unfolding final_decision decided
final_decision_accepted context invitation_id decision reason key review_id now service e =
    elim (Bool-cases (is_company_user context.actor_type)) [
      | inr other ↦ let e' = rw other at e in absurd (ground arith)
      | inl human ↦ elim (Bool-cases (any (eq decision) decisions)) [
        | inr other ↦ let e' = rw (human, other) at e in absurd (ground arith)
        | inl valid ↦ (
          human,
          valid,
          append_reason context (decision_request invitation_id decision reason key review_id now)
              service refl (rw (human, valid) at e),
        )
      ]
    ]
