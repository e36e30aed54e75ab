-- ===== src/Reporting/Review.antt =====
-- reporting/domain/review.py and application/review_service.py: what people add to a report.
pub mod Appended
pub mod Replay
use gbsa_aws_project.Base.{
  ℕ, Bool, true, false, not, ◌&&◌, ◌||◌, Option, none, some, List, [], ◌∷◌, ◌++◌, any,
  if◌then◌else◌,
}
use gbsa_aws_project.Base.Equality.{Eq, eq, nat_eq, list_eq, pair_eq}
use gbsa_aws_project.Base.Dict.{Dict, lookup, insert}
use gbsa_aws_project.Base.Exec.{Result, ok, err, raise_if, ◌>>=◌, ◌>>◌}
use gbsa_aws_project.Shared.Errors.{Error, Outcome, Method, value_error, permission_error}
use gbsa_aws_project.Shared.Ids.{OpaqueId, Instant}
use gbsa_aws_project.Shared.Tenant.{ActorType, TenantContext, ensure_company_scope}
use gbsa_aws_project.Interview.Text.{Text, codes}
use gbsa_aws_project.Interview.Turn.{is_present}

pub data ReviewType : Type 0 where
  assessment_override note bookmark final_review : ReviewType

-- `value`, a mapping, is here the text of its JSON.
pub record HumanReview : Type 0 where
  pub human_review_id : OpaqueId
  pub company_id : OpaqueId
  pub report_id : OpaqueId
  pub company_user_id : OpaqueId
  pub review_type : ReviewType
  pub target_id : OpaqueId
  pub value : Text
  pub reason : Option Text
  pub created_at : Instant

abbrev pub needs_reason : ReviewType → Bool
needs_reason ReviewType.assessment_override = true
needs_reason ReviewType.final_review = true
needs_reason _ = false

-- `HumanReview.__post_init__`
unfoldable pub review_post_init : HumanReview → Outcome HumanReview
review_post_init r = do
  raise_if (needs_reason r.review_type && not (is_present r.reason))
      (value_error "override and final decision require reason")
  ok r

-- The reviews by company and report, and by company and idempotency key.
pub record ReviewService : Type 0 where
  pub reviews : Dict (OpaqueId × OpaqueId) (List HumanReview)
  pub keys : Dict (OpaqueId × Text) HumanReview

abbrev pub or_no_reviews : Option (List HumanReview) → List HumanReview
or_no_reviews none = []
or_no_reviews (some rs) = rs

-- The arguments of `append`, with the identifier and the reading of the clock that it takes.
pub record ReviewRequest : Type 0 where
  pub report_id : OpaqueId
  pub target_id : OpaqueId
  pub review_type : ReviewType
  pub value : Text
  pub reason : Option Text
  pub idempotency_key : Text
  pub review_id : OpaqueId
  pub created_at : Instant

abbrev pub review_of : TenantContext → ReviewRequest → HumanReview
review_of context q = record {
  human_review_id = q.review_id;
  company_id = context.company_id;
  report_id = q.report_id;
  company_user_id = context.actor_id;
  review_type = q.review_type;
  target_id = q.target_id;
  value = q.value;
  reason = q.reason;
  created_at = q.created_at;
}

pub keep_review :
    (OpaqueId × OpaqueId)
    → (OpaqueId × Text)
    → Outcome HumanReview
    → Method ReviewService HumanReview
keep_review report key (err e) service = (err e, service)
keep_review report key (ok review) service = (
  ok review,
  record {
    reviews =
        insert report (or_no_reviews (lookup report service.reviews) ++ review ∷ [])
          service.reviews;
    keys = insert key review service.keys;
  },
)

pub append_new :
    TenantContext → ReviewRequest → Option HumanReview → Method ReviewService HumanReview
unfolding keep_review review_post_init
append_new context q (some review) service = (ok review, service)
append_new context q none service =
    keep_review (context.company_id, q.report_id) (context.company_id, q.idempotency_key)
      (review_post_init (review_of context q)) service

pub append_checked :
    TenantContext → ReviewRequest → Outcome TenantContext → Method ReviewService HumanReview
unfolding append_new
append_checked context q (err e) service = (err e, service)
append_checked context q (ok _) service =
    append_new context q (lookup (context.company_id, q.idempotency_key) service.keys) service

-- `ReviewService.append`
unfoldable pub append : TenantContext → ReviewRequest → Method ReviewService HumanReview
unfolding append_checked
append context q service =
    append_checked context q (ensure_company_scope (some context) context.company_id) service

-- `ReviewService.history`
unfoldable pub review_history :
    TenantContext → (report_id : OpaqueId) → ReviewService → Outcome (List HumanReview)
review_history context report_id service = do
  ensure_company_scope (some context) context.company_id
  ok (or_no_reviews (lookup (context.company_id, report_id) service.reviews))

abbrev pub is_company_user : ActorType → Bool
is_company_user ActorType.company_user = true
is_company_user _ = false

abbrev pub decisions : List Text
decisions = codes "advance" ∷ codes "reject" ∷ codes "hold" ∷ codes "withdrawn" ∷ []

abbrev pub decision_json : Text → Text
decision_json decision = codes "{\"decision\": \"" ++ (decision ++ codes "\"}")

pub decided : TenantContext → ReviewRequest → Outcome (Unit {0}) → Method ReviewService HumanReview
unfolding append
decided context q (err e) service = (err e, service)
decided context q (ok _) service = append context q service

abbrev pub decision_request : OpaqueId → Text → Text → Text → OpaqueId → Instant → ReviewRequest
decision_request invitation_id decision reason idempotency_key review_id now = record {
  report_id = invitation_id;
  target_id = invitation_id;
  review_type = ReviewType.final_review;
  value = decision_json decision;
  reason = some reason;
  idempotency_key = idempotency_key;
  review_id = review_id;
  created_at = now;
}

-- `ReviewService.final_decision`
unfoldable pub final_decision :
    TenantContext
    → (invitation_id : OpaqueId) → (decision reason idempotency_key : Text) → (review_id : OpaqueId)
    → Instant
    → Method ReviewService HumanReview
unfolding decided
final_decision context invitation_id decision reason idempotency_key review_id now service =
    decided context (decision_request invitation_id decision reason idempotency_key review_id now)
      (raise_if (not (is_company_user context.actor_type))
          (permission_error "final decision must be human-authored")
        >> raise_if (not (any (eq decision) decisions)) (value_error "decision is invalid"))
      service
