-- ===== src/Shared/Tenant/Isolation.antt =====
-- Whom the scope checks let through.
use gbsa_aws_project.Shared.Tenant.{is_applicant}
use gbsa_aws_project.Base.{
  ap, ◌∙◌, ◌≢◌, Bool-cases, inl, inr, ◌≡◌, ◌↔◌, Option, none, some, arith, ◌⊎◌,
}
use gbsa_aws_project.Base.Exec.{ok, err}
use gbsa_aws_project.Shared.Errors.{safe, tenant_context_required, tenant_scope_denied}
use gbsa_aws_project.Shared.Tenant.{
  ActorType, TenantContext, ApplicantScope, ensure_company_scope, ensure_applicant_scope,
}

-- An actor may act on a scope of its own company, and an applicant only on its own scope.
pub record MayAct (context : TenantContext) (scope : ApplicantScope) : Type 0 where
  pub company : context.company_id ≡ scope.company_id
  pub own : (context.actor_type ≢ ActorType.applicant) ⊎ (context.actor_id ≡ scope.applicant_id)

own_of :
    (context : TenantContext) (scope : ApplicantScope)
    → ensure_applicant_scope (some context) scope ≡ ok scope
    → (context.actor_type ≢ ActorType.applicant) ⊎ (context.actor_id ≡ scope.applicant_id)
unfolding ensure_applicant_scope
own_of context scope h = elim (Bool-cases (is_applicant context.actor_type)) [
  | inl theirs ↦ inr (ground arith)
  | inr other ↦ inl (λ e. ground arith)
]

-- The applicant check returns the scope exactly for the contexts that may act on it.
pub ensure_applicant_scope_iff :
    (context : TenantContext) (scope : ApplicantScope)
    → (ensure_applicant_scope (some context) scope ≡ ok scope) ↔ MayAct context scope
unfolding ensure_applicant_scope
ensure_applicant_scope_iff context scope =
    (λ h. record { company = ground arith; own = own_of context scope h }, λ may. ground arith)

-- Whatever the context, the applicant check returns the scope or raises one of the two tenant
-- errors; without a context it raises that one is required.
pub ensure_applicant_scope_errors :
    (context : Option TenantContext) (scope : ApplicantScope)
    → (ensure_applicant_scope context scope ≡ ok scope)
      ⊎ ((context ≡ none)
          × (ensure_applicant_scope context scope ≡ err (safe tenant_context_required)))
      ⊎ (ensure_applicant_scope context scope ≡ err (safe tenant_scope_denied))
unfolding ensure_applicant_scope
ensure_applicant_scope_errors context scope = ground arith

-- A check that passed was made by an actor of the scope.
pub passed-MayAct :
    (context : TenantContext) (scope : ApplicantScope) {c : ApplicantScope}
    → ensure_applicant_scope (some context) scope ≡ ok c
    → MayAct context scope
unfolding ensure_applicant_scope
passed-MayAct context scope e = (ensure_applicant_scope_iff context scope).0 (ground arith)

-- The company check passes for the own company.
pub ensure_company_scope-own :
    (context : TenantContext) → ensure_company_scope (some context) context.company_id ≡ ok context
unfolding ensure_company_scope
ensure_company_scope-own context = ground arith

-- Whatever the check returns, it lets only those through that may act.
pub ensure_applicant_scope-MayAct :
    (context : TenantContext) (scope : ApplicantScope) {c : ApplicantScope}
    → ensure_applicant_scope (some context) scope ≡ ok c
    → MayAct context scope
unfolding ensure_applicant_scope
ensure_applicant_scope-MayAct context scope {c} h =
    let p : c ≡ scope = ground arith in (ensure_applicant_scope_iff context scope).0 (h ∙ ap ok p)
