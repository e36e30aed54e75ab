-- ===== src/Shared/Tenant.antt =====
-- backend/src/interview_evidence/shared/tenant.py: tenant and applicant scopes.
pub mod Isolation
use gbsa_aws_project.Base.{Bool, true, false, not, ◌&&◌, Option, none, some, List, ℕ, ◌==◌}
use gbsa_aws_project.Base.Exec.{ok, err, raise_if, or_raise, ◌>>=◌, ◌>>◌}
use gbsa_aws_project.Shared.Errors.{Outcome, safe, tenant_context_required, tenant_scope_denied}
use gbsa_aws_project.Shared.Ids.{OpaqueId}

pub data ActorType : Type 0 where
  company_user applicant system : ActorType

pub record TenantContext : Type 0 where
  pub company_id : OpaqueId
  pub actor_type : ActorType
  pub actor_id : OpaqueId
  pub request_id : OpaqueId
  pub trace_id : List ℕ

pub record ApplicantScope : Type 0 where
  pub company_id : OpaqueId
  pub applicant_id : OpaqueId
  pub invitation_id : OpaqueId

pub record EntityRef : Type 0 where
  pub company_id : OpaqueId
  pub entity_type : List ℕ
  pub entity_id : OpaqueId
  pub version : Option ℕ

-- `_scope_key(scope)`, extended by a session.
abbrev pub SessionKey : Type 0
SessionKey = OpaqueId × (OpaqueId × (OpaqueId × OpaqueId))

abbrev pub session_key : ApplicantScope → OpaqueId → SessionKey
session_key scope session_id =
    (scope.company_id, (scope.applicant_id, (scope.invitation_id, session_id)))

-- `context` is `none` where the caller has no `TenantContext`.
unfoldable pub require_tenant_context : Option TenantContext → Outcome TenantContext
require_tenant_context context = or_raise context (safe tenant_context_required)

unfoldable pub ensure_company_scope : Option TenantContext → OpaqueId → Outcome TenantContext
unfolding require_tenant_context
ensure_company_scope context company_id = do
  checked ← require_tenant_context context
  raise_if (not (checked.company_id == company_id)) (safe tenant_scope_denied)
  ok checked

unfoldable pub ensure_entity_scope : Option TenantContext → EntityRef → Outcome EntityRef
unfolding ensure_company_scope
ensure_entity_scope context entity = do ensure_company_scope context entity.company_id; ok entity

abbrev pub is_applicant : ActorType → Bool
is_applicant ActorType.applicant = true
is_applicant _ = false

unfoldable pub ensure_applicant_scope :
    Option TenantContext → ApplicantScope → Outcome ApplicantScope
unfolding ensure_company_scope
ensure_applicant_scope context scope = do
  checked ← ensure_company_scope context scope.company_id
  raise_if (is_applicant checked.actor_type && not (checked.actor_id == scope.applicant_id))
      (safe tenant_scope_denied)
  ok scope
