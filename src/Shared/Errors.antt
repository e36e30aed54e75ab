-- ===== src/Shared/Errors.antt =====
-- backend/src/interview_evidence/shared/errors.py: the error codes, and what Python code raises.
use gbsa_aws_project.Base.{String}
use gbsa_aws_project.Base.Exec
use gbsa_aws_project.Base.Exec.{Result}

pub data ErrorCode : Type 0 where
  invalid_request tenant_context_required tenant_scope_denied : ErrorCode
  authentication_required authentication_expired forbidden resource_not_found : ErrorCode
  conflict stale_version idempotency_conflict rate_limited : ErrorCode
  dependency_timeout dependency_unavailable internal_error : ErrorCode

-- `safe code` is a `SafeApplicationError`; the others are Python's own exceptions.
pub data Error : Type 0 where
  safe : ErrorCode → Error
  value_error lookup_error overflow_error permission_error : String → Error
  stop_iteration timeout_error : Error

abbrev pub Outcome {ℓ} : Type ℓ → Type ℓ
Outcome A = Result Error A

-- A method of an object with state `S`.
abbrev pub Method : Type 0 → Type 0 → Type 0
Method S A = Exec.Exec Error S A

-- `code.value`
abbrev pub code_name : ErrorCode → String
code_name invalid_request = "INVALID_REQUEST"
code_name tenant_context_required = "TENANT_CONTEXT_REQUIRED"
code_name tenant_scope_denied = "TENANT_SCOPE_DENIED"
code_name authentication_required = "AUTHENTICATION_REQUIRED"
code_name authentication_expired = "AUTHENTICATION_EXPIRED"
code_name forbidden = "FORBIDDEN"
code_name resource_not_found = "RESOURCE_NOT_FOUND"
code_name conflict = "CONFLICT"
code_name stale_version = "STALE_VERSION"
code_name idempotency_conflict = "IDEMPOTENCY_CONFLICT"
code_name rate_limited = "RATE_LIMITED"
code_name dependency_timeout = "DEPENDENCY_TIMEOUT"
code_name dependency_unavailable = "DEPENDENCY_UNAVAILABLE"
code_name internal_error = "INTERNAL_ERROR"
