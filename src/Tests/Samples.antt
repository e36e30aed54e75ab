-- ===== src/Tests/Samples.antt =====
-- Small inputs that the tests share.
use gbsa_aws_project.Base.{refl, inl, inr, none, []}
use gbsa_aws_project.Shared.Tenant.{ActorType, TenantContext, ApplicantScope}
use gbsa_aws_project.Shared.Tenant.Isolation.{MayAct}
use gbsa_aws_project.Interview.Text.{Text, codes}
use gbsa_aws_project.Interview.Session.{SessionState, InterviewSession}

abbrev pub scope : ApplicantScope
scope = record { company_id = 1; applicant_id = 2; invitation_id = 3 }

abbrev pub applicant : TenantContext
applicant = record {
  company_id = 1;
  actor_type = ActorType.applicant;
  actor_id = 2;
  request_id = 9;
  trace_id = codes "trace";
}

abbrev pub reviewer : TenantContext
reviewer = record {
  company_id = 1;
  actor_type = ActorType.company_user;
  actor_id = 8;
  request_id = 9;
  trace_id = codes "trace";
}

abbrev pub stranger : TenantContext
stranger = record applicant { actor_id = 4 }

pub applicant-MayAct : MayAct applicant scope
applicant-MayAct = record { company = refl; own = inr refl }

pub reviewer-MayAct : MayAct reviewer scope
reviewer-MayAct = record { company = refl; own = inl (λ e. cc) }

abbrev pub key : Text
key = codes "command-key-0001"

abbrev pub session : InterviewSession
session = record {
  interview_session_id = 7;
  scope = scope;
  interview_strategy_id = 5;
  competency_model_version_id = 6;
  state = SessionState.preparing;
  session_sequence = 0;
  row_version = 1;
  created_at = 100;
  started_at = none;
  completed_at = none;
  degraded_modes = [];
}
