-- ===== src/Submission/Storage.antt =====
-- submission_analysis/adapters/object_storage.py: uploads and what was intended with them.
pub mod Accepted
pub mod Foreign
use gbsa_aws_project.Base.{
  ℕ, ◌+◌, ◌*◌, Bool, true, false, not, ◌&&◌, Option, none, some, List, [], ◌∷◌, ltb, ◌==◌, length,
  map, any, keep, if◌then◌else◌,
}
use gbsa_aws_project.Base.Equality.{Eq, eq, nat_eq, list_eq, pair_eq}
use gbsa_aws_project.Base.Dict.{Dict, lookup, insert, remove}
use gbsa_aws_project.Base.Exec.{ok, err, raise_if, ◌>>=◌, ◌>>◌}
use gbsa_aws_project.Shared.Errors.{
  Outcome, Method, safe, tenant_scope_denied, resource_not_found, authentication_expired,
  invalid_request, conflict,
}
use gbsa_aws_project.Shared.Ids.{OpaqueId, Instant}
use gbsa_aws_project.Shared.Tenant.{TenantContext, ApplicantScope, ensure_applicant_scope}
use gbsa_aws_project.Interview.Text.{Text}

pub record UploadIntentRecord : Type 0 where
  pub upload_id : OpaqueId
  pub scope : ApplicantScope
  pub source_type : Text
  pub filename : Text
  pub media_type : Text
  pub expected_byte_size : ℕ
  pub expected_sha256 : Text
  pub object_id : OpaqueId
  pub expires_at : Instant
  pub uploaded : Bool

-- The intents by company and upload. The object storage answers through arguments.
abbrev pub SubmissionObjectStorage : Type 0
SubmissionObjectStorage = Dict (OpaqueId × OpaqueId) UploadIntentRecord

-- `left == right` of scopes
abbrev pub is_scope : ApplicantScope → ApplicantScope → Bool
is_scope a b =
    a.company_id == b.company_id
    && a.applicant_id == b.applicant_id
    && a.invitation_id == b.invitation_id

-- The keyword arguments of `create_intent`, the identifiers that it draws and the clock.
pub record UploadRequest : Type 0 where
  pub source_type : Text
  pub filename : Text
  pub media_type : Text
  pub byte_size : ℕ
  pub sha256 : Text
  pub upload_id : OpaqueId
  pub object_id : OpaqueId
  pub now : Instant

abbrev pub intent_of : ApplicantScope → UploadRequest → UploadIntentRecord
intent_of scope q = record {
  upload_id = q.upload_id;
  scope = scope;
  source_type = q.source_type;
  filename = q.filename;
  media_type = q.media_type;
  expected_byte_size = q.byte_size;
  expected_sha256 = q.sha256;
  object_id = q.object_id;
  expires_at = q.now + 15 * 60 * 1000;
  uploaded = false;
}

-- What the storage signs: method, address, headers and expiry.
pub record SignedUploadIntent : Type 0 where
  pub method : Text
  pub url : Text
  pub required_headers : List (Text × Text)
  pub expires_at : Instant

abbrev pub keep_intent :
    UploadIntentRecord
    → Outcome SignedUploadIntent
    → Outcome ApplicantScope
    → Method SubmissionObjectStorage (OpaqueId × SignedUploadIntent)
keep_intent r signed (err e) intents = (err e, intents)
keep_intent r signed (ok _) intents =
    (signed >>= λ s. ok (r.upload_id, s), insert (r.scope.company_id, r.upload_id) r intents)

-- `SubmissionObjectStorage.create_intent`; `signed` is the answer of `authorize_upload`. The
-- intent is kept also if that raises.
unfoldable pub create_intent :
    TenantContext
    → ApplicantScope
    → UploadRequest
    → (signed : Outcome SignedUploadIntent)
    → Method SubmissionObjectStorage (OpaqueId × SignedUploadIntent)
create_intent context scope q signed intents =
    keep_intent (intent_of scope q) signed (ensure_applicant_scope (some context) scope) intents

abbrev pub found_intent :
    ApplicantScope
    → OpaqueId
    → SubmissionObjectStorage
    → Option UploadIntentRecord
    → Outcome UploadIntentRecord
found_intent scope upload_id intents none =
    if any (λ x. x.0.1 == upload_id) intents
    then err (safe tenant_scope_denied)
    else err (safe resource_not_found)
found_intent scope upload_id intents (some r) =
    if not (is_scope r.scope scope) then err (safe tenant_scope_denied) else ok r

-- `SubmissionObjectStorage.intent`
unfoldable pub intent :
    TenantContext
    → ApplicantScope
    → (upload_id : OpaqueId) → SubmissionObjectStorage
    → Outcome UploadIntentRecord
intent context scope upload_id intents =
    ensure_applicant_scope (some context) scope
    >> found_intent scope upload_id intents (lookup (scope.company_id, upload_id) intents)

-- `record.uploaded = True` after the checks
abbrev pub mark_uploaded :
    ApplicantScope
    → OpaqueId
    → Outcome UploadIntentRecord
    → Method SubmissionObjectStorage UploadIntentRecord
mark_uploaded scope upload_id (err e) intents = (err e, intents)
mark_uploaded scope upload_id (ok r) intents =
    let marked = record r { uploaded = true } in
    (ok marked, insert (scope.company_id, upload_id) marked intents)

-- the checks of an upload against its intent
unfoldable pub check_upload :
    (sha256 : List ℕ → Text)
    → (content : List ℕ) → (media_type : Text) → Instant
    → UploadIntentRecord
    → Outcome (Unit {0})
check_upload sha256 content media_type now r = do
  raise_if (ltb r.expires_at now) (safe authentication_expired)
  raise_if (not (eq media_type r.media_type)) (safe invalid_request)
  raise_if (not (length content == r.expected_byte_size)) (safe invalid_request)
  raise_if (not (eq (sha256 content) r.expected_sha256)) (safe invalid_request)

-- `SubmissionObjectStorage.accept_upload`; `put` is the answer of the storage.
unfoldable pub accept_upload :
    (sha256 : List ℕ → Text)
    → TenantContext
    → ApplicantScope
    → (upload_id : OpaqueId) → (content : List ℕ) → (media_type : Text) → (now : Instant)
    → (put : Outcome (Unit {0})) → Method SubmissionObjectStorage UploadIntentRecord
unfolding intent check_upload
accept_upload sha256 context scope upload_id content media_type now put intents =
    mark_uploaded scope upload_id
      (intent context scope upload_id intents >>= λ r.
        check_upload sha256 content media_type now r >> put >> ok r)
      intents

-- `SubmissionObjectStorage.verify_upload`; `verified` is the answer of the storage.
unfoldable pub verify_upload :
    TenantContext
    → ApplicantScope
    → (upload_id : OpaqueId) → (now : Instant) → (verified : Outcome (Unit {0}))
    → Method SubmissionObjectStorage UploadIntentRecord
unfolding intent
verify_upload context scope upload_id now verified intents =
    mark_uploaded scope upload_id
      (intent context scope upload_id intents >>= λ r.
        raise_if (ltb r.expires_at now) (safe authentication_expired) >> verified >> ok r)
      intents

-- `SubmissionObjectStorage.read_upload`; `content` is the answer of the storage.
unfoldable pub read_upload :
    TenantContext
    → ApplicantScope
    → (upload_id : OpaqueId) → (content : Outcome (List ℕ)) → SubmissionObjectStorage
    → Outcome (List ℕ)
unfolding intent
read_upload context scope upload_id content intents = do
  r ← intent context scope upload_id intents
  raise_if (not r.uploaded) (safe conflict)
  content

-- `SubmissionObjectStorage.upload_ids`
unfoldable pub upload_ids :
    TenantContext → ApplicantScope → SubmissionObjectStorage → Outcome (List OpaqueId)
upload_ids context scope intents = do
  ensure_applicant_scope (some context) scope
  ok (map (λ x. x.0.1) (keep (λ x. x.0.0 == scope.company_id && is_scope x.1.scope scope) intents))

abbrev pub pop_if : ApplicantScope → OpaqueId → Outcome Bool → Method SubmissionObjectStorage Bool
pop_if scope upload_id (err e) intents = (err e, intents)
pop_if scope upload_id (ok false) intents = (ok false, intents)
pop_if scope upload_id (ok true) intents = (ok true, remove (scope.company_id, upload_id) intents)

-- `SubmissionObjectStorage.delete_upload`; `absent` is what the storage says of the object then. An
-- intent stands under its own identifier.
unfoldable pub delete_upload :
    TenantContext
    → ApplicantScope
    → (upload_id : OpaqueId) → (absent : Outcome Bool) → Method SubmissionObjectStorage Bool
unfolding intent
delete_upload context scope upload_id absent intents =
    pop_if scope upload_id (intent context scope upload_id intents >> absent) intents
