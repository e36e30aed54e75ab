-- ===== src/Interview/Recording.antt =====
-- interview_engine/application/recording_service.py: recording chunks by session. The lock makes
-- `accept` one step.
pub mod Timeline
pub mod Accept
pub mod Deletion
pub mod Retry
use gbsa_aws_project.Base.{
  ℕ, ◌+◌, ◌<◌, Bool, true, false, not, ◌&&◌, ◌||◌, Option, none, some, List, [], ◌∷◌, ◌++◌, ltb,
  leb, ◌==◌, if◌then◌else◌, length, all, find, last?, keep, map, any,
}
use gbsa_aws_project.Base.Equality.{Eq, eq, nat_eq, list_eq, pair_eq}
use gbsa_aws_project.Base.Dict.{Dict, lookup, insert}
use gbsa_aws_project.Base.Exec.{Result, ok, err, raise_if, ◌>>=◌, ◌>>◌, or_raise}
use gbsa_aws_project.Shared.Errors.{Error, Outcome, Method, safe, value_error, idempotency_conflict}
use gbsa_aws_project.Shared.Ids.{OpaqueId, Instant}
use gbsa_aws_project.Shared.Tenant.{
  TenantContext, ApplicantScope, SessionKey, session_key, ensure_applicant_scope,
}
use gbsa_aws_project.Interview.Text.{Text, codes, uuid_text}
use gbsa_aws_project.Interview.Turn.{
  RecordingChunk, UploadStatus, verified, is_sha256, chunk_post_init,
}

abbrev pub Chunks : Type 0
Chunks = List RecordingChunk

-- `RecordingService._chunks`
abbrev pub RecordingService : Type 0
RecordingService = Dict SessionKey Chunks

-- `required_headers` holds the byte size and the digest that were authorized.
pub record RecordingUploadIntent : Type 0 where
  pub recording_chunk_id : OpaqueId
  pub chunk_sequence : ℕ
  pub upload_url : Text
  pub expires_at : Instant
  pub content_length : ℕ
  pub content_sha256 : Text

-- `self._chunks.get(key, [])`
abbrev pub or_empty : Option Chunks → Chunks
or_empty none = []
or_empty (some chunks) = chunks

-- `chunks[-1].sequence if chunks else 0`
abbrev pub last_sequence : Chunks → ℕ
last_sequence chunks = elim (last? chunks) [ none ↦ 0 | some chunk ↦ chunk.sequence ]

unfoldable pub last_verified_sequence :
    TenantContext → ApplicantScope → OpaqueId → RecordingService → Outcome ℕ
unfolding ensure_applicant_scope
last_verified_sequence context scope session_id service = do
  ensure_applicant_scope (some context) scope
  ok (last_sequence (or_empty (lookup (session_key scope session_id) service)))

abbrev slash : Text → Text → Text
slash a b = a ++ (b'/' ∷ b)

-- `authorize`, with the generator's next identifier and the clock's reading; `url_ttl` is the
-- service's, in milliseconds. It changes nothing.
unfoldable pub authorize :
    (url_ttl : ℕ)
    → TenantContext
    → ApplicantScope
    → (session_id : OpaqueId) → (sequence byte_size : ℕ) → (sha256 : Text) → (new_id : OpaqueId)
    → Instant
    → RecordingService
    → Outcome RecordingUploadIntent
unfolding ensure_applicant_scope last_verified_sequence is_sha256 uuid_text
authorize url_ttl context scope session_id sequence byte_size sha256 new_id now service = do
  ensure_applicant_scope (some context) scope
  raise_if (ltb byte_size 1) (value_error "recording byte_size must be positive")
  raise_if (not (is_sha256 sha256)) (value_error "recording sha256 is invalid")
  last ← last_verified_sequence context scope session_id service
  raise_if (not (sequence == last + 1)) (value_error "recording chunk sequence is not contiguous")
  ok (record {
    recording_chunk_id = new_id;
    chunk_sequence = sequence;
    upload_url =
        codes "https://media.example.invalid/recording/"
        ++ slash (uuid_text scope.company_id) (slash (uuid_text session_id) (uuid_text new_id));
    expires_at = now + url_ttl;
    content_length = byte_size;
    content_sha256 = sha256;
  })

-- The arguments of `accept` that describe the chunk.
pub record Upload : Type 0 where
  pub sequence : ℕ
  pub content : List ℕ
  pub sha256 : Text
  pub start_ms : ℕ
  pub end_ms : ℕ
  pub idempotency_key : Text

abbrev pub chunk_of : ApplicantScope → OpaqueId → OpaqueId → Instant → Upload → RecordingChunk
chunk_of scope session_id new_id now u = record {
  recording_chunk_id = new_id;
  company_id = scope.company_id;
  interview_session_id = session_id;
  sequence = u.sequence;
  object_key =
      codes "recording/"
      ++ slash (uuid_text scope.company_id) (slash (uuid_text session_id) (uuid_text new_id));
  content_hash = u.sha256;
  byte_size = length u.content;
  session_start_ms = u.start_ms;
  session_end_ms = u.end_ms;
  upload_status = verified;
  idempotency_key = u.idempotency_key;
  created_at = now;
}

-- the replayed chunk has the arguments of this upload
unfoldable pub same_upload : RecordingChunk → Upload → Bool
same_upload chunk u =
    chunk.sequence == u.sequence
    && eq chunk.content_hash u.sha256
    && chunk.byte_size == length u.content
    && chunk.session_start_ms == u.start_ms
    && chunk.session_end_ms == u.end_ms

-- `chunks and start_ms < chunks[-1].session_end_ms`
abbrev pub overlaps : Chunks → ℕ → Bool
overlaps chunks start_ms = elim (last? chunks) [
  | none ↦ false
  | some chunk ↦ ltb start_ms chunk.session_end_ms
]

-- The chunk that `accept` returns and the chunks of the session after it, for the chunk that a
-- replay of the key has found.
pub place :
    Option RecordingChunk → RecordingChunk → Upload → Chunks → Outcome (RecordingChunk × Chunks)
unfolding same_upload chunk_post_init
place (some replay) made u chunks = do
  raise_if (not (same_upload replay u)) (safe idempotency_conflict)
  ok (replay, chunks)
place none made u chunks = do
  raise_if (not (u.sequence == last_sequence chunks + 1))
      (value_error "recording chunk sequence is not contiguous")
  raise_if (overlaps chunks u.start_ms)
      (value_error "recording chunk time range overlaps a verified chunk")
  chunk ← chunk_post_init made
  ok (chunk, chunks ++ chunk ∷ [])

abbrev pub has_key : Text → RecordingChunk → Bool
has_key idempotency_key chunk = eq chunk.idempotency_key idempotency_key

-- `self._chunks.setdefault(key, [])` stores the empty list also where a later check raises.
pub store :
    SessionKey
    → Chunks
    → RecordingService
    → Outcome (RecordingChunk × Chunks)
    → Outcome RecordingChunk × RecordingService
store key chunks service (ok (chunk, chunks')) = (ok chunk, insert key chunks' service)
store key chunks service (err e) = (err e, insert key chunks service)

pub accept_checked :
    SessionKey
    → RecordingChunk
    → Upload
    → Outcome (Unit {0})
    → Method RecordingService RecordingChunk
unfolding place store
accept_checked key made u (err e) service = (err e, service)
accept_checked key made u (ok _) service =
    let chunks = or_empty (lookup key service) in
    store key chunks service (place (find (has_key u.idempotency_key) chunks) made u chunks)

-- `accept`, where `digest` is the hexadecimal SHA-256 of the content.
module _ (digest : List ℕ → Text) where
  pub accept_checks : TenantContext → ApplicantScope → Upload → Outcome (Unit {0})
  unfolding ensure_applicant_scope
  accept_checks context scope u = do
    ensure_applicant_scope (some context) scope
    raise_if (not (eq (digest u.content) u.sha256))
        (value_error "recording chunk digest does not match")

  unfoldable pub accept :
      TenantContext
      → ApplicantScope
      → (session_id new_id : OpaqueId) → Instant
      → Upload
      → Method RecordingService RecordingChunk
  unfolding accept_checked accept_checks
  accept context scope session_id new_id now u =
      accept_checked (session_key scope session_id) (chunk_of scope session_id new_id now u) u
        (accept_checks context scope u)

-- `key[:3] == prefix`
abbrev pub in_scope : ApplicantScope → SessionKey → Bool
in_scope scope (company, (applicant, (invitation, _))) =
    company == scope.company_id
    && applicant == scope.applicant_id
    && invitation == scope.invitation_id

unfoldable pub scope_chunk_ids : ApplicantScope → RecordingService → List OpaqueId
scope_chunk_ids scope [] = []
scope_chunk_ids scope ((key, chunks) ∷ service) =
    let rest = scope_chunk_ids scope service in
    if in_scope scope key then map (λ c. c.recording_chunk_id) chunks ++ rest else rest

unfoldable pub chunk_ids :
    TenantContext → ApplicantScope → RecordingService → Outcome (List OpaqueId)
unfolding ensure_applicant_scope scope_chunk_ids
chunk_ids context scope service = do
  ensure_applicant_scope (some context) scope
  ok (scope_chunk_ids scope service)

-- `chunks[:] = [chunk for chunk in chunks if chunk.recording_chunk_id != checked_id]`
abbrev pub without : OpaqueId → Chunks → Chunks
without id chunks = keep (λ c. not (c.recording_chunk_id == id)) chunks

unfoldable pub drop_chunk : ApplicantScope → OpaqueId → RecordingService → RecordingService
drop_chunk scope id [] = []
drop_chunk scope id ((key, chunks) ∷ service) =
    (key, if in_scope scope key then without id chunks else chunks) ∷ drop_chunk scope id service

unfoldable pub delete_checked :
    ApplicantScope → OpaqueId → Outcome ApplicantScope → Method RecordingService Bool
unfolding drop_chunk scope_chunk_ids
delete_checked scope id (err e) service = (err e, service)
delete_checked scope id (ok _) service =
    let service' = drop_chunk scope id service in
    (ok (not (any (λ i. i == id) (scope_chunk_ids scope service'))), service')

-- `delete_chunk`: the result is whether the scope has no chunk of that identifier any more.
unfoldable pub delete_chunk :
    TenantContext → ApplicantScope → OpaqueId → Method RecordingService Bool
unfolding delete_checked
delete_chunk context scope id service =
    delete_checked scope id (ensure_applicant_scope (some context) scope) service
