-- ===== src/Interview/Recording/Retry.antt =====
-- A repeated upload of a chunk.
use gbsa_aws_project.Base.{ℕ, ◌≡◌, subst, refl, some, true, arith, inl, inr, List, find}
use gbsa_aws_project.Base.Equality.{nat_eq, list_eq, pair_eq}
use gbsa_aws_project.Base.Dict.{lookup, insert}
use gbsa_aws_project.Base.Exec.{ok, err}
use gbsa_aws_project.Shared.Errors.{Outcome}
use gbsa_aws_project.Shared.Ids.{OpaqueId, Instant}
use gbsa_aws_project.Shared.Tenant.{TenantContext, ApplicantScope, SessionKey, session_key}
use gbsa_aws_project.Interview.Text.{Text}
use gbsa_aws_project.Interview.Turn.{RecordingChunk}
use gbsa_aws_project.Interview.Recording.{
  Chunks, RecordingService, or_empty, Upload, chunk_of, place, store, has_key, accept_checks,
  accept_checked, accept,
}
use gbsa_aws_project.Interview.Recording.Timeline.{place-ok}
use gbsa_aws_project.Base.{find-append}
use gbsa_aws_project.Base.Equality.{eq_refl}
use gbsa_aws_project.Base.Dict.{lookup-insert_self, insert-lookup}
use gbsa_aws_project.Shared.Tenant.Isolation.{MayAct, ensure_applicant_scope_iff}
use gbsa_aws_project.Interview.Recording.{same_upload}

-- The chunks hold `c` under the key of the upload that made it.
record Holds (u : Upload) (c : RecordingChunk) (cs : Chunks) : Type 0 where
  found : find (has_key u.idempotency_key) cs ≡ some c
  same : same_upload c u ≡ true

same_upload-made :
    (scope : ApplicantScope) (session_id new_id : OpaqueId) (now : Instant) (u : Upload)
    → same_upload (chunk_of scope session_id new_id now u) u ≡ true
unfolding same_upload
same_upload-made scope session_id new_id now u = ground (arith, eq_refl u.sha256)

place-Holds :
    (scope : ApplicantScope) (session_id new_id : OpaqueId) (now : Instant) (u : Upload)
    (cs cs' : Chunks) (c : RecordingChunk)
    → place (find (has_key u.idempotency_key) cs) (chunk_of scope session_id new_id now u) u cs
      ≡ ok (c, cs')
    → Holds u c cs'
place-Holds scope session_id new_id now u cs cs' c h =
    let made = chunk_of scope session_id new_id now u in
    elim (place-ok (find (has_key u.idempotency_key) cs) made u cs h) [
      | inl (found, same, agrees) ↦ record { found = rw same found; same = agrees }
      | inr (new, e, same, long, next, clear) ↦ record {
        found =
            rw (same, find-append (has_key u.idempotency_key) cs made new)
              (ground (arith, eq_refl u.idempotency_key, e));
        same = rw e (same_upload-made scope session_id new_id now u);
      }
    ]

store-Holds :
    (key : SessionKey) (u : Upload) (cs : Chunks) (service service' : RecordingService)
    (o : Outcome (RecordingChunk × Chunks)) (c : RecordingChunk)
    → ((cs' : Chunks) → o ≡ ok (c, cs') → Holds u c cs')
    → store key cs service o ≡ (ok c, service')
    → (cs' : Chunks) × (lookup key service' ≡ some cs') × Holds u c cs'
unfolding store
store-Holds key u cs service service' (ok (d, cs')) c holds h =
    let e : insert key cs' service ≡ service' = ground arith in
    (
      cs',
      subst (λ m. lookup key m ≡ some cs') {x = insert key cs' service} e
          (lookup-insert_self key cs' service),
      holds cs' (ground arith),
    )
store-Holds key u cs service service' (err e) c holds h = absurd (ground arith)

accept_checked-Holds :
    (scope : ApplicantScope) (session_id new_id : OpaqueId) (now : Instant) (u : Upload)
    (checked : Outcome (Unit {0})) (service service' : RecordingService) (c : RecordingChunk)
    → accept_checked
        (session_key scope session_id)
        (chunk_of scope session_id new_id now u)
        u
        checked
        service
      ≡ (ok c, service')
    → (cs : Chunks) × (lookup (session_key scope session_id) service' ≡ some cs) × Holds u c cs
unfolding accept_checked
accept_checked-Holds scope session_id new_id now u (ok _) service service' c h =
    let cs = or_empty (lookup (session_key scope session_id) service) in
    store-Holds (session_key scope session_id) u cs service service'
      (place (find (has_key u.idempotency_key) cs) (chunk_of scope session_id new_id now u) u cs) c
      (λ cs'. place-Holds scope session_id new_id now u cs cs' c) h
accept_checked-Holds scope session_id new_id now u (err e) service service' c h =
    absurd (ground arith)

accept_checked-repeat :
    (key : SessionKey) (made : RecordingChunk) (u : Upload) (service : RecordingService)
    (cs : Chunks) (c : RecordingChunk)
    → lookup key service ≡ some cs
    → Holds u c cs
    → accept_checked key made u (ok tt) service ≡ (ok c, service)
unfolding accept_checked store place
accept_checked-repeat key made u service cs c at holds =
    rw (at, holds.found, holds.same) (ground (arith, insert-lookup key cs service at))

accept_checked-passed :
    (key : SessionKey) (made : RecordingChunk) (u : Upload) (checked : Outcome (Unit {0}))
    (service service' : RecordingService) (c : RecordingChunk)
    → accept_checked key made u checked service ≡ (ok c, service')
    → checked ≡ ok tt
unfolding accept_checked
accept_checked-passed key made u (ok tt) service service' c h = refl
accept_checked-passed key made u (err e) service service' c h = absurd (ground arith)

module _ (digest : List ℕ → Text) (context context' : TenantContext) (scope : ApplicantScope)
    (session_id new_id new_id' : OpaqueId) (now now' : Instant) (u : Upload)
    (service service' : RecordingService) (c : RecordingChunk) where
  digest_matches :
      accept_checks digest context scope u ≡ ok tt
      → MayAct context' scope
      → accept_checks digest context' scope u ≡ ok tt
  unfolding accept_checks
  digest_matches h may = ground (arith, (ensure_applicant_scope_iff context' scope).1 may)

  -- Once an upload was accepted, the same upload by any actor of the scope, with another identifier
  -- and at another time, returns the chunk that was stored first and changes nothing.
  pub accept_retry :
      accept digest context scope session_id new_id now u service ≡ (ok c, service')
      → MayAct context' scope
      → accept digest context' scope session_id new_id' now' u service' ≡ (ok c, service')
  unfolding accept
  accept_retry h may =
      let key = session_key scope session_id in
      let made = chunk_of scope session_id new_id now u in
      let checked = accept_checks digest context scope u in
      let (cs, at, holds) =
        accept_checked-Holds scope session_id new_id now u checked service service' c h in
      let passed = accept_checked-passed key made u checked service service' c h in
      rw (digest_matches passed may) (
        accept_checked-repeat key (chunk_of scope session_id new_id' now' u) u service' cs c at
          holds)
