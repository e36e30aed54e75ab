-- ===== src/Interview/Recording/Accept.antt =====
-- What `accept` does to the chunks of each session.
use gbsa_aws_project.Base.{ℕ, ◌≡◌, refl, arith, inl, inr, List, [], find}
use gbsa_aws_project.Base.Equality.{nat_eq, list_eq, pair_eq}
use gbsa_aws_project.Base.Dict.{lookup}
use gbsa_aws_project.Base.Exec.{ok, err}
use gbsa_aws_project.Shared.Errors.{Outcome}
use gbsa_aws_project.Shared.Ids.{OpaqueId, Instant}
use gbsa_aws_project.Shared.Tenant.{TenantContext, ApplicantScope, SessionKey, session_key}
use gbsa_aws_project.Interview.Text.{Text}
use gbsa_aws_project.Interview.Turn.{RecordingChunk}
use gbsa_aws_project.Interview.Recording.{
  Chunks, RecordingService, or_empty, Upload, chunk_of, place, store, has_key, accept_checks,
  accept_checked, accept,
}
use gbsa_aws_project.Interview.Recording.Timeline.{
  IsTimeline, IsNumbered, Everywhere, insert-Everywhere, or_empty-Everywhere, place-ok,
  overlaps-Follows, IsTimeline-append, IsNumbered-append, last_sequence-IsNumbered,
}

module _ (P : Chunks → Type 0) (empty : P []) (key : SessionKey) (made : RecordingChunk)
    (u : Upload)
    (placed : (cs cs' : Chunks) (c : RecordingChunk)
      → P cs
      → place (find (has_key u.idempotency_key) cs) made u cs ≡ ok (c, cs')
      → P cs') where
  store-Everywhere :
      (cs : Chunks) (service : RecordingService) (o : Outcome (RecordingChunk × Chunks))
      → P cs
      → ((c : RecordingChunk) (cs' : Chunks) → o ≡ ok (c, cs') → P cs')
      → Everywhere P service
      → Everywhere P (store key cs service o).1
  unfolding store
  store-Everywhere cs service (ok (c, cs')) p p' all =
      insert-Everywhere P key cs' service (p' c cs' refl) all
  store-Everywhere cs service (err e) p p' all = insert-Everywhere P key cs service p all

  accept_checked-Everywhere :
      (checked : Outcome (Unit {0})) (service : RecordingService)
      → Everywhere P service
      → Everywhere P (accept_checked key made u checked service).1
  unfolding accept_checked
  accept_checked-Everywhere (ok _) service all =
      let cs = or_empty (lookup key service) in
      let p : P cs = or_empty-Everywhere P key service empty all in
      store-Everywhere cs service (place (find (has_key u.idempotency_key) cs) made u cs) p
        (λ c cs'. placed cs cs' c p) all
  accept_checked-Everywhere (err e) service all = all

module _ (digest : List ℕ → Text) (context : TenantContext) (scope : ApplicantScope)
    (session_id new_id : OpaqueId) (now : Instant) (u : Upload) where
  abbrev made : RecordingChunk
  made = chunk_of scope session_id new_id now u

  place-IsTimeline :
      (cs cs' : Chunks) (c : RecordingChunk)
      → IsTimeline cs
      → place (find (has_key u.idempotency_key) cs) made u cs ≡ ok (c, cs')
      → IsTimeline cs'
  place-IsTimeline cs cs' c line h =
      elim (place-ok (find (has_key u.idempotency_key) cs) made u cs h) [
        | inl (found, same, _) ↦ rw same line
        | inr (new, e, same, long, next, clear) ↦
            rw same (IsTimeline-append made cs long line (overlaps-Follows made cs next clear))
      ]

  place-IsNumbered :
      (cs cs' : Chunks) (c : RecordingChunk)
      → IsNumbered 1 cs
      → place (find (has_key u.idempotency_key) cs) made u cs ≡ ok (c, cs')
      → IsNumbered 1 cs'
  place-IsNumbered cs cs' c numbered h =
      elim (place-ok (find (has_key u.idempotency_key) cs) made u cs h) [
        | inl (found, same, _) ↦ rw same numbered
        | inr (new, e, same, long, next, clear) ↦ rw same (
            IsNumbered-append 1 made cs numbered
              (omega (arith, last_sequence-IsNumbered cs numbered, next)))
      ]

  -- `accept`, however it ends, keeps the chunks of every session a timeline: sequences rise, every
  -- chunk has a positive length, and no two ranges overlap.
  pub accept-IsTimeline :
      (service : RecordingService)
      → Everywhere IsTimeline service
      → Everywhere IsTimeline (accept digest context scope session_id new_id now u service).1
  unfolding accept
  accept-IsTimeline service all =
      accept_checked-Everywhere IsTimeline tt (session_key scope session_id) made u place-IsTimeline
        (accept_checks digest context scope u) service all

  -- As long as no chunk is deleted, the chunks of every session are numbered 1, 2, 3 and so on:
  -- `accept`, however it ends, keeps that.
  pub accept-IsNumbered :
      (service : RecordingService)
      → Everywhere (IsNumbered 1) service
      → Everywhere (IsNumbered 1) (accept digest context scope session_id new_id now u service).1
  unfolding accept
  accept-IsNumbered service all =
      accept_checked-Everywhere (IsNumbered 1) tt (session_key scope session_id) made u
        place-IsNumbered (accept_checks digest context scope u) service all
