-- ===== src/Interview/Recording/Deletion.antt =====
-- What `delete_chunk` removes.
use gbsa_aws_project.Base.Exec.{Result-cases}
use gbsa_aws_project.Base.{
  ◌≡◌, subst, sym, ◌∙◌, refl, Bool, Option, none, some, true, false, arith, Bool-cases, inl, inr,
  if◌then◌else◌, ◌==◌, not, List, [], ◌∷◌, All, keep, map, any, any-append,
}
use gbsa_aws_project.Base.Equality.{eq, eq→≡, eq_refl, nat_eq, list_eq, pair_eq}
use gbsa_aws_project.Base.Dict.{lookup}
use gbsa_aws_project.Base.Exec.{ok}
use gbsa_aws_project.Shared.Ids.{OpaqueId}
use gbsa_aws_project.Shared.Tenant.{
  TenantContext, ApplicantScope, SessionKey, ensure_applicant_scope,
}
use gbsa_aws_project.Shared.Tenant.Isolation.{MayAct, ensure_applicant_scope_iff}
use gbsa_aws_project.Interview.Turn.{RecordingChunk}
use gbsa_aws_project.Interview.Recording.{
  Chunks, RecordingService, without, in_scope, drop_chunk, delete_chunk, scope_chunk_ids,
}
use gbsa_aws_project.Interview.Recording.Timeline.{Before, IsTimeline, Everywhere}

without_absent :
    (id : OpaqueId) (cs : Chunks)
    → any (λ i. i == id) (map (λ c. c.recording_chunk_id) (without id cs)) ≡ false
without_absent id [] = refl
without_absent id (c ∷ cs) = ground (arith, without_absent id cs)

drop_chunk_absent :
    (scope : ApplicantScope) (id : OpaqueId) (service : RecordingService)
    → any (λ i. i == id) (scope_chunk_ids scope (drop_chunk scope id service)) ≡ false
unfolding drop_chunk scope_chunk_ids
drop_chunk_absent scope id [] = refl
drop_chunk_absent scope id ((key, cs) ∷ service) = elim (Bool-cases (in_scope scope key)) [
  | inl here ↦ rw here (
      ground (
        arith,
        any-append (λ i. i == id) (map (λ c. c.recording_chunk_id) (without id cs))
            (scope_chunk_ids scope (drop_chunk scope id service)),
        without_absent id cs,
        drop_chunk_absent scope id service,
      ))
  | inr elsewhere ↦ rw elsewhere (drop_chunk_absent scope id service)
]

All-keep : {A : Type 0} (P : A → Type 0) (p : A → Bool) (xs : List A) → All P xs → All P (keep p xs)
All-keep P p [] h = tt
All-keep P p (x ∷ xs) h = elim (Bool-cases (p x)) [
  | inl stays ↦ rw stays (h.0, All-keep P p xs h.1)
  | inr goes ↦ rw goes (All-keep P p xs h.1)
]

keep-IsTimeline : (p : RecordingChunk → Bool) (cs : Chunks) → IsTimeline cs → IsTimeline (keep p cs)
keep-IsTimeline p [] line = tt
keep-IsTimeline p (c ∷ cs) line = elim (Bool-cases (p c)) [
  | inl stays ↦ rw stays (line.0, All-keep (Before c) p cs line.1, keep-IsTimeline p cs line.2)
  | inr goes ↦ rw goes (keep-IsTimeline p cs line.2)
]

-- The chunks of session `j` after a deletion, for those before it.
abbrev pub after_drop : ApplicantScope → OpaqueId → SessionKey → Option Chunks → Option Chunks
after_drop scope id j none = none
after_drop scope id j (some cs) = some (if in_scope scope j then without id cs else cs)

pub lookup-drop_chunk :
    (scope : ApplicantScope) (id : OpaqueId) (j : SessionKey) (service : RecordingService)
    → lookup j (drop_chunk scope id service) ≡ after_drop scope id j (lookup j service)
unfolding lookup drop_chunk
lookup-drop_chunk scope id j [] = refl
lookup-drop_chunk scope id j ((key, cs) ∷ service) = elim (Bool-cases (eq key j)) [
  | inl same ↦ rw (← (eq→≡ key j same), eq_refl key)
  | inr other ↦ rw other (lookup-drop_chunk scope id j service)
]

after_drop-IsTimeline :
    (scope : ApplicantScope) (id : OpaqueId) (j : SessionKey) (o : Option Chunks) (cs : Chunks)
    → ((ds : Chunks) → o ≡ some ds → IsTimeline ds)
    → after_drop scope id j o ≡ some cs
    → IsTimeline cs
after_drop-IsTimeline scope id j none cs all h = absurd (ground arith)
after_drop-IsTimeline scope id j (some ds) cs all h = elim (Bool-cases (in_scope scope j)) [
  | inl here ↦
      let e : without id ds ≡ cs = ground arith in
      subst IsTimeline {x = without id ds} e
        (keep-IsTimeline (λ c. not (c.recording_chunk_id == id)) ds (all ds refl))
  | inr elsewhere ↦ let e : ds ≡ cs = ground arith in subst IsTimeline {x = ds} e (all ds refl)
]

drop_chunk-IsTimeline :
    (scope : ApplicantScope) (id : OpaqueId) (service : RecordingService)
    → Everywhere IsTimeline service
    → Everywhere IsTimeline (drop_chunk scope id service)
drop_chunk-IsTimeline scope id service all j cs at =
    after_drop-IsTimeline scope id j (lookup j service) cs (all j)
      (sym (lookup-drop_chunk scope id j service) ∙ at)

-- For an actor of the scope, `delete_chunk` always reports the chunk as absent, and it is: each
-- session of the scope has lost exactly the chunks of that identifier, and every other session has
-- what it had.
pub delete_chunk_lem :
    (context : TenantContext) (scope : ApplicantScope) (id : OpaqueId) (service : RecordingService)
    → MayAct context scope
    → let (result, service') = delete_chunk context scope id service in
      (result ≡ ok true)
      × (any (λ i. i == id) (scope_chunk_ids scope service') ≡ false)
      × ((j : SessionKey) → lookup j service' ≡ after_drop scope id j (lookup j service))
unfolding delete_chunk
delete_chunk_lem context scope id service may =
    rw ((ensure_applicant_scope_iff context scope).1 may) (
      ground (arith, drop_chunk_absent scope id service),
      drop_chunk_absent scope id service,
      λ j. lookup-drop_chunk scope id j service,
    )

-- A deletion, however it ends, keeps the chunks of every session a timeline.
pub delete_chunk-IsTimeline :
    (context : TenantContext) (scope : ApplicantScope) (id : OpaqueId) (service : RecordingService)
    → Everywhere IsTimeline service
    → Everywhere IsTimeline (delete_chunk context scope id service).1
unfolding delete_chunk
delete_chunk-IsTimeline context scope id service all =
    elim (Result-cases (ensure_applicant_scope (some context) scope)) [
      | inl (_, passed) ↦ rw passed (drop_chunk-IsTimeline scope id service all)
      | inr (e, denied) ↦ rw denied all
    ]
