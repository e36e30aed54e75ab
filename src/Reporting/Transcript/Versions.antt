-- ===== src/Reporting/Transcript/Versions.antt =====
-- The versions of a segment are numbered, and differ in the text only.
use gbsa_aws_project.Base.{
  ℕ, suc, ◌+◌, ◌≡◌, refl, sym, ◌∙◌, subst, ap, Option, none, some, List, [], ◌∷◌, ◌++◌, last?,
  length, arith, Option-cases, inl, inr,
}
use gbsa_aws_project.Base.Equality.{nat_eq, pair_eq}
use gbsa_aws_project.Base.Dict.{lookup, Holds, insert-Holds}
use gbsa_aws_project.Base.Exec.{ok, err, Result-cases}
use gbsa_aws_project.Shared.Errors.{Outcome}
use gbsa_aws_project.Shared.Ids.{OpaqueId, Instant}
use gbsa_aws_project.Shared.Tenant.{TenantContext}
use gbsa_aws_project.Interview.Text.{Text}
use gbsa_aws_project.Reporting.Timeline.{TranscriptSegment, segment_post_init}
use gbsa_aws_project.Reporting.Transcript.{
  TranscriptService, Ingestion, segment_of, keep_segment, ingest, corrected, keep_correction,
  correct_versions, correct,
}

-- The same segment, of the same turn and range.
pub record IsVersionOf (s t : TranscriptSegment) : Type 0 where
  pub ident : t.transcript_segment_id ≡ s.transcript_segment_id
  pub turn : t.turn_id ≡ s.turn_id
  pub start : t.session_start_ms ≡ s.session_start_ms
  pub end : t.session_end_ms ≡ s.session_end_ms

-- Versions `n`, `n + 1` and so on of the segment `s`.
abbrev pub AreVersions : ℕ → TranscriptSegment → List TranscriptSegment → Type 0
AreVersions n s [] = Unit
AreVersions n s (t ∷ ts) = (t.version ≡ n) × IsVersionOf s t × AreVersions (suc n) s ts

AreVersions-append :
    (n : ℕ) (s : TranscriptSegment) (ts : List TranscriptSegment) (u : TranscriptSegment)
    → AreVersions n s ts
    → u.version ≡ n + length ts
    → IsVersionOf s u
    → AreVersions n s (ts ++ u ∷ [])
AreVersions-append n s [] u h e v = (omega arith, v, tt)
AreVersions-append n s (t ∷ ts) u h e v =
    (h.0, h.1, AreVersions-append (suc n) s ts u h.2 (omega arith) v)

last?-none : (ts : List TranscriptSegment) → last? ts ≡ none → length ts ≡ 0
last?-none [] e = refl
last?-none (t ∷ ts) e = elim (Option-cases (last? ts)) [
  | inl only ↦ absurd (ground arith)
  | inr (m, more) ↦ absurd (ground arith)
]

last-AreVersions :
    (n : ℕ) (s : TranscriptSegment) (ts : List TranscriptSegment) (l : TranscriptSegment)
    → AreVersions n s ts
    → last? ts ≡ some l
    → (l.version + 1 ≡ n + length ts) × IsVersionOf s l
last-AreVersions n s [] l h e = absurd (ground arith)
last-AreVersions n s (t ∷ ts) l h e = elim (Option-cases (last? ts)) [
  | inl only ↦
      let p : t ≡ l = ground arith in
      let alone = last?-none ts only in
      subst (λ m. (m.version + 1 ≡ n + length (t ∷ ts)) × IsVersionOf s m) p
        (omega (arith, h.0), h.1)
  | inr (m, more) ↦
      let p : m ≡ l = ground arith in
      let (k, v) = last-AreVersions (suc n) s ts l h.2 (ground arith) in (omega arith, v)
]

-- A history: versions 1, 2 and so on of its first entry.
abbrev pub IsHistory : OpaqueId × OpaqueId → List TranscriptSegment → Type 0
IsHistory key [] = ⊥
IsHistory key (s ∷ ts) = (s.transcript_segment_id ≡ key.1) × AreVersions 1 s (s ∷ ts)

same_version : (s : TranscriptSegment) → IsVersionOf s s
same_version s = record { ident = refl; turn = refl; start = refl; end = refl }

segment_post_init-same :
    (s : TranscriptSegment) {t : TranscriptSegment} → segment_post_init s ≡ ok t → s ≡ t
unfolding segment_post_init
segment_post_init-same s e = ground arith

keep_segment-IsHistory :
    (company_id : OpaqueId) (i : Ingestion) (o : Outcome TranscriptSegment)
    (service : TranscriptService)
    → ((s : TranscriptSegment) → o ≡ ok s → segment_of i ≡ s)
    → Holds IsHistory service
    → Holds IsHistory (keep_segment company_id o service).1
unfolding keep_segment
keep_segment-IsHistory company_id i (err e) service made h = h
keep_segment-IsHistory company_id i (ok s) service made h =
    insert-Holds IsHistory (company_id, s.transcript_segment_id) (s ∷ []) service
      (refl, (ap (λ t. t.version) (sym (made s refl)), same_version s, tt)) h

ingest-IsHistory :
    (context : TenantContext) (i : Ingestion) (service : TranscriptService)
    → Holds IsHistory service
    → Holds IsHistory (ingest context i service).1
unfolding ingest
ingest-IsHistory context i service h =
    keep_segment-IsHistory context.company_id i _ service
      (λ s e. elim (Result-cases (segment_post_init (segment_of i))) [
        | inl (t, passed) ↦
            let p = segment_post_init-same (segment_of i) passed in
            let q : t ≡ s = ground arith in p ∙ q
        | inr (x, failed) ↦ absurd (ground arith)
      ])
      h

corrected-IsHistory :
    (context : TenantContext) (text : Text) (now : Instant) (key : OpaqueId × OpaqueId)
    (versions : List TranscriptSegment) (l : TranscriptSegment)
    → IsHistory key versions
    → last? versions ≡ some l
    → IsHistory key (versions ++ corrected context text now l ∷ [])
corrected-IsHistory context text now key [] l h e = absurd h
corrected-IsHistory context text now key (s ∷ ts) l h e =
    let (count, v) = last-AreVersions 1 s (s ∷ ts) l h.1 e in
    (
      h.0,
      AreVersions-append 1 s (s ∷ ts) (corrected context text now l) h.1 (omega arith)
          (record { ident = v.ident; turn = v.turn; start = v.start; end = v.end }),
    )

correct_versions-IsHistory :
    (context : TenantContext) (text : Text) (now : Instant) (key : OpaqueId × OpaqueId)
    (o : Option (List TranscriptSegment)) (service : TranscriptService)
    → ((versions : List TranscriptSegment) → o ≡ some versions → IsHistory key versions)
    → Holds IsHistory service
    → Holds IsHistory (correct_versions context text now key o service).1
unfolding correct_versions keep_correction
correct_versions-IsHistory context text now key none service at h = h
correct_versions-IsHistory context text now key (some versions) service at h =
    elim (Option-cases (last? versions)) [
      | inl empty ↦ rw empty h
      | inr (l, last) ↦ elim (Result-cases (segment_post_init (corrected context text now l))) [
        | inr (x, failed) ↦ rw (last, failed) h
        | inl (s, passed) ↦
            rw (last, passed)
              (insert-Holds IsHistory key (versions ++ s ∷ []) service
                (subst (λ t. IsHistory key (versions ++ t ∷ []))
                  (segment_post_init-same (corrected context text now l) passed)
                  (corrected-IsHistory context text now key versions l (at versions refl) last))
                h)
      ]
    ]

-- What ingestions and corrections leave, be it after they raised.
pub data Reached : TranscriptService → Type 0 where
  begins : Reached []
  ingests :
      {service : TranscriptService} (context : TenantContext) (i : Ingestion)
      → Reached service
      → Reached (ingest context i service).1
  corrects :
      {service : TranscriptService} (context : TenantContext) (segment_id : OpaqueId) (text : Text)
      (now : Instant)
      → Reached service
      → Reached (correct context segment_id text now service).1

-- Whatever was ingested and corrected: each segment on record has the versions 1, 2, 3 and so on,
-- all of the same identifier, turn and range.
pub Reached-IsHistory : (service : TranscriptService) → Reached service → Holds IsHistory service
unfolding lookup correct
Reached-IsHistory _ begins k v e = absurd (ground arith)
Reached-IsHistory _ (ingests {service} context i r) k v e =
    ingest-IsHistory context i service (Reached-IsHistory service r) k v e
Reached-IsHistory _ (corrects {service} context segment_id text now r) k v e =
    correct_versions-IsHistory context text now (context.company_id, segment_id)
      (lookup (context.company_id, segment_id) service) service
      (λ versions at. Reached-IsHistory service r (context.company_id, segment_id) versions at)
      (Reached-IsHistory service r) k v e
