-- ===== src/Interview/Recording/Timeline.antt =====
-- The chunks of a session form a timeline: sequences rise and time ranges do not overlap.
use gbsa_aws_project.Base.{
  ℕ, suc, ◌+◌, ◌≤◌, ◌<◌, ◌≡◌, subst, refl, Option, none, some, true, false, arith, Option-cases,
  Bool-cases, inl, inr, ◌⊎◌, [], ◌∷◌, ◌++◌, All, All-append, last?, length,
}
use gbsa_aws_project.Base.Equality.{eq, nat_eq, list_eq, pair_eq}
use gbsa_aws_project.Base.Dict.{lookup, insert, lookup-insert}
use gbsa_aws_project.Base.Exec.{ok}
use gbsa_aws_project.Shared.Tenant.{SessionKey}
use gbsa_aws_project.Interview.Turn.{RecordingChunk, chunk_post_init}
use gbsa_aws_project.Interview.Recording.{
  Chunks, RecordingService, same_upload, or_empty, last_sequence, Upload, overlaps, place,
}

-- `d` comes after `c`, by sequence and by time.
abbrev pub Before : RecordingChunk → RecordingChunk → Type 0
Before c d = (c.sequence < d.sequence) × (c.session_end_ms ≤ d.session_start_ms)

abbrev pub IsTimeline : Chunks → Type 0
IsTimeline [] = Unit
IsTimeline (c ∷ cs) = (c.session_start_ms < c.session_end_ms) × All (Before c) cs × IsTimeline cs

-- The sequences are `n`, `n + 1` and so on.
abbrev pub IsNumbered : ℕ → Chunks → Type 0
IsNumbered n [] = Unit
IsNumbered n (c ∷ cs) = (c.sequence ≡ n) × IsNumbered (suc n) cs

-- `d` may follow the last chunk.
abbrev pub Follows : RecordingChunk → Option RecordingChunk → Type 0
Follows d none = Unit
Follows d (some l) = (l.sequence < d.sequence) × (l.session_end_ms ≤ d.session_start_ms)

Before-last :
    (c l : RecordingChunk) (cs : Chunks)
    → All (Before c) cs
    → IsTimeline cs
    → last? cs ≡ some l
    → Before c l × (l.session_start_ms < l.session_end_ms)
Before-last c l [] before line h = cc
Before-last c l (x ∷ xs) before line h = elim (Option-cases (last? xs)) [
  | inl only ↦ ground (arith, before.0, line.0)
  | inr (y, more) ↦ Before-last c l xs before.1 line.2 (ground arith)
]

Before-next :
    (c d : RecordingChunk) (cs : Chunks)
    → All (Before c) cs
    → IsTimeline cs
    → Follows d (last? (c ∷ cs))
    → Before c d
Before-next c d cs before line follows = elim (Option-cases (last? cs)) [
  | inl only ↦ ground arith
  | inr (l, more) ↦ let (b, long) = Before-last c l cs before line more in ground arith
]

Follows-tail :
    (c d : RecordingChunk) (cs : Chunks) → Follows d (last? (c ∷ cs)) → Follows d (last? cs)
Follows-tail c d cs follows = elim (Option-cases (last? cs)) [
  | inl only ↦ rw only tt
  | inr (l, more) ↦ rw more (ground arith)
]

pub IsTimeline-append :
    (d : RecordingChunk) (cs : Chunks)
    → d.session_start_ms < d.session_end_ms
    → IsTimeline cs
    → Follows d (last? cs)
    → IsTimeline (cs ++ d ∷ [])
IsTimeline-append d [] long line follows = (long, tt, tt)
IsTimeline-append d (c ∷ cs) long line follows = (
  line.0,
  All-append (Before c) cs (d ∷ []) line.1 (Before-next c d cs line.1 line.2 follows, tt),
  IsTimeline-append d cs long line.2 (Follows-tail c d cs follows),
)

pub IsNumbered-append :
    (n : ℕ) (d : RecordingChunk) (cs : Chunks)
    → IsNumbered n cs
    → d.sequence ≡ n + length cs
    → IsNumbered n (cs ++ d ∷ [])
IsNumbered-append n d [] h e = (omega arith, tt)
IsNumbered-append n d (c ∷ cs) h e = (h.0, IsNumbered-append (suc n) d cs h.1 (omega arith))

last-IsNumbered :
    (n : ℕ) (cs : Chunks) (l : RecordingChunk)
    → IsNumbered n cs
    → last? cs ≡ some l
    → l.sequence + 1 ≡ n + length cs
last-IsNumbered n [] l h e = cc
last-IsNumbered n (c ∷ []) l h e = ground (arith, h.0)
last-IsNumbered n (c ∷ d ∷ cs) l h e = elim (Option-cases (last? (d ∷ cs))) [
  | inl only ↦ absurd (ground arith)
  | inr (m, more) ↦ omega (arith, last-IsNumbered (suc n) (d ∷ cs) l h.1 (ground arith))
]

pub last_sequence-IsNumbered : (cs : Chunks) → IsNumbered 1 cs → last_sequence cs ≡ length cs
last_sequence-IsNumbered [] h = refl
last_sequence-IsNumbered (c ∷ cs) h = elim (Option-cases (last? (c ∷ cs))) [
  | inl only ↦ absurd (ground arith)
  | inr (l, more) ↦ ground (arith, last-IsNumbered 1 (c ∷ cs) l h more)
]

-- What `place` gives on each of its successful ways.
pub place-ok :
    (replay : Option RecordingChunk) (made : RecordingChunk) (u : Upload) (cs : Chunks)
    {c : RecordingChunk} {cs' : Chunks}
    → place replay made u cs ≡ ok (c, cs')
    → ((replay ≡ some c) × (cs' ≡ cs) × (same_upload c u ≡ true))
      ⊎ ((replay ≡ none)
          × (c ≡ made)
          × (cs' ≡ cs ++ made ∷ [])
          × (made.session_start_ms < made.session_end_ms)
          × (u.sequence ≡ last_sequence cs + 1)
          × (overlaps cs u.start_ms ≡ false))
unfolding place chunk_post_init
place-ok none made u cs h = ground arith
place-ok (some r) made u cs h = inl (ground arith)

pub overlaps-Follows :
    (d : RecordingChunk) (cs : Chunks)
    → d.sequence ≡ last_sequence cs + 1
    → overlaps cs d.session_start_ms ≡ false
    → Follows d (last? cs)
overlaps-Follows d cs e clear = elim (Option-cases (last? cs)) [
  | inl empty ↦ rw empty tt
  | inr (l, at) ↦ rw at (ground arith)
]

-- A predicate on the chunks of every session.
abbrev pub Everywhere : (Chunks → Type 0) → RecordingService → Type 0
Everywhere P service = (j : SessionKey) (cs : Chunks) → lookup j service ≡ some cs → P cs

pub insert-Everywhere :
    (P : Chunks → Type 0) (key : SessionKey) (cs : Chunks) (service : RecordingService)
    → P cs
    → Everywhere P service
    → Everywhere P (insert key cs service)
insert-Everywhere P key cs service p all j ds at = elim (Bool-cases (eq key j)) [
  | inl same ↦
      let e : cs ≡ ds = ground (arith, lookup-insert j key cs service) in subst P {x = cs} e p
  | inr other ↦ all j ds (ground (arith, lookup-insert j key cs service))
]

pub or_empty-Everywhere :
    (P : Chunks → Type 0) (key : SessionKey) (service : RecordingService)
    → P []
    → Everywhere P service
    → P (or_empty (lookup key service))
or_empty-Everywhere P key service empty all = elim (Option-cases (lookup key service)) [
  | inl absent ↦ rw absent empty
  | inr (cs, at) ↦ rw at (all key cs at)
]
