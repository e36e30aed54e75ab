-- ===== src/Reporting/Media/Gaps.antt =====
-- The gaps that the loop finds are what no chunk covers.
use mathlib.Core.List.{append-nil, append_assoc}
use gbsa_aws_project.Base.{
  ℕ, ◌≤◌, ◌<◌, ◌≡◌, refl, ◌∙◌, subst, Bool, false, not, ◌&&◌, ◌||◌, List, [], ◌∷◌, ◌++◌, ltb, leb,
  max, any, any-append, All, All-append, arith, Bool-cases, inl, inr,
}
use gbsa_aws_project.Base.Exec.{ok}
use gbsa_aws_project.Reporting.Media.{Chunk, chunk_leb, insert_chunk, sorted, Scan, next, scan}

abbrev pub covers : ℕ → Chunk → Bool
covers t (start, end, _) = leb start t && ltb t end

-- Whether a chunk covers the millisecond `t`.
abbrev pub covered : ℕ → List Chunk → Bool
covered t cs = any (covers t) cs

abbrev pub in_range : ℕ → ℕ × ℕ → Bool
in_range t (start, end) = leb start t && ltb t end

abbrev pub missing_at : ℕ → List (ℕ × ℕ) → Bool
missing_at t rs = any (in_range t) rs

-- The chunks start in order, from `low` on.
abbrev StartInOrder : ℕ → List Chunk → Type 0
StartInOrder low [] = Unit
StartInOrder low (c ∷ cs) = (low ≤ c.0) × StartInOrder c.0 cs

insert_chunk-StartInOrder :
    (low : ℕ) (c : Chunk) (cs : List Chunk)
    → low ≤ c.0
    → StartInOrder low cs
    → StartInOrder low (insert_chunk c cs)
unfolding insert_chunk
insert_chunk-StartInOrder low c [] le h = (le, tt)
insert_chunk-StartInOrder low c (d ∷ ds) le h = elim (Bool-cases (chunk_leb c d)) [
  | inl first ↦ rw first (le, (ground arith, h.1))
  | inr later ↦ rw later (h.0, insert_chunk-StartInOrder d.0 c ds (ground arith) h.1)
]

sorted-StartInOrder : (cs : List Chunk) → StartInOrder 0 (sorted cs)
unfolding sorted
sorted-StartInOrder [] = tt
sorted-StartInOrder (c ∷ cs) =
    insert_chunk-StartInOrder 0 c (sorted cs) (omega arith) (sorted-StartInOrder cs)

any-insert_chunk :
    (p : Chunk → Bool) (c : Chunk) (cs : List Chunk) → any p (insert_chunk c cs) ≡ any p (c ∷ cs)
unfolding insert_chunk
any-insert_chunk p c [] = refl
any-insert_chunk p c (d ∷ ds) = elim (Bool-cases (chunk_leb c d)) [
  | inl first ↦ rw first refl
  | inr later ↦ rw later (rw (any-insert_chunk p c ds) (ground arith))
]

pub any-sorted : (p : Chunk → Bool) (cs : List Chunk) → any p (sorted cs) ≡ any p cs
unfolding sorted
any-sorted p [] = refl
any-sorted p (c ∷ cs) = rw (any-insert_chunk p c (sorted cs)) (rw (any-sorted p cs) refl)

-- After the chunks `seen`, of which the last starts at `low`.
record Scanned (low : ℕ) (seen : List Chunk) (s : Scan) : Type 0 where
  inside : (t : ℕ) → t < s.0 → missing_at t s.1 ≡ not (covered t seen)
  outside : (t : ℕ) → s.0 ≤ t → covered t seen ≡ false
  early : (t : ℕ) → low ≤ t → missing_at t s.1 ≡ false
  behind : low ≤ s.0
  ranges : All (λ r. (r.0 < r.1) × (r.1 ≤ s.0)) s.1

-- The gaps are within the first `d` milliseconds.
abbrev pub AreWithin : ℕ → List (ℕ × ℕ) → Type 0
AreWithin d rs = All (λ r. (r.0 < r.1) × (r.1 ≤ d)) rs

AreWithin-later : (d e : ℕ) (rs : List (ℕ × ℕ)) → d ≤ e → AreWithin d rs → AreWithin e rs
AreWithin-later d e [] le h = tt
AreWithin-later d e (r ∷ rs) le h = ((h.0.0, omega (arith, h.0.1)), AreWithin-later d e rs le h.1)

module _ (low : ℕ) (seen : List Chunk) (c : Chunk) (s : Scan) (le : low ≤ c.0) (long : c.0 < c.1)
    (h : Scanned low seen s) where
  missing-next : (t : ℕ) → missing_at t (next c s).1 ≡ (missing_at t s.1 || leb s.0 t && ltb t c.0)
  missing-next t = elim (Bool-cases (ltb s.0 c.0)) [
    | inl gap ↦ rw gap (any-append (in_range t) s.1 ((s.0, c.0) ∷ []) ∙ ground arith)
    | inr none_here ↦ rw none_here (ground arith)
  ]

  next-AreWithin : AreWithin (max s.0 c.1) (next c s).1
  next-AreWithin = elim (Bool-cases (ltb s.0 c.0)) [
    | inl gap ↦ rw gap (
        All-append (λ r. (r.0 < r.1) × (r.1 ≤ max s.0 c.1)) s.1 ((s.0, c.0) ∷ [])
          (AreWithin-later s.0 (max s.0 c.1) s.1 (omega arith) h.ranges)
          ((ground arith, omega arith), tt))
    | inr none_here ↦ rw none_here (AreWithin-later s.0 (max s.0 c.1) s.1 (omega arith) h.ranges)
  ]

  next-Scanned : Scanned c.0 (seen ++ c ∷ []) (next c s)
  next-Scanned = record {
    inside = λ t lt.
        rw (missing-next t, any-append (covers t) seen (c ∷ []))
          (ground (arith, h.inside t, h.outside t, h.early t));
    outside = λ t ge. rw (any-append (covers t) seen (c ∷ [])) (ground (arith, h.outside t));
    early = λ t ge. rw (missing-next t) (ground (arith, h.early t));
    behind = omega arith;
    ranges = next-AreWithin;
  }

scan-Scanned :
    (low : ℕ) (seen cs : List Chunk) (s : Scan) {s' : Scan}
    → StartInOrder low cs
    → Scanned low seen s
    → scan cs s ≡ ok s'
    → (last : ℕ) × Scanned last (seen ++ cs) s'
unfolding scan
scan-Scanned low seen [] s {s'} order h e =
    let p : s ≡ s' = ground arith in
    rw (append-nil seen) (low, subst (Scanned low seen) {x = s} p h)
scan-Scanned low seen (c ∷ cs) s {s'} order h e = elim (Bool-cases (leb c.1 c.0)) [
  | inl empty ↦ absurd (ground arith)
  | inr long ↦ rw (← (append_assoc seen (c ∷ []) cs)) (
      scan-Scanned c.0 (seen ++ c ∷ []) cs (next c s) {s' = s'} order.1
        (next-Scanned low seen c s order.0 (ground arith) h) (ground arith))
]

-- What the loop over the sorted chunks gives: a millisecond before the end is in a gap exactly if
-- no chunk covers it, none after the end is covered, and every gap is within the recording.
pub record HasGapsOf (chunks : List Chunk) (s : Scan) : Type 0 where
  pub gaps : (t : ℕ) → t < s.0 → missing_at t s.1 ≡ not (covered t chunks)
  pub outside : (t : ℕ) → s.0 ≤ t → covered t chunks ≡ false
  pub within : AreWithin s.0 s.1

pub scan-HasGapsOf :
    (chunks : List Chunk) (s : Scan) → scan (sorted chunks) (0, [], []) ≡ ok s → HasGapsOf chunks s
scan-HasGapsOf chunks s e =
    let start : Scanned 0 [] (0, [], []) = record {
      inside = λ t lt. absurd (omega arith);
      outside = λ t ge. refl;
      early = λ t ge. refl;
      behind = omega arith;
      ranges = tt;
    } in
    let (last, h) =
      scan-Scanned 0 [] (sorted chunks) (0, [], []) (sorted-StartInOrder chunks) start e in
    record {
      gaps = λ t lt. rw (← (any-sorted (covers t) chunks)) (h.inside t lt);
      outside = λ t ge. rw (← (any-sorted (covers t) chunks)) (h.outside t ge);
      within = h.ranges;
    }
