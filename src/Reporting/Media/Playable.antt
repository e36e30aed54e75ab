-- ===== src/Reporting/Media/Playable.antt =====
-- What of a recording can be played back.
use gbsa_aws_project.Base.{
  ℕ, ◌-◌, ◌≤◌, ◌<◌, ◌≡◌, ◌↔◌, refl, ◌∙◌, subst, true, false, List, [], ◌∷◌, leb, max, any, arith,
  Bool-cases, inl, inr,
}
use gbsa_aws_project.Base.Exec.{ok, Result-cases}
use gbsa_aws_project.Shared.Ids.{OpaqueId, Instant}
use gbsa_aws_project.Interview.Text.{Text}
use gbsa_aws_project.Interview.Turn.{is_sha256}
use gbsa_aws_project.Interview.Questions.{is_empty}
use gbsa_aws_project.Reporting.Timeline.{
  RecordingAsset, is_bad_range, overlaps, available, asset_post_init,
}
use gbsa_aws_project.Reporting.Media.{Chunk, Scan, sorted, next, scan, asset_of, build_manifest}
use gbsa_aws_project.Reporting.Media.Gaps.{
  covered, missing_at, AreWithin, scan-HasGapsOf, any-sorted,
}

-- A range meets no gap exactly if none of its milliseconds is in a gap.
clear_of_gaps :
    (d start end : ℕ) (rs : List (ℕ × ℕ))
    → AreWithin d rs
    → any (overlaps start end) rs ≡ false
    → (t : ℕ) → start ≤ t
    → t < end
    → missing_at t rs ≡ false
clear_of_gaps d start end [] h e t a b = refl
clear_of_gaps d start end (r ∷ rs) h e t a b =
    let rest : any (overlaps start end) rs ≡ false = ground arith in
    let later = clear_of_gaps d start end rs h.1 rest t a b in ground arith

no_gap_met :
    (d start end : ℕ) (rs : List (ℕ × ℕ))
    → start < end
    → AreWithin d rs
    → ((t : ℕ) → start ≤ t → t < end → missing_at t rs ≡ false)
    → any (overlaps start end) rs ≡ false
no_gap_met d start end [] lt h clear = refl
no_gap_met d start end (r ∷ rs) lt h clear =
    let rest = no_gap_met d start end rs lt h.1 (λ t a b. let c = clear t a b in ground arith) in
    elim (Bool-cases (overlaps start end r)) [
      | inr apart ↦ ground arith
      | inl meets ↦
          let c = clear (max start r.0) (omega arith) (ground (arith, lt)) in
          absurd (ground (arith, h.0.0))
    ]

asset_post_init-same : (a : RecordingAsset) {b : RecordingAsset} → asset_post_init a ≡ ok b → a ≡ b
unfolding asset_post_init
asset_post_init-same a e = ground arith

no_bad_range : (d : ℕ) (rs : List (ℕ × ℕ)) → AreWithin d rs → any (is_bad_range d) rs ≡ false
no_bad_range d [] h = refl
no_bad_range d (r ∷ rs) h = ground (arith, no_bad_range d rs h.1, h.0)

module _ (sha256 : List ℕ → Text) (company_id session_id : OpaqueId) (chunks : List Chunk)
    (asset_id : OpaqueId) (now : Instant) where
  manifest_scan :
      {a : RecordingAsset}
      → build_manifest sha256 company_id session_id chunks asset_id now ≡ ok a
      → (s : Scan) × (scan (sorted chunks) (0, [], []) ≡ ok s)
        × (asset_of sha256 company_id session_id asset_id now s ≡ a)
  unfolding build_manifest
  manifest_scan {a} e = elim (Bool-cases (is_empty chunks)) [
    | inl none_given ↦ absurd (ground arith)
    | inr given ↦ elim (Result-cases (scan (sorted chunks) (0, [], []))) [
      | inr (x, failed) ↦ absurd (ground arith)
      | inl (s, found) ↦ (
        s,
        found,
        asset_post_init-same (asset_of sha256 company_id session_id asset_id now s)
            (rw (given, found) at e),
      )
    ]
  ]

  -- A range of a recording is available exactly if it is not empty and each of its milliseconds is
  -- covered by a chunk.
  pub available_iff :
      (start_ms end_ms : ℕ) (a : RecordingAsset)
      → build_manifest sha256 company_id session_id chunks asset_id now ≡ ok a
      → (available a start_ms end_ms ≡ true)
        ↔ ((start_ms < end_ms) × ((t : ℕ) → start_ms ≤ t → t < end_ms → covered t chunks ≡ true))
  unfolding available
  available_iff start_ms end_ms a e =
      let (s, found, made) = manifest_scan e in
      let h = scan-HasGapsOf chunks s found in
      subst
        (λ b.
          (available b start_ms end_ms ≡ true)
          ↔ ((start_ms < end_ms) × ((t : ℕ) → start_ms ≤ t → t < end_ms → covered t chunks ≡ true)))
        made
        (
          λ yes_it_is. (
            ground arith,
            λ t from to.
                let clear =
                  clear_of_gaps s.0 start_ms end_ms s.1 h.within (ground arith) t from to in
                ground (arith, h.gaps t),
          ),
          λ (lt, all_covered).
              let last = all_covered (end_ms - 1) (omega arith) (omega arith) in
              let inside : end_ms ≤ s.0 = ground (arith, h.outside (end_ms - 1)) in
              let clear =
                no_gap_met s.0 start_ms end_ms s.1 lt h.within
                  (λ t from to. let c = all_covered t from to in ground (arith, h.gaps t)) in
              ground arith,
        )

scan_total :
    (cs : List Chunk) (s : Scan)
    → any (λ c. leb c.1 c.0) cs ≡ false
    → (s' : Scan) × (scan cs s ≡ ok s')
unfolding scan
scan_total [] s h = (s, refl)
scan_total (c ∷ cs) s h =
    let (s', e) = scan_total cs (next c s) (ground arith) in (s', ground arith)

-- A recording of chunks that are each not empty gets a manifest.
pub build_manifest_total :
    (sha256 : List ℕ → Text) (company_id session_id : OpaqueId) (c : Chunk) (chunks : List Chunk)
    (asset_id : OpaqueId) (now : Instant)
    → any (λ d. leb d.1 d.0) (c ∷ chunks) ≡ false
    → ((content : List ℕ) → is_sha256 (sha256 content) ≡ true)
    → (a : RecordingAsset) × (build_manifest sha256 company_id session_id (c ∷ chunks) asset_id now
        ≡ ok a)
unfolding build_manifest asset_post_init
build_manifest_total sha256 company_id session_id c chunks asset_id now long hashes =
    let (s, found) =
      scan_total (sorted (c ∷ chunks)) (0, [], [])
        (any-sorted (λ d. leb d.1 d.0) (c ∷ chunks) ∙ long) in
    let h = scan-HasGapsOf (c ∷ chunks) s found in
    let some_length : 1 ≤ s.0 = ground (arith, h.outside c.0) in
    (
      asset_of sha256 company_id session_id asset_id now s,
      rw found (ground (arith, hashes s.2, no_bad_range s.0 s.1 h.within)),
    )
