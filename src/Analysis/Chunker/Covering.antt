-- ===== src/Analysis/Chunker/Covering.antt =====
-- The chunks of a document: that there are any, their numbers and what they cover.
use gbsa_aws_project.Base.{
  ℕ, zero, suc, ◌+◌, ◌≤◌, ◌<◌, ◌≡◌, refl, subst, Bool, true, false, ◌&&◌, some, List, [], ◌∷◌, ◌++◌,
  any, any-append, All, ltb, leb, ◌==◌, length, arith, Bool-cases, inl, inr, if◌then◌else◌,
}
use gbsa_aws_project.Base.Equality.{eq, eq_refl, nat_eq, list_eq}
use gbsa_aws_project.Base.Exec.{ok}
use gbsa_aws_project.Interview.Text.{Text, strip}
use gbsa_aws_project.Interview.Questions.{is_empty}
use gbsa_aws_project.Analysis.Chunker.{
  ExtractedSection, ExtractedDocument, ExtractedChunk, DocumentChunker, location_post_init, slice,
  window_end, next_start, chunk_of, loop, chunk_sections, chunk,
}
use gbsa_aws_project.Analysis.Chunker.Windows.{window_end-bound, next_start-bound}
use gbsa_aws_project.Analysis.Chunker.Solid.{is_solid, strip-slice_nonempty}

-- The chunks are numbered from `n` on.
abbrev pub AreNumbered : ℕ → List ExtractedChunk → Type 0
AreNumbered n [] = Unit
AreNumbered n (c ∷ cs) = (c.ordinal ≡ n) × AreNumbered (suc n) cs

AreNumbered-append :
    (n : ℕ) (cs ds : List ExtractedChunk)
    → AreNumbered n cs
    → AreNumbered (n + length cs) ds
    → AreNumbered n (cs ++ ds)
AreNumbered-append n [] ds h k = subst (λ m. AreNumbered m ds) (omega arith) k
AreNumbered-append n (c ∷ cs) ds h k =
    (h.0, AreNumbered-append (suc n) cs ds h.1 (subst (λ m. AreNumbered m ds) (omega arith) k))

module _ (sha256 : Text → Text) (chunker : DocumentChunker) (content_hash : Text) where
  -- Whether a chunk is a window of the section, stripped, that has `p` in it.
  abbrev pub shows : ExtractedSection → ℕ → ExtractedChunk → Bool
  shows section p c =
      let start = c.location.start_offset in
      let end = window_end chunker.max_characters section.text start in
      leb start p && ltb p end && eq c.text (strip (slice section.text start end))

  -- The chunks of a section from `start` on.
  pub record IsCovering (section : ExtractedSection) (start : ℕ) (cs : List ExtractedChunk)
      : Type 0 where
    pub covers :
        (p : ℕ)
        → start ≤ p
        → p < length section.text
        → is_solid section.text p ≡ true
        → any (shows section p) cs ≡ true

  piece : ExtractedSection → ℕ → ℕ → Text → List ExtractedChunk
  piece section start ordinal [] = []
  piece section start ordinal (c ∷ cs) =
      record {
        ordinal = ordinal;
        text = c ∷ cs;
        location = record { page = section.page; section = section.title; start_offset = start };
        source_hash = content_hash;
        chunk_hash = sha256 (c ∷ cs);
      }
      ∷ []

  chunk_of-piece :
      (section : ExtractedSection) (start ordinal : ℕ) (value : Text)
      → 1 ≤ section.page
      → chunk_of sha256 chunker content_hash section start ordinal value
        ≡ ok (piece section start ordinal value)
  unfolding piece location_post_init
  chunk_of-piece section start ordinal [] page = refl
  chunk_of-piece section start ordinal (c ∷ cs) page = ground arith

  piece-AreNumbered :
      (section : ExtractedSection) (start ordinal : ℕ) (value : Text)
      → AreNumbered ordinal (piece section start ordinal value)
  unfolding piece
  piece-AreNumbered section start ordinal [] = tt
  piece-AreNumbered section start ordinal (c ∷ cs) = (refl, tt)

  length-piece :
      (section : ExtractedSection) (start ordinal : ℕ) (value : Text)
      → (if is_empty value then ordinal else ordinal + 1)
        ≡ ordinal + length (piece section start ordinal value)
  unfolding piece
  length-piece section start ordinal [] = omega arith
  length-piece section start ordinal (c ∷ cs) = omega arith

  piece-shows :
      (section : ExtractedSection) (start ordinal p : ℕ) (value : Text)
      → let end = window_end chunker.max_characters section.text start in
        value ≡ strip (slice section.text start end)
        → is_empty value ≡ false
        → start ≤ p
        → p < end
        → any (shows section p) (piece section start ordinal value) ≡ true
  unfolding piece
  piece-shows section start ordinal p [] same full from to = cc
  piece-shows section start ordinal p (c ∷ cs) same full from to = ground (
    arith,
    same,
    eq_refl
        (strip (slice section.text start (window_end chunker.max_characters section.text start))),
  )

  module _ (section : ExtractedSection) (page : 1 ≤ section.page)
      (room : 1 ≤ chunker.max_characters) where
    window_covered :
        (start ordinal p : ℕ)
        → let end = window_end chunker.max_characters section.text start in
          start ≤ p
          → p < end
          → is_solid section.text p ≡ true
          → any
              (shows section p)
              (piece section start ordinal (strip (slice section.text start end)))
            ≡ true
    window_covered start ordinal p from to solid =
        let end = window_end chunker.max_characters section.text start in
        piece-shows section start ordinal p (strip (slice section.text start end)) refl
          (strip-slice_nonempty section.text start end p from to solid) from to

    loop_total :
        (fuel start ordinal : ℕ)
        → start ≤ length section.text
        → length section.text < fuel + start
        → (cs : List ExtractedChunk) × (loop sha256 chunker content_hash fuel section start ordinal
            ≡ some (ok cs))
          × AreNumbered ordinal cs
          × IsCovering section start cs
    unfolding loop
    loop_total zero start ordinal le lt = absurd (omega arith)
    loop_total (suc fuel) start ordinal le lt =
        let end = window_end chunker.max_characters section.text start in
        let value = strip (slice section.text start end) in
        let made = piece section start ordinal value in
        let n = (if is_empty value then ordinal else ordinal + 1) in
        elim (Bool-cases (ltb start (length section.text))) [
          | inr past ↦
              ([], rw past refl, tt, record { covers = λ p from to solid. absurd (ground arith) })
          | inl inside ↦
              let bounds =
                window_end-bound chunker.max_characters section.text start room (ground arith) in
              let step = next_start-bound chunker.overlap_characters start end bounds.0 in
              elim (Bool-cases (end == length section.text)) [
                | inl whole ↦ (
                  made,
                  rw (inside, whole, chunk_of-piece section start ordinal value page) refl,
                  piece-AreNumbered section start ordinal value,
                  record {
                    covers =
                        λ p from to solid. window_covered start ordinal p from (ground arith) solid;
                  },
                )
                | inr more ↦
                    let (cs, e, numbered, h) =
                      loop_total fuel (next_start chunker.overlap_characters start end) n
                        (omega arith) (omega arith) in
                    (
                      made ++ cs,
                      rw (inside, more, chunk_of-piece section start ordinal value page, e) refl,
                      AreNumbered-append ordinal made cs
                          (piece-AreNumbered section start ordinal value)
                          (subst (λ m. AreNumbered m cs) (length-piece section start ordinal value)
                            numbered),
                      record {
                        covers = λ p from to solid.
                            rw (any-append (shows section p) made cs)
                              (elim (Bool-cases (ltb p end)) [
                                | inl before ↦
                                    let w =
                                      window_covered start ordinal p from (ground arith) solid in
                                    ground arith
                                | inr after ↦
                                    let c = h.covers p (ground (arith, step.1)) to solid in
                                    ground arith
                              ]);
                      },
                    )
              ]
        ]

  -- Other chunks before or after make no difference.
  IsCovering-append :
      (section : ExtractedSection) (cs ds : List ExtractedChunk)
      → IsCovering section 0 cs
      → IsCovering section 0 (cs ++ ds)
  IsCovering-append section cs ds h = record {
    covers = λ p from to solid.
        rw (any-append (shows section p) cs ds) (let c = h.covers p from to solid in ground arith);
  }

  All-IsCovering :
      (sections : List ExtractedSection) (cs ds : List ExtractedChunk)
      → All (λ s. IsCovering s 0 ds) sections
      → All (λ s. IsCovering s 0 (cs ++ ds)) sections
  All-IsCovering [] cs ds h = tt
  All-IsCovering (section ∷ sections) cs ds h = (
    record {
      covers = λ p from to solid.
          rw (any-append (shows section p) cs ds)
            (let c = h.0.covers p from to solid in ground arith);
    },
    All-IsCovering sections cs ds h.1,
  )

  sections_total :
      (sections : List ExtractedSection) (ordinal : ℕ)
      → 1 ≤ chunker.max_characters
      → All (λ s. 1 ≤ s.page) sections
      → (cs : List ExtractedChunk) × (chunk_sections sha256 chunker content_hash sections ordinal
          ≡ some (ok cs))
        × AreNumbered ordinal cs
        × All (λ s. IsCovering s 0 cs) sections
  unfolding chunk_sections
  sections_total [] ordinal room pages = ([], refl, tt, tt)
  sections_total (section ∷ sections) ordinal room pages =
      let (cs, e, numbered, h) =
        loop_total section pages.0 room (length section.text + 1) 0 ordinal (omega arith)
          (omega arith) in
      let (ds, f, more, k) = sections_total sections (ordinal + length cs) room pages.1 in
      (
        cs ++ ds,
        rw (e, f) refl,
        AreNumbered-append ordinal cs ds numbered more,
        (IsCovering-append section cs ds h, All-IsCovering sections cs ds k),
      )

-- Every document whose pages count from one is chunked: the loop ends, the chunks are numbered 0, 1, 2
-- and so on, and every character that is no white space is in the window of a chunk that holds the
-- window's text, stripped.
pub chunk_total :
    (sha256 : Text → Text) (chunker : DocumentChunker) (document : ExtractedDocument)
    → 1 ≤ chunker.max_characters
    → All (λ s. 1 ≤ s.page) document.sections
    → (cs : List ExtractedChunk) × (chunk sha256 chunker document ≡ some (ok cs))
      × AreNumbered 0 cs
      × All (λ s. IsCovering sha256 chunker document.content_hash s 0 cs) document.sections
unfolding chunk
chunk_total sha256 chunker document room pages =
    sections_total sha256 chunker document.content_hash document.sections 0 room pages
