-- ===== src/Analysis/Chunker.antt =====
-- workers/analysis/document_chunker.py: a document in overlapping chunks.
pub mod Windows
pub mod Solid
pub mod Covering
use gbsa_aws_project.Base.{
  ℕ, zero, suc, ◌+◌, ◌-◌, Bool, true, false, not, ◌&&◌, ◌||◌, Option, none, some, List, [], ◌∷◌,
  ◌++◌, ltb, leb, ◌==◌, min, max, length, if◌then◌else◌,
}
use gbsa_aws_project.Base.Exec.{ok, err, raise_if, ◌>>=◌, ◌>>◌}
use gbsa_aws_project.Shared.Errors.{Outcome, value_error}
use gbsa_aws_project.Interview.Text.{Text, strip}
use gbsa_aws_project.Interview.Questions.{is_empty}

pub record ExtractedSection : Type 0 where
  pub page : ℕ
  pub title : Option Text
  pub text : Text

pub record ExtractedDocument : Type 0 where
  pub content_hash : Text
  pub sections : List ExtractedSection

-- The fields of a `SourceLocation` that the chunker sets.
pub record SourceLocation : Type 0 where
  pub page : ℕ
  pub section : Option Text
  pub start_offset : ℕ

-- `SourceLocation.__post_init__`
unfoldable pub location_post_init : SourceLocation → Outcome SourceLocation
location_post_init l = do raise_if (l.page == 0) (value_error "page numbers are one-based"); ok l

pub record ExtractedChunk : Type 0 where
  pub ordinal : ℕ
  pub text : Text
  pub location : SourceLocation
  pub source_hash : Text
  pub chunk_hash : Text

pub record DocumentChunker : Type 0 where
  pub max_characters : ℕ
  pub overlap_characters : ℕ

-- `DocumentChunker.__init__`
unfoldable pub document_chunker : (max_characters overlap_characters : ℕ) → Outcome DocumentChunker
document_chunker max_characters overlap_characters = do
  raise_if (ltb max_characters 16 || leb max_characters overlap_characters)
      (value_error "invalid chunk size configuration")
  ok (record { max_characters = max_characters; overlap_characters = overlap_characters })

abbrev pub drop : ℕ → Text → Text
drop zero t = t
drop (suc n) [] = []
drop (suc n) (c ∷ cs) = drop n cs

abbrev pub take : ℕ → Text → Text
take zero t = []
take (suc n) [] = []
take (suc n) (c ∷ cs) = c ∷ take n cs

-- `text[start:end]`
abbrev pub slice : Text → ℕ → ℕ → Text
slice text start end = take (end - start) (drop start text)

abbrev pub char_at : Text → ℕ → Option ℕ
char_at [] i = none
char_at (c ∷ cs) zero = some c
char_at (c ∷ cs) (suc i) = char_at cs i

abbrev pub is_blank_char : Option ℕ → Bool
is_blank_char none = false
is_blank_char (some c) = c == 32

-- `text.rfind(" ", start, start + n)`, with `none` for -1.
unfoldable pub rfind_space : Text → (start n : ℕ) → Option ℕ
rfind_space text start zero = none
rfind_space text start (suc n) =
    let rest = rfind_space text start n in
    if is_blank_char (char_at text (start + n)) then some (start + n) else rest

-- `boundary` where it is after `start`, and else `end`.
abbrev pub boundary_or : Option ℕ → ℕ → ℕ → ℕ
boundary_or none start end = end
boundary_or (some boundary) start end = if ltb start boundary then boundary else end

-- The end of the chunk that starts at `start`.
unfoldable pub window_end : ℕ → Text → ℕ → ℕ
unfolding rfind_space
window_end max_characters text start =
    let end = min (length text) (start + max_characters) in
    if ltb end (length text)
    then boundary_or (rfind_space text start (end - start)) start end
    else end

-- `max(start + 1, end - self._overlap_characters)`: an end below the overlap gives a negative
-- number there and 0 here, which both are below `start + 1`.
abbrev pub next_start : ℕ → ℕ → ℕ → ℕ
next_start overlap_characters start end = max (start + 1) (end - overlap_characters)

-- SHA-256 of a text, as hexadecimal digits, is a parameter.
module _ (sha256 : Text → Text) (chunker : DocumentChunker) (content_hash : Text) where
  -- The chunk of one window, if it is not blank.
  abbrev pub chunk_of : ExtractedSection → ℕ → ℕ → Text → Outcome (List ExtractedChunk)
  chunk_of section start ordinal [] = ok []
  chunk_of section start ordinal (c ∷ cs) =
      location_post_init
        (record { page = section.page; section = section.title; start_offset = start })
      >>= λ location. ok (
          record {
            ordinal = ordinal;
            text = c ∷ cs;
            location = location;
            source_hash = content_hash;
            chunk_hash = sha256 (c ∷ cs);
          }
          ∷ [])

  -- A chunk, and what the rest of the loop gives if it goes on.
  abbrev pub and_rest :
      Outcome (List ExtractedChunk)
      → Bool
      → Option (Outcome (List ExtractedChunk))
      → Option (Outcome (List ExtractedChunk))
  and_rest (err e) stops rest = some (err e)
  and_rest (ok cs) true rest = some (ok cs)
  and_rest (ok cs) false none = none
  and_rest (ok cs) false (some (err e)) = some (err e)
  and_rest (ok cs) false (some (ok ds)) = some (ok (cs ++ ds))

  -- The `while` loop over one section, `none` if it is out of fuel.
  unfoldable pub loop :
      (fuel : ℕ) → ExtractedSection → (start ordinal : ℕ) → Option (Outcome (List ExtractedChunk))
  unfolding window_end strip
  loop zero section start ordinal = none
  loop (suc fuel) section start ordinal =
      let end = window_end chunker.max_characters section.text start in
      let value = strip (slice section.text start end) in
      let rest =
        loop fuel section (next_start chunker.overlap_characters start end)
          (if is_empty value then ordinal else ordinal + 1) in
      if ltb start (length section.text)
      then and_rest (chunk_of section start ordinal value) (end == length section.text) rest
      else some (ok [])

  abbrev pub and_sections :
      Option (Outcome (List ExtractedChunk))
      → (ℕ → Option (Outcome (List ExtractedChunk)))
      → ℕ
      → Option (Outcome (List ExtractedChunk))
  and_sections none rest ordinal = none
  and_sections (some (err e)) rest ordinal = some (err e)
  and_sections (some (ok cs)) rest ordinal = and_rest (ok cs) false (rest (ordinal + length cs))

  -- The loop over the sections, with a step of fuel for each position.
  unfoldable pub chunk_sections :
      List ExtractedSection → (ordinal : ℕ) → Option (Outcome (List ExtractedChunk))
  unfolding loop
  chunk_sections [] ordinal = some (ok [])
  chunk_sections (section ∷ sections) ordinal =
      and_sections (loop (length section.text + 1) section 0 ordinal) (chunk_sections sections)
        ordinal

-- `DocumentChunker.chunk`
unfoldable pub chunk :
    (Text → Text) → DocumentChunker → ExtractedDocument → Option (Outcome (List ExtractedChunk))
unfolding chunk_sections
chunk sha256 chunker document =
    chunk_sections sha256 chunker document.content_hash document.sections 0
