-- ===== src/Tests/Analysis.antt =====
-- A document in chunks.
use gbsa_aws_project.Base.{◌≡◌, refl, All, Option, some, none, List, [], ◌∷◌, map, arith}
use gbsa_aws_project.Base.Exec.{ok}
use gbsa_aws_project.Shared.Errors.{Outcome}
use gbsa_aws_project.Interview.Text.{Text, codes}
use gbsa_aws_project.Analysis.Chunker.{
  ExtractedSection, ExtractedDocument, ExtractedChunk, DocumentChunker, chunk,
}
use gbsa_aws_project.Analysis.Chunker.Covering.{AreNumbered, IsCovering, chunk_total}

abbrev sha256 : Text → Text
sha256 t = t

abbrev chunker : DocumentChunker
chunker = record { max_characters = 16; overlap_characters = 4 }

abbrev document : ExtractedDocument
document = record {
  content_hash = [];
  sections = record { page = 1; title = none; text = codes "one two three four five" } ∷ [];
}

abbrev texts : Option (Outcome (List ExtractedChunk)) → List Text
texts (some (ok cs)) = map (λ c. c.text) cs
texts _ = []

cuts_at_spaces :
    texts (chunk sha256 chunker document) ≡ codes "one two three" ∷ codes "hree four five" ∷ []
unfolding chunk gbsa_aws_project.Interview.Text.is_space
    gbsa_aws_project.Analysis.Chunker.location_post_init
cuts_at_spaces = refl

-- A space early in a window, within the overlap, makes a chunk of each tail of the first word.
abbrev tails : ExtractedDocument
tails = record {
  content_hash = [];
  sections = record { page = 1; title = none; text = codes "abc defghijklmnopqr" } ∷ [];
}

repeats_tails :
    texts (chunk sha256 chunker tails)
    ≡ codes "abc" ∷ codes "bc" ∷ codes "c" ∷ codes "defghijklmnopqr" ∷ []
unfolding chunk gbsa_aws_project.Interview.Text.is_space
    gbsa_aws_project.Analysis.Chunker.location_post_init
repeats_tails = refl

chunk_total_example :
    (cs : List ExtractedChunk) × (chunk sha256 chunker document ≡ some (ok cs))
    × AreNumbered 0 cs
    × All (λ s. IsCovering sha256 chunker document.content_hash s 0 cs) document.sections
chunk_total_example = chunk_total sha256 chunker document (omega arith) (omega arith, tt)
