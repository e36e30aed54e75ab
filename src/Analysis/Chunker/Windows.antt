-- ===== src/Analysis/Chunker/Windows.antt =====
-- Where the chunks of a section start and end.
use gbsa_aws_project.Base.{
  ℕ, zero, suc, ◌+◌, ◌-◌, ◌≤◌, ◌<◌, ◌≡◌, Option, none, some, ltb, min, length, arith, Bool-cases,
  inl, inr, refl,
}
use gbsa_aws_project.Interview.Text.{Text}
use gbsa_aws_project.Analysis.Chunker.{
  char_at, is_blank_char, rfind_space, boundary_or, window_end, next_start,
}

rfind_space-bound :
    (text : Text) (start n b : ℕ) → rfind_space text start n ≡ some b → b < start + n
unfolding rfind_space
rfind_space-bound text start zero b e = absurd (ground arith)
rfind_space-bound text start (suc n) b e =
    elim (Bool-cases (is_blank_char (char_at text (start + n)))) [
      | inl found ↦ ground arith
      | inr other ↦ let h = rfind_space-bound text start n b (rw other at e) in omega arith
    ]

boundary_or-bound :
    (o : Option ℕ) (start end : ℕ)
    → start < end
    → ((b : ℕ) → o ≡ some b → b ≤ end)
    → (start < boundary_or o start end) × (boundary_or o start end ≤ end)
boundary_or-bound none start end lt h = (lt, omega arith)
boundary_or-bound (some b) start end lt h = elim (Bool-cases (ltb start b)) [
  | inl after ↦ rw after (ground arith, h b refl)
  | inr before ↦ rw before (lt, omega arith)
]

-- A chunk is not empty, at most `max_characters` long, and within the section.
pub window_end-bound :
    (max_characters : ℕ) (text : Text) (start : ℕ)
    → 1 ≤ max_characters
    → start < length text
    → let end = window_end max_characters text start in
      (start < end) × (end ≤ length text) × (end ≤ start + max_characters)
unfolding window_end
window_end-bound max_characters text start some_room lt =
    let end = min (length text) (start + max_characters) in
    let reach : start < end = omega arith in
    elim (Bool-cases (ltb end (length text))) [
      | inr whole ↦ rw whole (reach, omega arith, omega arith)
      | inl cut ↦
          let (after, before) =
            boundary_or-bound (rfind_space text start (end - start)) start end reach
              (λ b e. let h = rfind_space-bound text start (end - start) b e in omega arith) in
          rw cut (after, omega arith, omega arith)
    ]

-- The next chunk starts later, and no later than where this one ends.
pub next_start-bound :
    (overlap_characters start end : ℕ)
    → start < end
    → (start < next_start overlap_characters start end)
      × (next_start overlap_characters start end ≤ end)
next_start-bound overlap_characters start end lt = (omega arith, omega arith)
