-- ===== src/Analysis/Chunker/Solid.antt =====
-- A window with a character that is no white space makes a chunk.
use gbsa_aws_project.Base.{
  ℕ, zero, suc, ◌+◌, ◌-◌, ◌≤◌, ◌<◌, ◌≡◌, refl, ap, ◌∙◌, Bool, true, false, not, ◌||◌, Option, none,
  some, [], ◌∷◌, any, arith,
}
use gbsa_aws_project.Interview.Text.{Text, is_space, strip_left, strip_right, prepend, strip}
use gbsa_aws_project.Interview.Questions.{is_empty}
use gbsa_aws_project.Analysis.Chunker.{drop, take, slice, char_at}

abbrev is_solid_char : Option ℕ → Bool
is_solid_char none = false
is_solid_char (some c) = not (is_space c)

-- Whether a character that is no white space stands at `p`.
abbrev pub is_solid : Text → ℕ → Bool
is_solid text p = is_solid_char (char_at text p)

abbrev has_solid : Text → Bool
has_solid t = any (λ c. not (is_space c)) t

char_at-drop : (n : ℕ) (t : Text) (i : ℕ) → char_at (drop n t) i ≡ char_at t (n + i)
char_at-drop zero t i = ap (char_at t) (omega arith)
char_at-drop (suc n) [] i = refl
char_at-drop (suc n) (c ∷ cs) i =
    let p : suc (n + i) ≡ suc n + i = omega arith in char_at-drop n cs i ∙ ap (char_at (c ∷ cs)) p

char_at-take : (n : ℕ) (t : Text) (i : ℕ) → i < n → char_at (take n t) i ≡ char_at t i
char_at-take zero t i lt = absurd (omega arith)
char_at-take (suc n) [] i lt = refl
char_at-take (suc n) (c ∷ cs) zero lt = refl
char_at-take (suc n) (c ∷ cs) (suc i) lt = char_at-take n cs i (omega arith)

solid_somewhere : (t : Text) (i : ℕ) → is_solid t i ≡ true → has_solid t ≡ true
solid_somewhere [] i h = cc
solid_somewhere (c ∷ cs) zero h = ground arith
solid_somewhere (c ∷ cs) (suc i) h = ground (arith, solid_somewhere cs i h)

strip_left-has_solid : (t : Text) → has_solid t ≡ true → has_solid (strip_left t) ≡ true
unfolding strip_left
strip_left-has_solid [] h = h
strip_left-has_solid (c ∷ cs) h = ground (arith, strip_left-has_solid cs)

prepend-has_solid :
    (c : ℕ) (ds : Text)
    → (not (is_space c) || has_solid ds) ≡ true
    → has_solid (prepend c ds) ≡ true
prepend-has_solid c [] h = ground arith
prepend-has_solid c (d ∷ ds) h = ground arith

strip_right-has_solid : (t : Text) → has_solid t ≡ true → has_solid (strip_right t) ≡ true
unfolding strip_right
strip_right-has_solid [] h = h
strip_right-has_solid (c ∷ cs) h =
    prepend-has_solid c (strip_right cs) (ground (arith, strip_right-has_solid cs))

has_solid-nonempty : (t : Text) → has_solid t ≡ true → is_empty t ≡ false
has_solid-nonempty [] h = cc
has_solid-nonempty (c ∷ cs) h = refl

pub strip-slice_nonempty :
    (t : Text) (start end p : ℕ)
    → start ≤ p
    → p < end
    → is_solid t p ≡ true
    → is_empty (strip (slice t start end)) ≡ false
unfolding strip
strip-slice_nonempty t start end p from to h =
    let i = p - start in
    let whole : start + i ≡ p = omega arith in
    let at : char_at (slice t start end) i ≡ char_at t p =
      char_at-take (end - start) (drop start t) i (omega arith)
      ∙ (char_at-drop start t i ∙ ap (char_at t) whole) in
    let solid = solid_somewhere (slice t start end) i (rw at h) in
    has_solid-nonempty (strip_right (strip_left (slice t start end))) (
      strip_right-has_solid (strip_left (slice t start end))
        (strip_left-has_solid (slice t start end) solid))
