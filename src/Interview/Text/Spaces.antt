-- ===== src/Interview/Text/Spaces.antt =====
-- To strip a text and to collapse its white space a second time changes nothing.
use gbsa_aws_project.Base.{
  ℕ, ◌≡◌, refl, Bool, true, false, [], ◌∷◌, arith, ◌&&◌, not, ◌==◌, if◌then◌else◌, Bool-cases, inl,
  inr,
}
use gbsa_aws_project.Interview.Text.{
  Text, is_space, strip_left, strip_right, prepend, strip, collapse,
}

-- Each white space is one blank, and none follows another.
abbrev single_spaced : (spaced : Bool) → Text → Bool
single_spaced spaced [] = true
single_spaced spaced (c ∷ cs) =
    let rest = single_spaced (is_space c) cs in
    if is_space c then not spaced && c == 32 && rest else rest

single_spaced-collapse : (b : Bool) (t : Text) → single_spaced b (collapse b t) ≡ true
unfolding collapse is_space
single_spaced-collapse b [] = refl
single_spaced-collapse b (c ∷ cs) = elim (Bool-cases (is_space c)) [
  | inl blank ↦ ground (arith, single_spaced-collapse true cs)
  | inr other ↦ ground (arith, single_spaced-collapse false cs)
]

collapse-single_spaced : (b : Bool) (t : Text) → single_spaced b t ≡ true → collapse b t ≡ t
unfolding collapse
collapse-single_spaced b [] h = refl
collapse-single_spaced b (c ∷ cs) h = ground (arith, collapse-single_spaced (is_space c) cs)

prepend-single_spaced :
    (b : Bool) (c : ℕ) (ds : Text)
    → (if is_space c
        then not b && c == 32 && single_spaced (is_space c) ds
        else single_spaced (is_space c) ds)
      ≡ true
    → single_spaced b (prepend c ds) ≡ true
prepend-single_spaced b c [] h = ground arith
prepend-single_spaced b c (d ∷ ds) h = ground arith

strip_right-single_spaced :
    (b : Bool) (t : Text) → single_spaced b t ≡ true → single_spaced b (strip_right t) ≡ true
unfolding strip_right
strip_right-single_spaced b [] h = refl
strip_right-single_spaced b (c ∷ cs) h =
    prepend-single_spaced b c (strip_right cs)
      (ground (arith, strip_right-single_spaced (is_space c) cs))

single_spaced_later :
    (b : Bool) (t : Text) → single_spaced b t ≡ true → single_spaced false t ≡ true
single_spaced_later b [] h = refl
single_spaced_later b (c ∷ cs) h = ground arith

strip_left-single_spaced :
    (b : Bool) (t : Text) → single_spaced b t ≡ true → single_spaced false (strip_left t) ≡ true
unfolding strip_left
strip_left-single_spaced b [] h = refl
strip_left-single_spaced b (c ∷ cs) h = elim (Bool-cases (is_space c)) [
  | inl blank ↦ ground (arith, strip_left-single_spaced true cs)
  | inr other ↦ ground arith
]

strip_right-prepend :
    (c : ℕ) (ds : Text) → strip_right ds ≡ ds → strip_right (prepend c ds) ≡ prepend c ds
unfolding strip_right
strip_right-prepend c [] h = ground arith
strip_right-prepend c (d ∷ ds) h = rw h refl

strip_right_twice : (t : Text) → strip_right (strip_right t) ≡ strip_right t
unfolding strip_right
strip_right_twice [] = refl
strip_right_twice (c ∷ cs) = strip_right-prepend c (strip_right cs) (strip_right_twice cs)

strip_left-prepend :
    (c : ℕ) (ds : Text) → is_space c ≡ false → strip_left (prepend c ds) ≡ prepend c ds
unfolding strip_left
strip_left-prepend c [] other = rw other (rw other refl)
strip_left-prepend c (d ∷ ds) other = rw other refl

-- A text that is stripped on the left stays so when it is stripped on the right.
strip_left-strip_right :
    (t : Text) → strip_left (strip_right (strip_left t)) ≡ strip_right (strip_left t)
unfolding strip_left strip_right
strip_left-strip_right [] = refl
strip_left-strip_right (c ∷ cs) = elim (Bool-cases (is_space c)) [
  | inl blank ↦ rw blank (strip_left-strip_right cs)
  | inr other ↦ rw other (strip_left-prepend c (strip_right cs) other)
]

pub strip-strip : (t : Text) → strip (strip t) ≡ strip t
unfolding strip
strip-strip t = rw (strip_left-strip_right t) (strip_right_twice (strip_left t))

pub strip-collapse-strip :
    (t : Text) → strip (collapse false (strip (collapse false t))) ≡ strip (collapse false t)
unfolding strip
strip-collapse-strip t =
    let single =
      strip_right-single_spaced false (strip_left (collapse false t))
        (strip_left-single_spaced false (collapse false t) (single_spaced-collapse false t)) in
    rw (collapse-single_spaced false (strip_right (strip_left (collapse false t))) single)
      (strip-strip (collapse false t))
