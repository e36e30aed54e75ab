-- ===== src/Interview/Session/Degraded.antt =====
-- The degraded modes of a session.
use gbsa_aws_project.Base.{
  ◌≡◌, refl, Bool-cases, inl, inr, any-append, true, false, List, [], ◌∷◌, any, arith, ◌⊎◌, ◌++◌,
}
use gbsa_aws_project.Base.Equality.{eq, eq_sym, nat_eq, list_eq}
use gbsa_aws_project.Base.Exec.{ok, err}
use gbsa_aws_project.Shared.Errors.{value_error}
use gbsa_aws_project.Interview.Text.{Text}
use gbsa_aws_project.Interview.Session.{
  InterviewSession, has_duplicates, is_unsafe_mode, with_degraded_mode,
}
use gbsa_aws_project.Interview.Session.Machine.{IsValid, post_init_iff}

has_duplicates-append :
    (ms : List Text) (m : Text)
    → has_duplicates ms ≡ false
    → any (eq m) ms ≡ false
    → has_duplicates (ms ++ m ∷ []) ≡ false
unfolding has_duplicates
has_duplicates-append [] m h new = refl
has_duplicates-append (x ∷ ms) m h new =
    ground (arith, has_duplicates-append ms m, any-append (eq x) ms (m ∷ []), eq_sym x m)

append-IsValid :
    (s : InterviewSession) (mode : Text)
    → IsValid s
    → any (eq mode) s.degraded_modes ≡ false
    → is_unsafe_mode mode ≡ false
    → IsValid (record s { degraded_modes = s.degraded_modes ++ mode ∷ [] })
append-IsValid s mode v new fine = record {
  versioned = v.versioned;
  started = v.started;
  finished = v.finished;
  distinct = has_duplicates-append s.degraded_modes mode v.distinct new;
  safe = ground (arith, v.safe, any-append is_unsafe_mode s.degraded_modes (mode ∷ []));
}

-- A new mode on a well-formed session: a mode that is recorded already changes nothing, a safe new
-- mode is appended and the session stays well formed, and an unsafe one is refused.
pub with_degraded_mode_cases :
    (s : InterviewSession) (mode : Text)
    → IsValid s
    → ((any (eq mode) s.degraded_modes ≡ true) × (with_degraded_mode s mode ≡ ok s))
      ⊎ ((any (eq mode) s.degraded_modes ≡ false)
          × (is_unsafe_mode mode ≡ false)
          × (with_degraded_mode s mode
              ≡ ok (record s { degraded_modes = s.degraded_modes ++ mode ∷ [] }))
          × IsValid (record s { degraded_modes = s.degraded_modes ++ mode ∷ [] }))
      ⊎ ((any (eq mode) s.degraded_modes ≡ false)
          × (is_unsafe_mode mode ≡ true)
          × (with_degraded_mode s mode
              ≡ err (value_error "degraded_modes must contain safe non-empty codes")))
unfolding with_degraded_mode
with_degraded_mode_cases s mode v = elim (Bool-cases (any (eq mode) s.degraded_modes)) [
  | inl old ↦ inl (old, rw old)
  | inr new ↦ elim (Bool-cases (is_unsafe_mode mode)) [
    | inl bad ↦ inr (
        inr (
          new,
          bad,
          rw new (
              ground (
                arith,
                has_duplicates-append s.degraded_modes mode v.distinct new,
                any-append is_unsafe_mode s.degraded_modes (mode ∷ []),
              )),
        ))
    | inr fine ↦
        let v' = append-IsValid s mode v new fine in
        inr (inl (new, fine, rw new ((post_init_iff _).1 v'), v'))
  ]
]
