-- ===== src/Company/Invitation/Moves.antt =====
-- Every outcome of a transition of an invitation.
use gbsa_aws_project.Base.{
  ◌+◌, ◌≤◌, ◌≡◌, ◌≢◌, ◌⊎◌, refl, true, false, none, some, List, [], ◌∷◌, ◌++◌, length, arith, ◌==◌,
  Bool-cases, Option-cases, inl, inr, if◌then◌else◌,
}
use gbsa_aws_project.Base.Equality.{eq, eq_refl, nat_eq, list_eq}
use gbsa_aws_project.Base.Exec.{ok, err}
use gbsa_aws_project.Shared.Errors.{safe, idempotency_conflict, conflict}
use gbsa_aws_project.Shared.Ids.{Instant}
use gbsa_aws_project.Interview.Text.{Text, strip, contains}
use gbsa_aws_project.Interview.Turn.{is_sha256}
use gbsa_aws_project.Company.Invitation.{
  InvitationState, Invitation, allowed, index, verified_at, applied, invitation_post_init, move,
  replay_or_move, transition,
}

pub index_injective : (a b : InvitationState) → index a ≡ index b → a ≡ b
index_injective a b e = ground arith

pub applied-append :
    (key k : Text) (ts : List (Text × InvitationState)) (t : InvitationState)
    → applied key (ts ++ (k, t) ∷ [])
      ≡ elim (applied key ts) [ none ↦ (if eq k key then some t else none) | some s ↦ some s ]
unfolding applied
applied-append key k [] t = refl
applied-append key k (u ∷ ts) t = ground (arith, applied-append key k ts t)

module _ (lower : Text → Text) where
  -- What holds of every invitation that was constructed.
  pub record IsValid (i : Invitation) : Type 0 where
    pub normal : lower (strip i.applicant_email) ≡ i.applicant_email
    pub address : contains i.applicant_email (b'@' ∷ []) ≡ true
    pub short : length i.applicant_email ≤ 320
    pub hashed : is_sha256 i.token_hash ≡ true
    pub versioned : 1 ≤ i.row_version

  pub IsValid-post_init : (i : Invitation) → IsValid i → invitation_post_init lower i ≡ ok i
  unfolding invitation_post_init
  IsValid-post_init i v = rw (v.normal) (ground (arith, v.address, v.short, v.hashed, v.versioned))

  -- The invitation after a transition.
  abbrev pub moved : Invitation → InvitationState → Text → Instant → Invitation
  moved i target key now = record i {
    state = target;
    row_version = i.row_version + 1;
    identity_verified_at = verified_at target now i.identity_verified_at;
    applied_transitions = i.applied_transitions ++ (key, target) ∷ [];
  }

  pub moved-IsValid :
      (i : Invitation) (target : InvitationState) (key : Text) (now : Instant)
      → IsValid i
      → IsValid (moved i target key now)
  moved-IsValid i target key now v = record {
    normal = v.normal;
    address = v.address;
    short = v.short;
    hashed = v.hashed;
    versioned = omega arith;
  }

  -- Every outcome of a transition of a well-formed invitation: under a key that was applied, the
  -- invitation comes back as it is if the target is the same, and the call is refused as a conflict
  -- if it is another; under a new key, a target that the state does not allow is refused, and
  -- otherwise the invitation moves, stays well formed and records the key.
  pub transition_outcomes :
      (i : Invitation) (target : InvitationState) (key : Text) (now : Instant)
      → IsValid i
      → ((applied key i.applied_transitions ≡ some target)
          × (transition lower i target key now ≡ ok i))
        ⊎ ((before : InvitationState) × (applied key i.applied_transitions ≡ some before)
            × (before ≢ target)
            × (transition lower i target key now ≡ err (safe idempotency_conflict)))
        ⊎ ((applied key i.applied_transitions ≡ none)
            × (allowed i.state target ≡ false)
            × (transition lower i target key now ≡ err (safe conflict)))
        ⊎ ((applied key i.applied_transitions ≡ none)
            × (allowed i.state target ≡ true)
            × (transition lower i target key now ≡ ok (moved i target key now))
            × IsValid (moved i target key now)
            × (applied key (moved i target key now).applied_transitions ≡ some target))
  unfolding transition replay_or_move move
  transition_outcomes i target key now v = elim (Option-cases (applied key i.applied_transitions)) [
    | inr (before, old) ↦ elim (Bool-cases (index before == index target)) [
      | inl same ↦
          let p : before ≡ target = index_injective before target (ground arith) in
          inl (rw p at old, rw old (rw same refl))
      | inr other ↦ inr (inl (before, old, (λ p. ground arith), rw old (rw other refl)))
    ]
    | inl new ↦ elim (Bool-cases (allowed i.state target)) [
      | inr refused ↦ inr (inr (inl (new, refused, rw new (rw refused refl))))
      | inl fits ↦
          let v' = moved-IsValid i target key now v in
          inr (
            inr (
              inr (
                new,
                fits,
                rw new (rw fits (IsValid-post_init (moved i target key now) v')),
                v',
                ground (arith, applied-append key key i.applied_transitions target, eq_refl key),
              )))
    ]
  ]
