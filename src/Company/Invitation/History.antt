-- ===== src/Company/Invitation/History.antt =====
-- An invitation over any number of changes.
use gbsa_aws_project.Base.{
  ◌+◌, ◌≡◌, ◌≢◌, ◌⊎◌, refl, subst, true, false, some, [], ◌∷◌, length, length-append, arith, ◌==◌,
  Bool-cases, inl, inr,
}
use gbsa_aws_project.Base.Equality.{nat_eq, list_eq}
use gbsa_aws_project.Base.Exec.{ok}
use gbsa_aws_project.Shared.Ids.{Instant}
use gbsa_aws_project.Interview.Text.{Text}
use gbsa_aws_project.Interview.Session.{is_some}
use gbsa_aws_project.Company.Invitation.{
  InvitationState, Invitation, applied, index, mark_token_exchanged, transition, allowed,
}
use gbsa_aws_project.Company.Invitation.Moves.{
  IsValid, IsValid-post_init, moved, transition_outcomes, applied-append,
}

module _ (lower : Text → Text) where
  -- What successful calls make of an invitation.
  pub data Reaches (i : Invitation) : Invitation → Type 0 where
    stays : Reaches i i
    moves :
        {j k : Invitation} (target : InvitationState) (key : Text) (now : Instant)
        → Reaches i j
        → transition lower j target key now ≡ ok k
        → Reaches i k
    exchanges :
        {j k : Invitation} (now : Instant)
        → Reaches i j
        → mark_token_exchanged lower j now ≡ ok k
        → Reaches i k

  -- What is true of every later invitation `j`.
  pub record IsLater (i j : Invitation) : Type 0 where
    pub valid : IsValid lower j
    pub ident : j.invitation_id ≡ i.invitation_id
    pub token_hash : j.token_hash ≡ i.token_hash
    pub remembered :
        (key : Text) (t : InvitationState)
        → applied key i.applied_transitions ≡ some t
        → applied key j.applied_transitions ≡ some t
    pub counted :
        j.row_version + length i.applied_transitions ≡ i.row_version + length j.applied_transitions
    pub exchanged :
        (is_some i.token_exchanged_at ≡ false) ⊎ (j.token_exchanged_at ≡ i.token_exchanged_at)
    pub closed : (i.state ≢ InvitationState.deleted) ⊎ (j.state ≡ InvitationState.deleted)

  is_deleted : (s : InvitationState) → (s ≢ InvitationState.deleted) ⊎ (s ≡ InvitationState.deleted)
  is_deleted s = elim (Bool-cases (index s == 12)) [
    | inl gone ↦ inr (ground arith)
    | inr other ↦ inl (λ p. ground arith)
  ]

  moved-IsLater :
      (i j : Invitation) (target : InvitationState) (key : Text) (now : Instant)
      → IsLater i j
      → allowed j.state target ≡ true
      → IsValid lower (moved lower j target key now)
      → IsLater i (moved lower j target key now)
  moved-IsLater i j target key now l fits v = record {
    valid = v;
    ident = l.ident;
    token_hash = l.token_hash;
    remembered = λ k t e.
        ground (arith, l.remembered k t e, applied-append k key j.applied_transitions target);
    counted = omega (arith, l.counted, length-append j.applied_transitions ((key, target) ∷ []));
    exchanged = l.exchanged;
    closed = elim l.closed [ inl other ↦ inl other | inr gone ↦ absurd (ground arith) ];
  }

  transition-IsLater :
      (i j k : Invitation) (target : InvitationState) (key : Text) (now : Instant)
      → IsLater i j
      → transition lower j target key now ≡ ok k
      → IsLater i k
  transition-IsLater i j k target key now l e =
      elim (transition_outcomes lower j target key now l.valid) [
        | inl (_, same) ↦ let p : j ≡ k = ground arith in subst (IsLater i) {x = j} p l
        | inr (inl (_, _, _, refused)) ↦ absurd (ground arith)
        | inr (inr (inl (_, _, refused))) ↦ absurd (ground arith)
        | inr (inr (inr (_, fits, goes, v, _))) ↦
            let p : moved lower j target key now ≡ k = ground arith in
            subst (IsLater i) {x = moved lower j target key now} p
              (moved-IsLater i j target key now l fits v)
      ]

  pub mark-IsLater :
      (i j k : Invitation) (now : Instant)
      → IsLater i j
      → mark_token_exchanged lower j now ≡ ok k
      → IsLater i k
  unfolding mark_token_exchanged
  mark-IsLater i j k now l e = elim (Bool-cases (is_some j.token_exchanged_at)) [
    | inl used ↦ absurd (ground arith)
    | inr open_yet ↦
        let made : Invitation = record j { token_exchanged_at = some now } in
        let w = l.valid in
        let v : IsValid lower made = record {
          normal = w.normal;
          address = w.address;
          short = w.short;
          hashed = w.hashed;
          versioned = w.versioned;
        } in
        let p : made ≡ k = ground (arith, IsValid-post_init lower made v) in
        subst (IsLater i) {x = made} p (record {
          valid = v;
          ident = l.ident;
          token_hash = l.token_hash;
          remembered = l.remembered;
          counted = l.counted;
          exchanged = elim l.exchanged [ inl other ↦ inl other | inr same ↦ inl (ground arith) ];
          closed = l.closed;
        })
  ]

  -- Along any successful transitions and token exchanges from a well-formed invitation: it stays
  -- well formed with its identifier and token hash, every key that was applied stays applied to the
  -- same target, the row version counts the applied transitions, a token that was exchanged keeps
  -- its instant, and a deleted invitation stays deleted.
  pub Reaches-IsLater : (i j : Invitation) → IsValid lower i → Reaches i j → IsLater i j
  Reaches-IsLater i _ v stays = record {
    valid = v;
    ident = refl;
    token_hash = refl;
    remembered = λ k t e. e;
    counted = omega arith;
    exchanged = inr refl;
    closed = is_deleted i.state;
  }
  Reaches-IsLater i k v (moves {j} target key now r e) =
      transition-IsLater i j k target key now (Reaches-IsLater i j v r) e
  Reaches-IsLater i k v (exchanges {j} now r e) = mark-IsLater i j k now (Reaches-IsLater i j v r) e

  applied_after :
      (i j : Invitation) (target : InvitationState) (key : Text) (now : Instant)
      → IsValid lower i
      → transition lower i target key now ≡ ok j
      → IsValid lower j × (applied key j.applied_transitions ≡ some target)
  applied_after i j target key now v e = elim (transition_outcomes lower i target key now v) [
    | inl (at, same) ↦
        let p : i ≡ j = ground arith in
        subst (λ x. IsValid lower x × (applied key x.applied_transitions ≡ some target)) {x = i} p
          (v, at)
    | inr (inl (_, _, _, refused)) ↦ absurd (ground arith)
    | inr (inr (inl (_, _, refused))) ↦ absurd (ground arith)
    | inr (inr (inr (_, _, goes, w, at))) ↦
        let p : moved lower i target key now ≡ j = ground arith in
        subst (λ x. IsValid lower x × (applied key x.applied_transitions ≡ some target))
          {x = moved lower i target key now} p (w, at)
  ]

  -- Once a transition was made, the same call gives the invitation as it is, however the invitation
  -- changed in between and whatever state it is in by then.
  pub transition_replay :
      (i j k : Invitation) (target : InvitationState) (key : Text) (now later : Instant)
      → IsValid lower i
      → transition lower i target key now ≡ ok j
      → Reaches j k
      → transition lower k target key later ≡ ok k
  transition_replay i j k target key now later v e r =
      let (w, at) = applied_after i j target key now v e in
      let l = Reaches-IsLater j k w r in
      let kept = l.remembered key target at in
      elim (transition_outcomes lower k target key later l.valid) [
        | inl (_, same) ↦ same
        | inr (inl (before, old, other, _)) ↦ absurd (other (ground arith))
        | inr (inr (inl (new, _, _))) ↦ absurd (ground arith)
        | inr (inr (inr (new, _, _, _, _))) ↦ absurd (ground arith)
      ]
