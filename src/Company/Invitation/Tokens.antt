-- ===== src/Company/Invitation/Tokens.antt =====
-- Who may exchange an invitation's token.
use gbsa_aws_project.Base.{
  ◌≤◌, ◌<◌, ◌≡◌, ◌⊎◌, ◌↔◌, refl, subst, true, false, some, length, arith, Bool-cases, inl, inr,
}
use gbsa_aws_project.Base.Equality.{eq→≡, eq_refl, nat_eq, list_eq}
use gbsa_aws_project.Base.Exec.{ok, err}
use gbsa_aws_project.Shared.Errors.{safe, authentication_expired, authentication_required}
use gbsa_aws_project.Shared.Ids.{Instant}
use gbsa_aws_project.Interview.Text.{Text}
use gbsa_aws_project.Interview.Session.{is_some}
use gbsa_aws_project.Company.Invitation.{
  Invitation, is_closed, digest_token, authorize_token, mark_token_exchanged,
}
use gbsa_aws_project.Company.Invitation.Moves.{IsValid, IsValid-post_init}
use gbsa_aws_project.Company.Invitation.History.{Reaches, Reaches-IsLater}

marked :
    (lower : Text → Text) (i j : Invitation) (now : Instant)
    → IsValid lower i
    → mark_token_exchanged lower i now ≡ ok j
    → IsValid lower j × (is_some j.token_exchanged_at ≡ true)
unfolding mark_token_exchanged
marked lower i j now v e = elim (Bool-cases (is_some i.token_exchanged_at)) [
  | inl used ↦ absurd (ground arith)
  | inr unused ↦
      let made : Invitation = record i { token_exchanged_at = some now } in
      let w : IsValid lower made = record {
        normal = v.normal;
        address = v.address;
        short = v.short;
        hashed = v.hashed;
        versioned = v.versioned;
      } in
      let p : made ≡ j = ground (arith, IsValid-post_init lower made w) in
      subst (λ x. IsValid lower x × (is_some x.token_exchanged_at ≡ true)) {x = made} p (w, refl)
]

module _ (sha256 : Text → Text) where
  -- A token is accepted exactly while the invitation has not expired, was not exchanged and is not
  -- closed, and only if the token is of 1 to 4096 characters and has the digest on record.
  pub authorize_token_iff :
      (i : Invitation) (token : Text) (now : Instant)
      → (authorize_token sha256 i token now ≡ ok i) ↔ (
          (now < i.expires_at)
          × (is_some i.token_exchanged_at ≡ false)
          × (is_closed i.state ≡ false)
          × (1 ≤ length token)
          × (length token ≤ 4096)
          × (i.token_hash ≡ sha256 token))
  unfolding authorize_token digest_token
  authorize_token_iff i token now = (
    λ e. (
      ground arith,
      ground arith,
      ground arith,
      ground arith,
      ground arith,
      eq→≡ i.token_hash (sha256 token) (ground arith),
    ),
    λ (soon, unused, active, some_text, short, same). ground (arith, same, eq_refl i.token_hash),
  )

  -- A token is exchanged once: after an exchange, and whatever transitions follow, every token is
  -- refused, as expired from the instant of expiry on and as unknown before.
  pub mark_token_exchanged_once :
      (lower : Text → Text) (i j k : Invitation) (token : Text) (exchanged now : Instant)
      → IsValid lower i
      → mark_token_exchanged lower i exchanged ≡ ok j
      → Reaches lower j k
      → ((k.expires_at ≤ now)
          × (authorize_token sha256 k token now ≡ err (safe authentication_expired)))
        ⊎ ((now < k.expires_at)
            × (authorize_token sha256 k token now ≡ err (safe authentication_required)))
  unfolding authorize_token
  mark_token_exchanged_once lower i j k token exchanged now v e r =
      let (w, used) = marked lower i j exchanged v e in
      let l = Reaches-IsLater lower j k w r in
      let still : is_some k.token_exchanged_at ≡ true = elim l.exchanged [
        | inl never ↦ absurd (ground arith)
        | inr same ↦ ground arith
      ] in
      ground arith
