-- ===== src/Company/Consent/Authorized.antt =====
-- When an applicant's data may be processed.
use gbsa_aws_project.Base.{
  ◌<◌, ◌≡◌, ◌↔◌, refl, sym, ap, subst, true, false, Option, none, some, any, arith, inl, inr,
  Bool-cases,
}
use gbsa_aws_project.Base.Exec.{ok, err, Result-cases}
use gbsa_aws_project.Shared.Errors.{safe, forbidden}
use gbsa_aws_project.Shared.Ids.{Instant}
use gbsa_aws_project.Shared.Tenant.{TenantContext, ensure_applicant_scope}
use gbsa_aws_project.Interview.Session.{is_some}
use gbsa_aws_project.Company.Invitation.{Invitation, InvitationState}
use gbsa_aws_project.Company.Consent.{
  ConsentPurpose, is_purpose, ConsentRecord, consent_post_init, withdraw, is_processable, require,
}

-- The states before the identity is verified and after the end of an invitation.
pub data IsOutside : InvitationState → Type 0 where
  invited : IsOutside InvitationState.invited
  expired : IsOutside InvitationState.expired
  revoked : IsOutside InvitationState.revoked
  deleted : IsOutside InvitationState.deleted

-- A consent of the invitation and its applicant, not withdrawn and for the purpose, while the
-- invitation has not expired and is open.
pub record IsAuthorized (i : Invitation) (c : ConsentRecord) (purpose : ConsentPurpose)
    (now : Instant) : Type 0 where
  pub timely : now < i.expires_at
  pub open_state : IsOutside i.state → ⊥
  pub company : c.scope.company_id ≡ i.company_id
  pub invitation : c.scope.invitation_id ≡ i.invitation_id
  pub applicant : c.scope.applicant_id ≡ i.applicant_id
  pub standing : c.withdrawn_at ≡ none
  pub purposed : any (is_purpose purpose) c.purposes ≡ true

outside_closed : (st : InvitationState) → IsOutside st → is_processable st ≡ false
outside_closed _ IsOutside.invited = refl
outside_closed _ IsOutside.expired = refl
outside_closed _ IsOutside.revoked = refl
outside_closed _ IsOutside.deleted = refl

inside_open : (st : InvitationState) → (IsOutside st → ⊥) → is_processable st ≡ true
inside_open InvitationState.invited h = absurd (h IsOutside.invited)
inside_open InvitationState.expired h = absurd (h IsOutside.expired)
inside_open InvitationState.revoked h = absurd (h IsOutside.revoked)
inside_open InvitationState.deleted h = absurd (h IsOutside.deleted)
inside_open _ h = refl

consent_post_init-withdrawn :
    (c : ConsentRecord) {c' : ConsentRecord}
    → consent_post_init c ≡ ok c'
    → is_some c.withdrawn_at ≡ is_some c'.withdrawn_at
unfolding consent_post_init
consent_post_init-withdrawn c {c'} h =
    let p : c.withdrawn_at ≡ c'.withdrawn_at = ground arith in ap is_some p

withdraw-withdrawn :
    (context : TenantContext) (at : Instant) (c : ConsentRecord) {c' : ConsentRecord}
    → withdraw context at c ≡ ok c'
    → is_some c'.withdrawn_at ≡ true
unfolding withdraw
withdraw-withdrawn context at c {c'} h =
    elim (Result-cases (ensure_applicant_scope (some context) c.scope)) [
      | inr (x, denied) ↦ let h' = rw denied at h in absurd (ground arith)
      | inl (s, checked) ↦
          let h' = rw checked at h in
          elim (Bool-cases (is_some c.withdrawn_at)) [
            | inl before ↦
                let h'' = rw before at h' in
                let p : c ≡ c' = ground arith in subst (λ r. is_some r.withdrawn_at ≡ true) p before
            | inr standing ↦ sym (
                consent_post_init-withdrawn (record c { withdrawn_at = some at })
                  (rw standing at h'))
          ]
    ]

module _ (i : Invitation) (purpose : ConsentPurpose) (now : Instant) where
  require_sound :
      (consent : Option ConsentRecord) (v : ConsentRecord)
      → require i consent purpose now ≡ ok v
      → (consent ≡ some v) × IsAuthorized i v purpose now
  unfolding require
  require_sound none v h = absurd (ground arith)
  require_sound (some c) v h =
      let p : c ≡ v = ground arith in
      let open_ : is_processable i.state ≡ true = ground arith in
      (
        ap some p,
        subst (λ r. IsAuthorized i r purpose now) p
            (record {
              timely = ground arith;
              open_state = λ o. let shut = outside_closed i.state o in absurd (ground arith);
              company = ground arith;
              invitation = ground arith;
              applicant = ground arith;
              standing = ground arith;
              purposed = ground arith;
            }),
      )

  require_complete :
      (v : ConsentRecord) → IsAuthorized i v purpose now → require i (some v) purpose now ≡ ok v
  unfolding require
  require_complete v a =
      let open_ = inside_open i.state a.open_state in
      ground (arith, a.timely, a.company, a.invitation, a.applicant, a.standing, a.purposed)

  -- Processing is authorized, by the consent that was given, exactly if the invitation has not expired
  -- and is between its identity check and its end, and the consent is of the invitation and its
  -- applicant, is not withdrawn and is for the purpose.
  pub require_iff :
      (consent : Option ConsentRecord) (v : ConsentRecord)
      → (require i consent purpose now ≡ ok v) ↔ ((consent ≡ some v) × IsAuthorized i v purpose now)
  require_iff consent v = (
    require_sound consent v,
    λ (given, a). subst (λ o. require i o purpose now ≡ ok v) (sym given) (require_complete v a),
  )

  -- Once a consent was withdrawn, it authorizes nothing: no purpose, at no time, for no invitation.
  pub withdraw_ends :
      (context : TenantContext) (at : Instant) (c : ConsentRecord) {c' : ConsentRecord}
      → withdraw context at c ≡ ok c'
      → require i (some c') purpose now ≡ err (safe forbidden)
  unfolding require
  withdraw_ends context at c {c'} h =
      let gone : is_some c'.withdrawn_at ≡ true = withdraw-withdrawn context at c h in
      ground (arith, gone)
