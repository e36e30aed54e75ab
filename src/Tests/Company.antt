-- ===== src/Tests/Company.antt =====
-- An invitation and a campaign.
use gbsa_aws_project.Base.{
  ℕ, zero, suc, ◌≤◌, ◌<◌, ◌≡◌, ◌≢◌, ◌⊎◌, ◌↔◌, refl, true, false, some, none, [], ◌∷◌, length, arith,
}
use gbsa_aws_project.Base.Equality.{nat_eq, list_eq}
use gbsa_aws_project.Base.Exec.{ok, err}
use gbsa_aws_project.Shared.Errors.{safe, conflict, idempotency_conflict}
use gbsa_aws_project.Interview.Text.{Text, codes, strip, contains}
use gbsa_aws_project.Interview.Session.{is_some}
use gbsa_aws_project.Interview.Turn.{is_sha256}
use gbsa_aws_project.Company.Invitation.{
  InvitationState, Invitation, allowed, applied, transition, mark_token_exchanged, authorize_token,
  is_closed,
}
use gbsa_aws_project.Company.Invitation.Moves.{IsValid, moved, transition_outcomes}
use gbsa_aws_project.Company.Invitation.History.{Reaches, stays, moves, IsLater, Reaches-IsLater}
use gbsa_aws_project.Company.Invitation.Tokens.{authorize_token_iff}
use gbsa_aws_project.Company.Campaign.{CampaignStatus, Campaign, publish}
use gbsa_aws_project.Company.Campaign.Pinned
use gbsa_aws_project.Company.Campaign.Pinned.{Keeps, Reaches-Keeps}

abbrev pub lower : Text → Text
lower t = t

abbrev pub repeated : ℕ → Text
repeated zero = []
repeated (suc n) = b'a' ∷ repeated n

abbrev pub sha256 : Text → Text
sha256 t = repeated 64

abbrev pub invitation : Invitation
invitation = record {
  invitation_id = 3;
  company_id = 1;
  campaign_id = 11;
  applicant_id = 2;
  applicant_email = codes "a@b.kr";
  token_hash = repeated 64;
  expires_at = 1000;
  state = InvitationState.invited;
  row_version = 1;
  token_exchanged_at = none;
  identity_verified_at = none;
  applied_transitions = [];
}

invitation-IsValid : IsValid lower invitation
unfolding contains strip gbsa_aws_project.Interview.Text.is_space is_sha256
invitation-IsValid = record {
  normal = refl;
  address = refl;
  short = omega arith;
  hashed = refl;
  versioned = omega arith;
}

abbrev pub verified : Invitation
verified = moved lower invitation InvitationState.identity_verified (codes "k1") 10

abbrev pub consenting : Invitation
consenting = moved lower verified InvitationState.consented (codes "k2") 20

verifies :
    transition lower invitation InvitationState.identity_verified (codes "k1") 10 ≡ ok verified
unfolding transition strip gbsa_aws_project.Interview.Text.is_space
verifies = refl

consents : transition lower verified InvitationState.consented (codes "k2") 20 ≡ ok consenting
unfolding transition strip gbsa_aws_project.Interview.Text.is_space
consents = refl

refuses :
    transition lower consenting InvitationState.revoked (codes "k1") 30
    ≡ err (safe idempotency_conflict)
unfolding transition
refuses = refl

reached : Reaches lower verified consenting
reached = moves InvitationState.consented (codes "k2") 20 stays consents

transition_outcomes_example :
    let call = transition lower invitation InvitationState.ready (codes "k1") 10 in
    let made = moved lower invitation InvitationState.ready (codes "k1") 10 in
    ((applied (codes "k1") [] ≡ some InvitationState.ready) × (call ≡ ok invitation))
    ⊎ ((before : InvitationState) × (applied (codes "k1") [] ≡ some before)
        × (before ≢ InvitationState.ready)
        × (call ≡ err (safe idempotency_conflict)))
    ⊎ ((applied (codes "k1") [] ≡ none)
        × (allowed InvitationState.invited InvitationState.ready ≡ false)
        × (call ≡ err (safe conflict)))
    ⊎ ((applied (codes "k1") [] ≡ none)
        × (allowed InvitationState.invited InvitationState.ready ≡ true)
        × (call ≡ ok made)
        × IsValid lower made
        × (applied (codes "k1") made.applied_transitions ≡ some InvitationState.ready))
transition_outcomes_example =
    transition_outcomes lower invitation InvitationState.ready (codes "k1") 10 invitation-IsValid

Reaches-IsLater_example : IsLater lower invitation verified
Reaches-IsLater_example =
    Reaches-IsLater lower invitation verified invitation-IsValid
      (moves InvitationState.identity_verified (codes "k1") 10 stays verifies)

authorize_token_iff_example :
    (authorize_token sha256 invitation (codes "token") 5 ≡ ok invitation) ↔ (
      (5 < 1000)
      × (is_some invitation.token_exchanged_at ≡ false)
      × (is_closed InvitationState.invited ≡ false)
      × (1 ≤ length (codes "token"))
      × (length (codes "token") ≤ 4096)
      × (invitation.token_hash ≡ sha256 (codes "token")))
authorize_token_iff_example = authorize_token_iff sha256 invitation (codes "token") 5

abbrev exchanged : Invitation
exchanged = record invitation { token_exchanged_at = some 7 }

exchanges_once : mark_token_exchanged lower invitation 7 ≡ ok exchanged
unfolding mark_token_exchanged strip gbsa_aws_project.Interview.Text.is_space
exchanges_once = refl

abbrev campaign : Campaign
campaign = record {
  campaign_id = 11;
  company_id = 1;
  position_id = 12;
  competency_model_version_id = 6;
  name = codes "Backend";
  candidate_instructions = codes "Be on time";
  status = CampaignStatus.draft;
  published_at = none;
  closed_at = none;
  row_version = 1;
  invitations_issued = false;
}

abbrev published : Campaign
published = record campaign {
  status = CampaignStatus.published;
  published_at = some 50;
  row_version = 2;
}

publishes_now : publish campaign 50 ≡ ok published
unfolding publish strip gbsa_aws_project.Interview.Text.is_space
publishes_now = refl

Reaches-Keeps_example : Keeps campaign published
Reaches-Keeps_example =
    Reaches-Keeps campaign published
      (Pinned.changes Pinned.stays (Pinned.publishes 50 publishes_now))
