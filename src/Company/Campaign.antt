-- ===== src/Company/Campaign.antt =====
-- company_management/domain/hiring.py: a campaign and the competency model that it pins.
pub mod Pinned
use gbsa_aws_project.Base.{
  ℕ, ◌+◌, Bool, true, false, not, ◌&&◌, ◌||◌, Option, none, some, ltb, ◌==◌, length, if◌then◌else◌,
}
use gbsa_aws_project.Base.Exec.{ok, err, raise_if, ◌>>=◌, ◌>>◌}
use gbsa_aws_project.Shared.Errors.{Outcome, value_error, safe, conflict}
use gbsa_aws_project.Shared.Ids.{OpaqueId, Instant}
use gbsa_aws_project.Interview.Text.{Text, strip}
use gbsa_aws_project.Interview.Questions.{is_blank}

pub data CampaignStatus : Type 0 where
  draft published closed : CampaignStatus

pub record Campaign : Type 0 where
  pub campaign_id : OpaqueId
  pub company_id : OpaqueId
  pub position_id : OpaqueId
  pub competency_model_version_id : OpaqueId
  pub name : Text
  pub candidate_instructions : Text
  pub status : CampaignStatus
  pub published_at : Option Instant
  pub closed_at : Option Instant
  pub row_version : ℕ
  pub invitations_issued : Bool

-- `Campaign.__post_init__`, which every construction and every `replace` runs.
unfoldable pub campaign_post_init : Campaign → Outcome Campaign
campaign_post_init c = do
  raise_if (is_blank c.name || ltb 200 (length (strip c.name)))
      (value_error "campaign name must contain between 1 and 200 characters")
  raise_if
      (is_blank c.candidate_instructions || ltb 10000 (length (strip c.candidate_instructions)))
      (value_error "candidate instructions must be present")
  raise_if (ltb c.row_version 1) (value_error "row_version must be positive")
  ok (record c { name = strip c.name; candidate_instructions = strip c.candidate_instructions })

pub publish_from : Campaign → Instant → CampaignStatus → Outcome Campaign
unfolding campaign_post_init
publish_from c now CampaignStatus.published = ok c
publish_from c now CampaignStatus.closed = err (safe conflict)
publish_from c now CampaignStatus.draft = campaign_post_init (record c {
  status = CampaignStatus.published;
  published_at = some now;
  row_version = c.row_version + 1;
})

-- `Campaign.publish`
unfoldable pub publish : Campaign → Instant → Outcome Campaign
unfolding publish_from
publish c published_at = publish_from c published_at c.status

abbrev pub is_published : CampaignStatus → Bool
is_published CampaignStatus.published = true
is_published _ = false

-- `Campaign.mark_invitation_issued`
unfoldable pub mark_invitation_issued : Campaign → Outcome Campaign
unfolding campaign_post_init
mark_invitation_issued c =
    raise_if (not (is_published c.status)) (safe conflict)
    >> (if c.invitations_issued
        then ok c
        else campaign_post_init
            (record c { invitations_issued = true; row_version = c.row_version + 1 }))

-- `Campaign.pin_competency_model_version`
unfoldable pub pin_competency_model_version : Campaign → OpaqueId → Outcome Campaign
unfolding campaign_post_init
pin_competency_model_version c version_id =
    if version_id == c.competency_model_version_id
    then ok c
    else raise_if c.invitations_issued (safe conflict)
      >> campaign_post_init
          (record c { competency_model_version_id = version_id; row_version = c.row_version + 1 })
