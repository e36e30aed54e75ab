-- ===== src/Company/Campaign/Pinned.antt =====
-- What a campaign keeps once its first invitation was issued.
use gbsa_aws_project.Base.{
  ◌+◌, ◌≤◌, ◌≡◌, ◌⊎◌, refl, ◌∙◌, subst, true, false, arith, ◌==◌, Bool-cases, inl, inr,
}
use gbsa_aws_project.Base.Exec.{ok}
use gbsa_aws_project.Shared.Ids.{OpaqueId, Instant}
use gbsa_aws_project.Interview.Text.{strip}
use gbsa_aws_project.Company.Campaign.{
  CampaignStatus, Campaign, campaign_post_init, publish_from, publish, is_published,
  mark_invitation_issued, pin_competency_model_version,
}

-- What a successful operation makes of a campaign.
pub data Changes (c c' : Campaign) : Type 0 where
  publishes : (now : Instant) → publish c now ≡ ok c' → Changes c c'
  issues : mark_invitation_issued c ≡ ok c' → Changes c c'
  pins : (version_id : OpaqueId) → pin_competency_model_version c version_id ≡ ok c' → Changes c c'

pub data Reaches (c : Campaign) : Campaign → Type 0 where
  stays : Reaches c c
  changes : {d e : Campaign} → Reaches c d → Changes d e → Reaches c e

-- What is true of every later campaign `d`.
pub record Keeps (c d : Campaign) : Type 0 where
  pub ident : d.campaign_id ≡ c.campaign_id
  pub version : c.row_version ≤ d.row_version
  pub pinned :
      (c.invitations_issued ≡ false)
      ⊎ ((d.invitations_issued ≡ true)
          × (d.competency_model_version_id ≡ c.competency_model_version_id))
  pub published :
      (is_published c.status ≡ false)
      ⊎ ((is_published d.status ≡ true) × (d.published_at ≡ c.published_at))

stripped : (c : Campaign) → Campaign
stripped c = record c {
  name = strip c.name;
  candidate_instructions = strip c.candidate_instructions;
}

post_init-same : (c : Campaign) {d : Campaign} → campaign_post_init c ≡ ok d → stripped c ≡ d
unfolding campaign_post_init stripped
post_init-same c e = ground arith

-- A step that keeps what matters, up to the blanks around a text.
kept : (c d e : Campaign) → campaign_post_init d ≡ ok e → Keeps c d → Keeps c e
unfolding stripped
kept c d e made l =
    subst (Keeps c) (post_init-same d made)
      (record { ident = l.ident; version = l.version; pinned = l.pinned; published = l.published })

same : (c : Campaign) → Keeps c c
same c = record {
  ident = refl;
  version = omega arith;
  pinned = elim (Bool-cases c.invitations_issued) [
    | inl issued ↦ inr (issued, refl)
    | inr never ↦ inl never
  ];
  published = elim (Bool-cases (is_published c.status)) [
    | inl issued ↦ inr (issued, refl)
    | inr never ↦ inl never
  ];
}

publish_from-Keeps :
    (c d : Campaign) (now : Instant) (status : CampaignStatus)
    → c.status ≡ status
    → publish_from c now status ≡ ok d
    → Keeps c d
unfolding publish_from
publish_from-Keeps c d now CampaignStatus.published at e =
    let p : c ≡ d = ground arith in subst (Keeps c) p (same c)
publish_from-Keeps c d now CampaignStatus.closed at e = absurd (ground arith)
publish_from-Keeps c d now CampaignStatus.draft at e = kept c _ d e (record {
  ident = refl;
  version = omega arith;
  pinned = (same c).pinned;
  published = inl (rw at refl);
})

Changes-Keeps : (c d : Campaign) → Changes c d → Keeps c d
unfolding publish mark_invitation_issued pin_competency_model_version
Changes-Keeps c d (publishes now e) = publish_from-Keeps c d now c.status refl e
Changes-Keeps c d (issues e) = elim (Bool-cases (is_published c.status)) [
  | inr other ↦ absurd (ground arith)
  | inl active ↦ elim (Bool-cases c.invitations_issued) [
    | inl issued ↦ let p : c ≡ d = ground arith in subst (Keeps c) p (same c)
    | inr never ↦
        kept c (record c { invitations_issued = true; row_version = c.row_version + 1 }) d
          (ground arith)
          (record {
            ident = refl;
            version = omega arith;
            pinned = inl never;
            published = (same c).published;
          })
  ]
]
Changes-Keeps c d (pins version_id e) =
    elim (Bool-cases (version_id == c.competency_model_version_id)) [
      | inl old ↦ let p : c ≡ d = ground arith in subst (Keeps c) p (same c)
      | inr new ↦ elim (Bool-cases c.invitations_issued) [
        | inl issued ↦ absurd (ground arith)
        | inr never ↦
            kept c
              (record c {
                competency_model_version_id = version_id;
                row_version = c.row_version + 1;
              })
              d (ground arith)
              (record {
                ident = refl;
                version = omega arith;
                pinned = inl never;
                published = (same c).published;
              })
      ]
    ]

later_trans : (c d e : Campaign) → Keeps c d → Keeps d e → Keeps c e
later_trans c d e l m = record {
  ident = m.ident ∙ l.ident;
  version = omega (arith, l.version, m.version);
  pinned = elim l.pinned [
    | inl never ↦ inl never
    | inr (issued, p) ↦ elim m.pinned [
      | inl never ↦ absurd (ground arith)
      | inr (still, q) ↦ inr (still, q ∙ p)
    ]
  ];
  published = elim l.published [
    | inl never ↦ inl never
    | inr (issued, p) ↦ elim m.published [
      | inl never ↦ absurd (ground arith)
      | inr (still, q) ↦ inr (still, q ∙ p)
    ]
  ];
}

-- Along any successful operations: the campaign keeps its identifier, its row version does not fall,
-- a campaign that was published stays published since the same instant, and once an invitation was
-- issued, the pinned competency model version never changes.
pub Reaches-Keeps : (c d : Campaign) → Reaches c d → Keeps c d
Reaches-Keeps c _ stays = same c
Reaches-Keeps c e (changes {d} r s) = later_trans c d e (Reaches-Keeps c d r) (Changes-Keeps d e s)
