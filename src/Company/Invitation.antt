-- ===== src/Company/Invitation.antt =====
-- company_management/domain/hiring.py: an invitation, its states and its token.
pub mod Moves
pub mod History
pub mod Tokens
use gbsa_aws_project.Base.{
  ℕ, ◌+◌, Bool, true, false, not, ◌&&◌, ◌||◌, Option, none, some, List, [], ◌∷◌, ◌++◌, ltb, leb,
  ◌==◌, all, length, if◌then◌else◌,
}
use gbsa_aws_project.Base.Equality.{eq, nat_eq, list_eq}
use gbsa_aws_project.Base.Exec.{ok, err, raise_if, ◌>>=◌, ◌>>◌}
use gbsa_aws_project.Shared.Errors.{
  Outcome, value_error, safe, authentication_expired, authentication_required, idempotency_conflict,
  conflict,
}
use gbsa_aws_project.Shared.Ids.{OpaqueId, Instant}
use gbsa_aws_project.Interview.Text.{Text, strip, contains, codes}
use gbsa_aws_project.Interview.Session.{is_some}
use gbsa_aws_project.Interview.Turn.{is_sha256}

pub data InvitationState : Type 0 where
  invited identity_verified consented materials_submitted analyzing ready : InvitationState
  interviewing interrupted completed reviewed expired revoked deleted : InvitationState

-- `target in _ALLOWED_TRANSITIONS[state]`
abbrev pub allowed : InvitationState → InvitationState → Bool
allowed InvitationState.invited InvitationState.identity_verified = true
allowed InvitationState.invited InvitationState.expired = true
allowed InvitationState.invited InvitationState.revoked = true
allowed InvitationState.identity_verified InvitationState.consented = true
allowed InvitationState.identity_verified InvitationState.expired = true
allowed InvitationState.identity_verified InvitationState.revoked = true
allowed InvitationState.consented InvitationState.materials_submitted = true
allowed InvitationState.consented InvitationState.revoked = true
allowed InvitationState.materials_submitted InvitationState.analyzing = true
allowed InvitationState.analyzing InvitationState.ready = true
allowed InvitationState.ready InvitationState.interviewing = true
allowed InvitationState.interviewing InvitationState.interrupted = true
allowed InvitationState.interviewing InvitationState.completed = true
allowed InvitationState.interrupted InvitationState.interviewing = true
allowed InvitationState.completed InvitationState.reviewed = true
allowed InvitationState.deleted InvitationState.deleted = false
allowed _ InvitationState.deleted = true
allowed _ _ = false

-- The place of a state in the enumeration, which tells states apart.
abbrev pub index : InvitationState → ℕ
index InvitationState.invited = 0
index InvitationState.identity_verified = 1
index InvitationState.consented = 2
index InvitationState.materials_submitted = 3
index InvitationState.analyzing = 4
index InvitationState.ready = 5
index InvitationState.interviewing = 6
index InvitationState.interrupted = 7
index InvitationState.completed = 8
index InvitationState.reviewed = 9
index InvitationState.expired = 10
index InvitationState.revoked = 11
index InvitationState.deleted = 12

pub record Invitation : Type 0 where
  pub invitation_id : OpaqueId
  pub company_id : OpaqueId
  pub campaign_id : OpaqueId
  pub applicant_id : OpaqueId
  pub applicant_email : Text
  pub token_hash : Text
  pub expires_at : Instant
  pub state : InvitationState
  pub row_version : ℕ
  pub token_exchanged_at : Option Instant
  pub identity_verified_at : Option Instant
  pub applied_transitions : List (Text × InvitationState)

-- `self.state in {EXPIRED, REVOKED, DELETED}`
abbrev pub is_closed : InvitationState → Bool
is_closed InvitationState.expired = true
is_closed InvitationState.revoked = true
is_closed InvitationState.deleted = true
is_closed _ = false

abbrev pub verified_at : InvitationState → Instant → Option Instant → Option Instant
verified_at InvitationState.identity_verified now before = some now
verified_at _ now before = before

-- The state that the first transition under a key went to.
unfoldable pub applied : Text → List (Text × InvitationState) → Option InvitationState
applied key [] = none
applied key (t ∷ ts) = if eq t.0 key then some t.1 else applied key ts

-- `str.lower` and SHA-256 of a text, as hexadecimal digits, are parameters.
module _ (lower : Text → Text) where
  -- `Invitation.__post_init__`, which every construction and every `replace` runs.
  unfoldable pub invitation_post_init : Invitation → Outcome Invitation
  unfolding contains is_sha256
  invitation_post_init i = do
    raise_if
        (not (contains (lower (strip i.applicant_email)) (b'@' ∷ []))
          || ltb 320 (length (lower (strip i.applicant_email))))
        (value_error "applicant_email must be a valid normalized address")
    raise_if (not (is_sha256 i.token_hash)) (value_error "token_hash must be a SHA-256 hex digest")
    raise_if (ltb i.row_version 1) (value_error "row_version must be positive")
    ok (record i { applicant_email = lower (strip i.applicant_email) })

  -- A transition that was not applied yet.
  unfoldable pub move :
      Invitation
      → (target : InvitationState) → (idempotency_key : Text) → (occurred_at : Instant)
      → Outcome Invitation
  unfolding invitation_post_init
  move i target idempotency_key occurred_at = do
    raise_if (not (allowed i.state target)) (safe conflict)
    invitation_post_init (record i {
      state = target;
      row_version = i.row_version + 1;
      identity_verified_at = verified_at target occurred_at i.identity_verified_at;
      applied_transitions = i.applied_transitions ++ (idempotency_key, target) ∷ [];
    })

  pub replay_or_move :
      Invitation
      → (target : InvitationState) → Text
      → Instant
      → Option InvitationState
      → Outcome Invitation
  unfolding move
  replay_or_move i target key now none = move i target key now
  replay_or_move i target key now (some before) =
      if index before == index target then ok i else err (safe idempotency_conflict)

  -- `Invitation.transition`
  unfoldable pub transition :
      Invitation
      → (target : InvitationState) → (idempotency_key : Text) → (occurred_at : Instant)
      → Outcome Invitation
  unfolding replay_or_move applied
  transition i target idempotency_key occurred_at =
      replay_or_move i target idempotency_key occurred_at
        (applied idempotency_key i.applied_transitions)

  -- `Invitation.mark_token_exchanged`
  unfoldable pub mark_token_exchanged : Invitation → Instant → Outcome Invitation
  unfolding invitation_post_init
  mark_token_exchanged i occurred_at = do
    raise_if (is_some i.token_exchanged_at) (safe authentication_required)
    invitation_post_init (record i { token_exchanged_at = some occurred_at })

module _ (sha256 : Text → Text) where
  -- `Invitation.digest_token`
  unfoldable pub digest_token : Text → Outcome Text
  digest_token raw_token = do
    raise_if (ltb (length raw_token) 1 || ltb 4096 (length raw_token))
        (safe authentication_required)
    ok (sha256 raw_token)

  -- `Invitation.issue`, with the token that `secrets` draws.
  unfoldable pub issue :
      (lower : Text → Text)
      → (raw_token : Text) → (invitation_id company_id campaign_id applicant_id : OpaqueId)
      → (applicant_email : Text) → Instant
      → Outcome (Invitation × Text)
  unfolding digest_token invitation_post_init
  issue lower raw_token invitation_id company_id campaign_id applicant_id applicant_email
        expires_at =
      do
        token_hash ← digest_token raw_token
        made ← invitation_post_init lower (record {
          invitation_id = invitation_id;
          company_id = company_id;
          campaign_id = campaign_id;
          applicant_id = applicant_id;
          applicant_email = applicant_email;
          token_hash = token_hash;
          expires_at = expires_at;
          state = InvitationState.invited;
          row_version = 1;
          token_exchanged_at = none;
          identity_verified_at = none;
          applied_transitions = [];
        })
        ok (made, raw_token)

  -- `Invitation.authorize_token`
  unfoldable pub authorize_token : Invitation → (raw_token : Text) → Instant → Outcome Invitation
  unfolding digest_token
  authorize_token i raw_token now = do
    raise_if (leb i.expires_at now) (safe authentication_expired)
    raise_if (is_some i.token_exchanged_at || is_closed i.state) (safe authentication_required)
    digest ← digest_token raw_token
    raise_if (not (eq i.token_hash digest)) (safe authentication_required)
    ok i
