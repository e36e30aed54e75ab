-- ===== src/Submission/Storage/Accepted.antt =====
-- Which uploads are accepted.
use gbsa_aws_project.Base.{
  ℕ, ◌≤◌, ◌≡◌, ◌↔◌, refl, sym, ap, ◌∙◌, subst, true, some, List, ◌==◌, length, arith, inl, inr,
  Bool-cases, Option-cases, any,
}
use gbsa_aws_project.Base.Equality.{nat_eq, list_eq, pair_eq, eq→≡, list_beq_iff}
use gbsa_aws_project.Base.Dict.{lookup, insert}
use gbsa_aws_project.Base.Exec.{ok, err, Result-cases, ◌>>=◌, ◌>>◌}
use gbsa_aws_project.Shared.Errors.{Error, Outcome}
use gbsa_aws_project.Shared.Ids.{OpaqueId, Instant}
use gbsa_aws_project.Shared.Tenant.{TenantContext, ApplicantScope, ensure_applicant_scope}
use gbsa_aws_project.Shared.Tenant.Isolation.{
  MayAct, ensure_applicant_scope_iff, ensure_applicant_scope-MayAct,
}
use gbsa_aws_project.Interview.Text.{Text}
use gbsa_aws_project.Submission.Storage.{
  UploadIntentRecord, SubmissionObjectStorage, is_scope, intent, check_upload, accept_upload,
}

pub is_scope→≡ : (a b : ApplicantScope) → is_scope a b ≡ true → a ≡ b
is_scope→≡ a b h = ground arith

is_scope_refl : (a : ApplicantScope) → is_scope a a ≡ true
is_scope_refl a = ground arith

module _ (context : TenantContext) (scope : ApplicantScope) (upload_id : OpaqueId)
    (intents : SubmissionObjectStorage) where
  pub intent-found :
      {r : UploadIntentRecord}
      → intent context scope upload_id intents ≡ ok r
      → MayAct context scope
        × (lookup (scope.company_id, upload_id) intents ≡ some r)
        × (r.scope ≡ scope)
  unfolding intent
  intent-found {r} h = elim (Result-cases (ensure_applicant_scope (some context) scope)) [
    | inr (x, denied) ↦ let h' = rw denied at h in absurd (ground arith)
    | inl (c, checked) ↦
        let h' = rw checked at h in
        elim (Option-cases (lookup (scope.company_id, upload_id) intents)) [
          | inl missing ↦ elim (Bool-cases (any (λ x. x.0.1 == upload_id) intents)) [
            | inl there ↦ let h'' = rw (missing, there) at h' in absurd (ground arith)
            | inr nowhere ↦ let h'' = rw (missing, nowhere) at h' in absurd (ground arith)
          ]
          | inr (q, found) ↦ elim (Bool-cases (is_scope q.scope scope)) [
            | inr other ↦ let h'' = rw (found, other) at h' in absurd (ground arith)
            | inl own ↦
                let h'' = rw (found, own) at h' in
                let p : q ≡ r = ground arith in
                (
                  ensure_applicant_scope-MayAct context scope checked,
                  found ∙ ap some p,
                  subst (λ v. v.scope ≡ scope) p (is_scope→≡ q.scope scope own),
                )
          ]
        ]
  ]

  intent-own :
      {r : UploadIntentRecord}
      → MayAct context scope
      → lookup (scope.company_id, upload_id) intents ≡ some r
      → r.scope ≡ scope
      → intent context scope upload_id intents ≡ ok r
  unfolding intent
  intent-own {r} may at own =
      rw ((ensure_applicant_scope_iff context scope).1 may, at, own, is_scope_refl scope) refl

-- The content is what was announced, and comes in time.
pub record Fits (sha256 : List ℕ → Text) (content : List ℕ) (media_type : Text) (now : Instant)
    (r : UploadIntentRecord) : Type 0 where
  pub timely : now ≤ r.expires_at
  pub media : media_type ≡ r.media_type
  pub size : length content ≡ r.expected_byte_size
  pub hash : sha256 content ≡ r.expected_sha256

check_upload_iff :
    (sha256 : List ℕ → Text) (content : List ℕ) (media_type : Text) (now : Instant)
    (r : UploadIntentRecord)
    → (check_upload sha256 content media_type now r ≡ ok tt) ↔ Fits sha256 content media_type now r
unfolding check_upload
check_upload_iff sha256 content media_type now r = (
  λ h. record {
    timely = ground arith;
    media = eq→≡ media_type r.media_type (ground arith);
    size = ground arith;
    hash = eq→≡ (sha256 content) r.expected_sha256 (ground arith);
  },
  λ f. ground (
    arith,
    f.timely,
    f.size,
    list_beq_iff media_type r.media_type,
    list_beq_iff (sha256 content) r.expected_sha256,
  ),
)

ok_inj : {r q : UploadIntentRecord} → ◌≡◌ {A = Outcome UploadIntentRecord} (ok r) (ok q) → r ≡ q
ok_inj h = ground arith

module _ (sha256 : List ℕ → Text) (context : TenantContext) (scope : ApplicantScope)
    (upload_id : OpaqueId) (content : List ℕ) (media_type : Text) (now : Instant)
    (put : Outcome (Unit {0})) (intents : SubmissionObjectStorage) where
  -- What an upload needs: an intent of the very scope on record, by an actor of the scope, content
  -- that fits it, and a storage that took the content.
  abbrev pub IsDue : UploadIntentRecord → Type 0
  IsDue r =
      MayAct context scope
      × (lookup (scope.company_id, upload_id) intents ≡ some r)
      × (r.scope ≡ scope)
      × Fits sha256 content media_type now r
      × (put ≡ ok tt)

  abbrev pub due : Outcome UploadIntentRecord
  due = intent context scope upload_id intents >>= λ r.
      check_upload sha256 content media_type now r >> put >> ok r

  due-IsDue : (r : UploadIntentRecord) → due ≡ ok r → IsDue r
  due-IsDue r h = elim (Result-cases (intent context scope upload_id intents)) [
    | inr (x, failed) ↦ let h' = rw failed at h in absurd (ground arith)
    | inl (q, found) ↦
        let h' = rw found at h in
        elim (Result-cases (check_upload sha256 content media_type now q)) [
          | inr (x, failed) ↦ let h'' = rw failed at h' in absurd (ground arith)
          | inl (u, fits) ↦
              let h'' = rw fits at h' in
              elim (Result-cases put) [
                | inr (x, failed) ↦ let h3 = rw failed at h'' in absurd (ground arith)
                | inl (v, took) ↦
                    let h3 = rw took at h'' in
                    let p : q ≡ r = ground arith in
                    let (may, at, own) = intent-found context scope upload_id intents found in
                    subst IsDue p (
                      may,
                      at,
                      own,
                      (check_upload_iff sha256 content media_type now q).0 fits,
                      took,
                    )
              ]
        ]
  ]

  IsDue-due : (r : UploadIntentRecord) → IsDue r → due ≡ ok r
  IsDue-due r d =
      rw
        (
          intent-own context scope upload_id intents d.0 d.1 d.2,
          (check_upload_iff sha256 content media_type now r).1 d.3,
          d.4,
        )
        refl

  -- An upload is accepted exactly if it is due. Its intent is then marked, and it alone; an upload
  -- that is not accepted leaves all intents as they are.
  pub accept_upload_iff :
      let call = accept_upload sha256 context scope upload_id content media_type now put intents in
      (((v : UploadIntentRecord) × (call.0 ≡ ok v)) ↔ ((r : UploadIntentRecord) × IsDue r))
      × ((r : UploadIntentRecord)
          → IsDue r
          → call.1 ≡ insert (scope.company_id, upload_id) (record r { uploaded = true }) intents)
      × ((x : Error) → call.0 ≡ err x → call.1 ≡ intents)
  unfolding accept_upload
  accept_upload_iff = elim (Result-cases due) [
    | inl (r, passed) ↦ rw passed (
      (λ ret. (r, due-IsDue r passed), λ d. (record r { uploaded = true }, refl)),
      λ q d. let p : r ≡ q = ok_inj (sym passed ∙ IsDue-due q d) in rw p refl,
      λ x failed. absurd (ground arith),
    )
    | inr (x, failed) ↦ rw failed (
      (
        λ ret. absurd (ground arith),
        λ d. let e = sym failed ∙ IsDue-due d.0 d.1 in absurd (ground arith),
      ),
      λ q d. let e = sym failed ∙ IsDue-due q d in absurd (ground arith),
      λ y e. refl,
    )
  ]
