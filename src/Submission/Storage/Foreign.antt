-- ===== src/Submission/Storage/Foreign.antt =====
-- What calls for other scopes do to the uploads of a scope.
use gbsa_aws_project.Base.{
  ℕ, ◌≡◌, ◌≢◌, sym, ap, ◌∙◌, subst, Bool, true, false, none, some, List, ltb, arith, inl, inr,
  Bool-cases,
}
use gbsa_aws_project.Base.Equality.{eq, nat_eq, list_eq, pair_eq, eq→≡}
use gbsa_aws_project.Base.Dict.{lookup, insert, lookup-insert, lookup-remove}
use gbsa_aws_project.Base.Exec.{ok, err, Result-cases, raise_if, ◌>>=◌, ◌>>◌}
use gbsa_aws_project.Shared.Errors.{Outcome, safe, authentication_expired}
use gbsa_aws_project.Shared.Ids.{OpaqueId, Instant}
use gbsa_aws_project.Shared.Tenant.{TenantContext, ApplicantScope, ensure_applicant_scope}
use gbsa_aws_project.Interview.Text.{Text}
use gbsa_aws_project.Submission.Storage.{
  UploadIntentRecord, SubmissionObjectStorage, UploadRequest, intent_of, SignedUploadIntent,
  create_intent, intent, mark_uploaded, check_upload, accept_upload, verify_upload, pop_if,
  delete_upload,
}
use gbsa_aws_project.Submission.Storage.Accepted.{intent-found}

-- The uploads of a scope stay as they are.
abbrev pub Untouched : ApplicantScope → SubmissionObjectStorage → SubmissionObjectStorage → Type 0
Untouched mine intents intents' =
    (k : OpaqueId × OpaqueId) (r : UploadIntentRecord)
    → lookup k intents ≡ some r
    → r.scope ≡ mine
    → lookup k intents' ≡ some r

module _ (mine : ApplicantScope) (context : TenantContext) (scope : ApplicantScope)
    (other : scope ≢ mine) (intents : SubmissionObjectStorage) where
  -- The key of an intent of another scope is not one of mine.
  foreign_key :
      (j k : OpaqueId × OpaqueId) (q r : UploadIntentRecord)
      → lookup j intents ≡ some q
      → q.scope ≡ scope
      → lookup k intents ≡ some r
      → r.scope ≡ mine
      → eq j k ≡ false
  foreign_key j k q r at theirs there own = elim (Bool-cases (eq j k)) [
    | inr apart ↦ apart
    | inl same ↦
        let p = eq→≡ j k same in
        let at' = subst (λ i. lookup i intents ≡ some q) p at in
        let q_is : q ≡ r = ground arith in
        absurd (other (sym theirs ∙ (ap (λ v. v.scope) q_is ∙ own)))
  ]

  insert-Untouched :
      (j : OpaqueId × OpaqueId) (q v : UploadIntentRecord)
      → lookup j intents ≡ some q
      → q.scope ≡ scope
      → Untouched mine intents (insert j v intents)
  insert-Untouched j q v at theirs = λ k r there own.
      (rw (foreign_key j k q r at theirs there own) at (lookup-insert k j v intents)) ∙ there

  insert_new-Untouched :
      (j : OpaqueId × OpaqueId) (v : UploadIntentRecord)
      → lookup j intents ≡ none
      → Untouched mine intents (insert j v intents)
  insert_new-Untouched j v new = λ k r there own. elim (Bool-cases (eq j k)) [
    | inr apart ↦ (rw apart at (lookup-insert k j v intents)) ∙ there
    | inl same ↦
        let p = eq→≡ j k same in
        let new' = subst (λ i. lookup i intents ≡ none) p new in absurd (ground arith)
  ]

  mark-Untouched :
      (upload_id : OpaqueId) (f : UploadIntentRecord → Outcome UploadIntentRecord)
      → ((q v : UploadIntentRecord) → f q ≡ ok v → q ≡ v)
      → Untouched mine intents
          (mark_uploaded scope upload_id (intent context scope upload_id intents >>= f) intents).1
  mark-Untouched upload_id f keeps = elim (Result-cases (intent context scope upload_id intents)) [
    | inr (x, failed) ↦ rw failed (λ k r there own. there)
    | inl (q, found) ↦
        let (may, at, theirs) = intent-found context scope upload_id intents found in
        elim (Result-cases (f q)) [
          | inr (x, failed) ↦ rw (found, failed) (λ k r there own. there)
          | inl (v, passed) ↦
              rw (found, passed)
                (insert-Untouched (scope.company_id, upload_id) q (record v { uploaded = true }) at
                  theirs)
        ]
  ]

  create-Untouched :
      (q : UploadRequest) (signed : Outcome SignedUploadIntent)
      → lookup (scope.company_id, q.upload_id) intents ≡ none
      → Untouched mine intents (create_intent context scope q signed intents).1
  unfolding create_intent
  create-Untouched q signed new =
      elim (Result-cases (ensure_applicant_scope (some context) scope)) [
        | inr (x, denied) ↦ rw denied (λ k r there own. there)
        | inl (c, checked) ↦
            rw checked
              (insert_new-Untouched (scope.company_id, q.upload_id) (intent_of scope q) new)
      ]

  delete-Untouched :
      (upload_id : OpaqueId) (absent : Outcome Bool)
      → Untouched mine intents (delete_upload context scope upload_id absent intents).1
  unfolding delete_upload
  delete-Untouched upload_id absent = elim (Result-cases (intent context scope upload_id intents)) [
    | inr (x, failed) ↦ rw failed (λ k r there own. there)
    | inl (q, found) ↦
        let (may, at, theirs) = intent-found context scope upload_id intents found in
        rw found (popped absent q at theirs)
  ]
    where
      popped :
          (absent : Outcome Bool) (q : UploadIntentRecord)
          → lookup (scope.company_id, upload_id) intents ≡ some q
          → q.scope ≡ scope
          → Untouched mine intents (pop_if scope upload_id absent intents).1
      popped (err x) q at theirs = λ k r there own. there
      popped (ok false) q at theirs = λ k r there own. there
      popped (ok true) q at theirs = λ k r there own.
          (rw (foreign_key (scope.company_id, upload_id) k q r at theirs there own) at
            (lookup-remove k (scope.company_id, upload_id) intents))
          ∙ there

module _ (sha256 : List ℕ → Text) (mine : ApplicantScope) where
  -- What calls for scopes other than `mine` leave, be it after they raised. A new intent has an
  -- identifier of its own.
  pub data Foreign (intents : SubmissionObjectStorage) : SubmissionObjectStorage → Type 0 where
    here : Foreign intents intents
    creates :
        {now : SubmissionObjectStorage} (context : TenantContext) (scope : ApplicantScope)
        (q : UploadRequest) (signed : Outcome SignedUploadIntent)
        → scope ≢ mine
        → lookup (scope.company_id, q.upload_id) now ≡ none
        → Foreign intents now
        → Foreign intents (create_intent context scope q signed now).1
    accepts :
        {now : SubmissionObjectStorage} (context : TenantContext) (scope : ApplicantScope)
        (upload_id : OpaqueId) (content : List ℕ) (media_type : Text) (at : Instant)
        (put : Outcome (Unit {0}))
        → scope ≢ mine
        → Foreign intents now
        → Foreign intents
            (accept_upload sha256 context scope upload_id content media_type at put now).1
    verifies :
        {now : SubmissionObjectStorage} (context : TenantContext) (scope : ApplicantScope)
        (upload_id : OpaqueId) (at : Instant) (verified : Outcome (Unit {0}))
        → scope ≢ mine
        → Foreign intents now
        → Foreign intents (verify_upload context scope upload_id at verified now).1
    deletes :
        {now : SubmissionObjectStorage} (context : TenantContext) (scope : ApplicantScope)
        (upload_id : OpaqueId) (absent : Outcome Bool)
        → scope ≢ mine
        → Foreign intents now
        → Foreign intents (delete_upload context scope upload_id absent now).1

  after_check :
      {r v : UploadIntentRecord} (a b : Outcome (Unit {0})) → (a >> b >> ok r) ≡ ok v → r ≡ v
  after_check (ok _) (ok _) h = ground arith
  after_check (ok _) (err y) h = absurd (ground arith)
  after_check (err x) b h = absurd (ground arith)

  -- Whatever is created, accepted, verified and deleted for other scopes, by whomever and with
  -- whatever identifiers: the uploads of a scope stay on record as they are.
  pub Foreign-Untouched :
      (intents now : SubmissionObjectStorage) → Foreign intents now → Untouched mine intents now
  unfolding accept_upload verify_upload
  Foreign-Untouched intents _ here k r at own = at
  Foreign-Untouched intents _ (creates {now} context scope q signed other new l) k r at own =
      create-Untouched mine context scope other now q signed new k r
        (Foreign-Untouched intents now l k r at own) own
  Foreign-Untouched intents _ (accepts {now} context scope id content media t put other l) k r at
        own =
      mark-Untouched mine context scope other now id
        (λ q. check_upload sha256 content media t q >> put >> ok q)
        (λ q v. after_check (check_upload sha256 content media t q) put) k r
        (Foreign-Untouched intents now l k r at own) own
  Foreign-Untouched intents _ (verifies {now} context scope id t verified other l) k r at own =
      mark-Untouched mine context scope other now id
        (λ q. raise_if (ltb q.expires_at t) (safe authentication_expired) >> verified >> ok q)
        (λ q v. after_check (raise_if (ltb q.expires_at t) (safe authentication_expired)) verified)
        k r (Foreign-Untouched intents now l k r at own) own
  Foreign-Untouched intents _ (deletes {now} context scope id absent other l) k r at own =
      delete-Untouched mine context scope other now id absent k r
        (Foreign-Untouched intents now l k r at own) own
