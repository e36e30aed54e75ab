-- ===== src/Interview/Questions/Accepted.antt =====
-- Which questions the policy accepts.
use gbsa_aws_project.Base.{◌≡◌, ◌↔◌, ◌≤◌, sym, subst, false, ◌||◌, some, List, any, length, arith}
use gbsa_aws_project.Base.Equality.{eq, eq_refl, nat_eq, list_eq}
use gbsa_aws_project.Base.Exec.{ok}
use gbsa_aws_project.Interview.Text.{Text, codes, contains}
use gbsa_aws_project.Interview.Text.Spaces.{strip-collapse-strip}
use gbsa_aws_project.Interview.Questions.{is_empty, normalize, question_count, fold, validate}

pub normalize-normalize : (t : Text) → normalize (normalize t) ≡ normalize t
unfolding normalize
normalize-normalize t = strip-collapse-strip t

module _ (casefold : Text → Text) where
  -- `q` may be asked after `previous`.
  pub record IsAskable (topics previous : List Text) (q : Text) : Type 0 where
    pub normal : normalize q ≡ q
    pub nonempty : is_empty q ≡ false
    pub short : length q ≤ 500
    pub single : question_count q ≤ 1
    pub inoffensive : any (λ topic. contains (casefold q) topic) topics ≡ false
    pub new : any (λ p. eq (fold casefold p) (casefold q)) previous ≡ false
    pub undecided :
        (contains (casefold q) (codes "평가 점수") || contains (casefold q) (codes "합격 여부")) ≡ false

  accepted_IsAskable :
      (topics previous : List Text) (question criterion_id q : Text)
      → validate casefold topics question criterion_id previous (some criterion_id) ≡ ok q
      → (normalize question ≡ q) × IsAskable topics previous (normalize question)
  unfolding validate
  accepted_IsAskable topics previous question criterion_id q e = (
    ground arith,
    record {
      normal = normalize-normalize question;
      nonempty = ground arith;
      short = ground arith;
      single = ground arith;
      inoffensive = ground arith;
      new = ground arith;
      undecided = ground arith;
    },
  )

  IsAskable-accepted :
      (topics previous : List Text) (question criterion_id : Text)
      → IsAskable topics previous (normalize question)
      → validate casefold topics question criterion_id previous (some criterion_id)
        ≡ ok (normalize question)
  unfolding validate
  IsAskable-accepted topics previous question criterion_id h = ground (
    arith,
    eq_refl criterion_id,
    h.nonempty,
    h.short,
    h.single,
    h.inoffensive,
    h.new,
    h.undecided,
  )

  -- The policy answers with the normalized question, on the expected criterion, exactly if that may
  -- be asked.
  pub validate_iff :
      (topics previous : List Text) (question criterion_id q : Text)
      → (validate casefold topics question criterion_id previous (some criterion_id) ≡ ok q)
        ↔ ((q ≡ normalize question) × IsAskable topics previous q)
  validate_iff topics previous question criterion_id q = (
    λ e.
        let (p, h) = accepted_IsAskable topics previous question criterion_id q e in
        (sym p, subst (IsAskable topics previous) p h),
    λ (p, h). rw p (
        IsAskable-accepted topics previous question criterion_id
          (subst (IsAskable topics previous) p h)),
  )
