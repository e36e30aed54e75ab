-- ===== src/Interview/Questions.antt =====
-- interview_engine/application/question_policy.py: what a question may be.
pub mod Accepted
use gbsa_aws_project.Base.{
  ℕ, zero, suc, ◌+◌, Bool, true, false, not, ◌&&◌, ◌||◌, Option, none, some, List, [], ◌∷◌, ◌++◌,
  map, keep, ltb, ◌==◌, any, length, if◌then◌else◌,
}
use gbsa_aws_project.Base.Equality.{eq, nat_eq, list_eq}
use gbsa_aws_project.Base.Exec.{ok, err, raise_if, ◌>>=◌, ◌>>◌}
use gbsa_aws_project.Shared.Errors.{Outcome, value_error}
use gbsa_aws_project.Interview.Text.{Text, codes, strip, collapse, contains}

abbrev pub is_empty {ℓ} : {A : Type ℓ} → List A → Bool
is_empty [] = true
is_empty (_ ∷ _) = false

-- `bool(value.strip())`
abbrev pub is_blank : Text → Bool
is_blank value = is_empty (strip value)

-- `_normalize`
unfoldable pub normalize : Text → Text
unfolding strip collapse
normalize value = strip (collapse false value)

-- `_SENTENCE_SPLIT.split(value)[:-1]`: what stands before each question mark, from `clause` on,
-- which is in reverse.
unfoldable pub clauses_before : Text → Text → List Text
clauses_before clause [] = []
clauses_before clause (c ∷ cs) =
    let ends = c == b'?' || c == 65311 in
    let rest = clauses_before (if ends then [] else c ∷ clause) cs in
    if ends then clause ∷ rest else rest

-- `_question_count`
unfoldable pub question_count : Text → ℕ
unfolding clauses_before
question_count value =
    let explicit = length (keep (λ clause. not (is_blank clause)) (clauses_before [] value)) in
    if ltb 0 explicit then explicit else 1

abbrev pub default_prohibited_topics : List Text
default_prohibited_topics =
    codes "가족"
    ∷ codes "결혼"
    ∷ codes "임신"
    ∷ codes "종교"
    ∷ codes "정치 성향"
    ∷ codes "질병"
    ∷ codes "장애 여부"
    ∷ []

-- `dict.fromkeys(items)`: the first of each, in order.
unfoldable pub distinct : List Text → List Text → List Text
distinct seen [] = []
distinct seen (t ∷ ts) =
    let known = any (eq t) seen in
    let rest = distinct (if known then seen else t ∷ seen) ts in if known then rest else t ∷ rest

-- `str.casefold` is a parameter.
module _ (casefold : Text → Text) where
  -- `QuestionPolicy.__init__`: the prohibited topics of a policy.
  unfoldable pub question_policy : List Text → List Text
  unfolding distinct
  question_policy prohibited_topics = distinct [] (
      map (λ topic. casefold (strip topic))
        (keep (λ topic. not (is_blank topic)) (default_prohibited_topics ++ prohibited_topics)))

  abbrev pub fold : Text → Text
  fold value = casefold (normalize value)

  abbrev differs : Text → Option Text → Bool
  differs criterion_id none = false
  differs criterion_id (some expected) = not (eq criterion_id expected)

  -- `QuestionPolicy.validate`
  unfoldable pub validate :
      (prohibited_topics : List Text)
      → (question criterion_id : Text) → (previous_questions : List Text)
      → (expected_criterion_id : Option Text) → Outcome Text
  unfolding question_count contains
  validate prohibited_topics question criterion_id previous_questions expected_criterion_id = do
    raise_if (is_empty (normalize question)) (value_error "question must not be blank")
    raise_if (ltb 500 (length (normalize question)))
        (value_error "question exceeds the allowed length")
    raise_if (differs criterion_id expected_criterion_id)
        (value_error "question criterion does not match the fixed criterion axis")
    raise_if (any (λ topic. contains (fold question) topic) prohibited_topics)
        (value_error "question contains a prohibited topic")
    raise_if (ltb 1 (question_count (normalize question)))
        (value_error "only one question may be asked at a time")
    raise_if (any (λ previous. eq (fold previous) (fold question)) previous_questions)
        (value_error "duplicate question is not allowed")
    raise_if (contains (fold question) (codes "평가 점수") || contains (fold question) (codes "합격 여부"))
        (value_error "question must not disclose or solicit a hiring decision")
    ok (normalize question)
