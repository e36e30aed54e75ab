-- ===== src/Company/Criteria/Frozen.antt =====
-- What stays of a version once it is published.
use gbsa_aws_project.Base.{
  ◌+◌, ◌≤◌, ◌≡◌, ◌≢◌, refl, sym, ◌∙◌, subst, true, false, not, ◌||◌, some, List, [], ◌∷◌, any, All,
  map, arith, inl, inr, Bool-cases,
}
use gbsa_aws_project.Base.Equality.{eq, nat_eq, list_eq, eq_refl}
use gbsa_aws_project.Base.Exec.{ok}
use gbsa_aws_project.Shared.Ids.{OpaqueId, Instant}
use gbsa_aws_project.Interview.Text.{Text}
use gbsa_aws_project.Interview.Questions.{is_empty}
use gbsa_aws_project.Interview.Dialogue.{Double}
use gbsa_aws_project.Company.Criteria.{
  is_close_to_one, CompetencyModelStatus, EvaluationCriterion, CompetencyModelVersion, stripped,
  validate_criteria, version_post_init, is_draft, is_published, replace_criteria, publish_version,
}

-- Criteria of one company and version, with codes of their own.
abbrev pub AreOwn : OpaqueId → OpaqueId → List EvaluationCriterion → Type 0
AreOwn company_id version_id [] = Unit
AreOwn company_id version_id (c ∷ cs) =
    (c.company_id ≡ company_id)
    × (c.competency_model_version_id ≡ version_id)
    × All (λ d. d.code ≢ c.code) cs
    × AreOwn company_id version_id cs

module _ (company_id version_id : OpaqueId) where
  -- What the first criterion passed, and that the others follow.
  validated :
      (seen : List Text) (c : EvaluationCriterion) (cs : List EvaluationCriterion)
      → validate_criteria company_id version_id seen (c ∷ cs) ≡ ok tt
      → (c.company_id ≡ company_id)
        × (c.competency_model_version_id ≡ version_id)
        × (any (eq c.code) seen ≡ false)
        × (validate_criteria company_id version_id (c.code ∷ seen) cs ≡ ok tt)
  unfolding validate_criteria
  validated seen c cs h = (ground arith, ground arith, ground arith, ground arith)

  validate_criteria-fresh :
      (seen : List Text) (cs : List EvaluationCriterion) (t : Text)
      → any (eq t) seen ≡ true
      → validate_criteria company_id version_id seen cs ≡ ok tt
      → All (λ d. d.code ≢ t) cs
  validate_criteria-fresh seen [] t m h = tt
  validate_criteria-fresh seen (c ∷ cs) t m h =
      let (own, version, new, rest) = validated seen c cs h in
      (
        λ p. let m' = subst (λ u. any (eq u) seen ≡ true) (sym p) m in absurd (ground arith),
        validate_criteria-fresh (c.code ∷ seen) cs t (ground arith) rest,
      )

  validate_criteria-AreOwn :
      (seen : List Text) (cs : List EvaluationCriterion)
      → validate_criteria company_id version_id seen cs ≡ ok tt
      → AreOwn company_id version_id cs
  validate_criteria-AreOwn seen [] h = tt
  validate_criteria-AreOwn seen (c ∷ cs) h =
      let (own, version, new, rest) = validated seen c cs h in
      (
        own,
        version,
        validate_criteria-fresh (c.code ∷ seen) cs c.code (rw (eq_refl c.code) refl) rest,
        validate_criteria-AreOwn (c.code ∷ seen) cs rest,
      )

abbrev pub weights : CompetencyModelVersion → List Double
weights v = map (λ c. c.weight) v.criteria

module _ (sum : List Double → Double) where
  -- A version with criteria of its own, which has some that weigh one in all where it is published.
  pub record IsProper (v : CompetencyModelVersion) : Type 0 where
    pub own : AreOwn v.company_id v.competency_model_version_id v.criteria
    pub weighed :
        v.status ≡ CompetencyModelStatus.published
        → (is_empty v.criteria ≡ false) × (is_close_to_one (sum (weights v)) ≡ true)

  -- What operations keep of a version.
  pub record Keeps (v v' : CompetencyModelVersion) : Type 0 where
    pub ident : v'.competency_model_version_id ≡ v.competency_model_version_id
    pub position : v'.position_id ≡ v.position_id
    pub number : v'.version_number ≡ v.version_number
    pub counted : v.row_version ≤ v'.row_version
    pub frozen : v.status ≡ CompetencyModelStatus.published → v' ≡ v

  Keeps-refl : (v : CompetencyModelVersion) → Keeps v v
  Keeps-refl v = record {
    ident = refl;
    position = refl;
    number = refl;
    counted = omega arith;
    frozen = λ s. refl;
  }

  Keeps-trans : (a b c : CompetencyModelVersion) → Keeps a b → Keeps b c → Keeps a c
  Keeps-trans a b c p q = record {
    ident = q.ident ∙ p.ident;
    position = q.position ∙ p.position;
    number = q.number ∙ p.number;
    counted = omega (arith, p.counted, q.counted);
    frozen = λ s.
        let e = p.frozen s in
        q.frozen (subst (λ r. r.status ≡ CompetencyModelStatus.published) (sym e) s) ∙ e;
  }

  version_post_init-AreOwn :
      (v : CompetencyModelVersion) {v' : CompetencyModelVersion}
      → version_post_init v ≡ ok v'
      → AreOwn v.company_id v.competency_model_version_id v.criteria
        × (v' ≡ record v { prohibited_topics = stripped v.prohibited_topics })
  unfolding version_post_init
  version_post_init-AreOwn v {v'} h = (
    validate_criteria-AreOwn v.company_id v.competency_model_version_id [] v.criteria
        (ground arith),
    ground arith,
  )

  pub new_version-IsProper :
      (v : CompetencyModelVersion) {v' : CompetencyModelVersion}
      → v.status ≡ CompetencyModelStatus.draft
      → version_post_init v ≡ ok v'
      → IsProper v'
  new_version-IsProper v {v'} draft h =
      let (own, made) = version_post_init-AreOwn v h in
      subst IsProper (sym made) (record { own = own; weighed = λ s. absurd (ground arith) })

  replace_criteria-Keeps :
      (criteria : List EvaluationCriterion) (v : CompetencyModelVersion)
      {v' : CompetencyModelVersion}
      → replace_criteria criteria v ≡ ok v'
      → IsProper v' × Keeps v v'
  unfolding replace_criteria
  replace_criteria-Keeps criteria v {v'} h = elim (Bool-cases (is_draft v.status)) [
    | inr other ↦ let h' = rw other at h in absurd (ground arith)
    | inl draft ↦
        let w = record v { criteria = criteria; row_version = v.row_version + 1 } in
        let (own, made) = version_post_init-AreOwn w (rw draft at h) in
        (
          subst IsProper (sym made) (record { own = own; weighed = λ s. absurd (ground arith) }),
          subst (Keeps v) (sym made) (record {
            ident = refl;
            position = refl;
            number = refl;
            counted = omega arith;
            frozen = λ s. absurd (ground arith);
          }),
        )
  ]

  publish_version-Keeps :
      (at : Instant) (v : CompetencyModelVersion) {v' : CompetencyModelVersion}
      → IsProper v
      → publish_version sum at v ≡ ok v'
      → IsProper v' × Keeps v v'
  unfolding publish_version
  publish_version-Keeps at v {v'} proper h = elim (Bool-cases (is_published v.status)) [
    | inl before ↦
        let h' = rw before at h in
        let p : v ≡ v' = ground arith in (subst IsProper p proper, subst (Keeps v) p (Keeps-refl v))
    | inr unpublished ↦
        let h' = rw unpublished at h in
        elim (Bool-cases (not (is_draft v.status) || is_empty v.criteria)) [
          | inl unready ↦ let h'' = rw unready at h' in absurd (ground arith)
          | inr ready ↦ elim (Bool-cases (is_close_to_one (sum (weights v)))) [
            | inr unweighed ↦ let h'' = rw (ready, unweighed) at h' in absurd (ground arith)
            | inl weighed ↦
                let w = record v {
                  status = CompetencyModelStatus.published;
                  published_at = some at;
                  row_version = v.row_version + 1;
                } in
                let (own, made) = version_post_init-AreOwn w (rw (ready, weighed) at h') in
                (
                  subst IsProper (sym made)
                      (record { own = own; weighed = λ s. (ground arith, weighed) }),
                  subst (Keeps v) (sym made) (record {
                    ident = refl;
                    position = refl;
                    number = refl;
                    counted = omega arith;
                    frozen = λ s. absurd (ground arith);
                  }),
                )
          ]
        ]
  ]

  -- What successful operations make of a version.
  pub data Reaches (v : CompetencyModelVersion) : CompetencyModelVersion → Type 0 where
    here : Reaches v v
    replaces :
        {u u' : CompetencyModelVersion} (criteria : List EvaluationCriterion)
        → replace_criteria criteria u ≡ ok u'
        → Reaches v u
        → Reaches v u'
    publishes :
        {u u' : CompetencyModelVersion} (at : Instant)
        → publish_version sum at u ≡ ok u'
        → Reaches v u
        → Reaches v u'

  -- Along any successful operations from a proper version: its criteria are of its company and
  -- version with codes of their own, it keeps its identifier, position and number, its row version
  -- does not fall, it has criteria whose sum of weights is one within a millionth once it is
  -- published, and then stays as it is.
  pub Reaches-Frozen :
      (v v' : CompetencyModelVersion) → IsProper v → Reaches v v' → IsProper v' × Keeps v v'
  Reaches-Frozen v _ proper here = (proper, Keeps-refl v)
  Reaches-Frozen v v' proper (replaces {u} criteria done r) =
      let before = Reaches-Frozen v u proper r in
      let step = replace_criteria-Keeps criteria u done in
      (step.0, Keeps-trans v u v' before.1 step.1)
  Reaches-Frozen v v' proper (publishes {u} at done r) =
      let before = Reaches-Frozen v u proper r in
      let step = publish_version-Keeps at u before.0 done in
      (step.0, Keeps-trans v u v' before.1 step.1)
