-- ===== src/Reporting/Report/Anchored.antt =====
-- Which items a report can have.
use gbsa_aws_project.Base.{
  ℕ, suc, ◌≡◌, ◌↔◌, refl, sym, ap, ◌∙◌, subst, map, true, false, not, ◌&&◌, List, [], ◌∷◌, ◌++◌,
  any, any-append, All, arith, inl, inr,
}
use gbsa_aws_project.Base.Equality.{eq→≡, eq_refl, nat_eq, list_eq}
use gbsa_aws_project.Base.Dict.{Dict, lookup}
use gbsa_aws_project.Base.Exec.{ok, Result-cases}
use gbsa_aws_project.Shared.Errors.{Outcome}
use gbsa_aws_project.Shared.Ids.{OpaqueId, Instant}
use gbsa_aws_project.Interview.Text.{Text, codes}
use gbsa_aws_project.Interview.Questions.{is_empty}
use gbsa_aws_project.Reporting.Report.{
  Evidence, ReportItem, is_confirmed, is_off_axis, item_post_init, Anchor, validate_anchor, attach,
  Report, or_no_evidence, item_of, items_of, generate_report, report_post_init,
}

-- A confirmed item has evidence, and all evidence is of the item, its criterion and its model version.
pub record IsAnchored (i : ReportItem) : Type 0 where
  pub evidenced : (is_confirmed i.assessment_state && is_empty i.evidence) ≡ false
  pub on_axis : any (is_off_axis i) i.evidence ≡ false

-- What an anchor needs.
pub record IsSound (a : Anchor) : Type 0 where
  pub final : a.answer_turn_final ≡ true
  pub speaker : a.answer_speaker ≡ codes "applicant"
  pub within : a.transcript_within_turn ≡ true
  pub available : a.media_available ≡ true
  pub intact : a.technical_failure ≡ false

IsSound-validate_anchor : (a : Anchor) → (validate_anchor a ≡ ok tt) ↔ IsSound a
unfolding validate_anchor
IsSound-validate_anchor a = (
  λ e. record {
    final = ground arith;
    speaker = eq→≡ a.answer_speaker (codes "applicant") (ground arith);
    within = ground arith;
    available = ground arith;
    intact = ground arith;
  },
  λ s.
      ground
        (arith, s.final, s.within, s.available, s.intact, s.speaker, eq_refl (codes "applicant")),
)

only : (u : Unit {0}) → u ≡ tt
only u = refl

item_post_init-IsAnchored : (i j : ReportItem) → item_post_init i ≡ ok j → (i ≡ j) × IsAnchored i
unfolding item_post_init
item_post_init-IsAnchored i j e =
    (ground arith, record { evidenced = ground arith; on_axis = ground arith })

IsAnchored-item_post_init : (i : ReportItem) → IsAnchored i → item_post_init i ≡ ok i
unfolding item_post_init
IsAnchored-item_post_init i h = ground (arith, h.evidenced, h.on_axis)

-- Evidence is attached to an item exactly if its anchor is a final turn of the applicant with
-- transcript and media in range and no technical failure, and it is on the axis of the item; the
-- item is then the same with the evidence at the end, and still anchored.
pub attach_iff :
    (i i' : ReportItem) (e : Evidence) (a : Anchor)
    → IsAnchored i
    → (attach i e a ≡ ok i') ↔ (
        IsSound a
        × (is_off_axis i e ≡ false)
        × (i' ≡ record i { evidence = i.evidence ++ e ∷ [] })
        × IsAnchored i')
unfolding attach
attach_iff i i' e a h =
    let made : ReportItem = record i { evidence = i.evidence ++ e ∷ [] } in
    (
      λ p. elim (Result-cases (validate_anchor a)) [
        | inr (x, failed) ↦ absurd (ground arith)
        | inl (u, passed) ↦
            let (same, anchored) = item_post_init-IsAnchored made i' (rw passed at p) in
            (
              (IsSound-validate_anchor a).0 (passed ∙ ap ok (only u)),
              ground (arith, anchored.on_axis, any-append (is_off_axis i) i.evidence (e ∷ [])),
              sym same,
              subst IsAnchored same anchored,
            )
      ],
      λ (sound, on_axis, same, anchored).
          rw ((IsSound-validate_anchor a).1 sound, same)
            (IsAnchored-item_post_init made (subst IsAnchored same anchored)),
    )

-- An item that is anchored, and confirmed exactly if it has evidence.
abbrev pub IsFair : ReportItem → Type 0
IsFair i = IsAnchored i × (is_confirmed i.assessment_state ≡ not (is_empty i.evidence))

item_of-confirmed :
    (report_id model_id item_id : OpaqueId) (criterion : OpaqueId × Text) (evidence : List Evidence)
    → is_confirmed (item_of report_id model_id item_id criterion evidence).assessment_state
      ≡ not (is_empty evidence)
item_of-confirmed report_id model_id item_id criterion [] = refl
item_of-confirmed report_id model_id item_id criterion (e ∷ es) = refl

items_of-IsFair :
    (report_id model_id : OpaqueId) (ids : ℕ → OpaqueId) (drawn : ℕ)
    (criteria : List (OpaqueId × Text)) (evidence_by_criterion : Dict OpaqueId (List Evidence))
    {items : List ReportItem}
    → items_of report_id model_id ids drawn criteria evidence_by_criterion ≡ ok items
    → All IsFair items × (map (λ i. i.criterion_id) items ≡ map (λ c. c.0) criteria)
unfolding items_of
items_of-IsFair report_id model_id ids drawn [] evidence_by_criterion {items} e =
    let p : [] ≡ items = ground arith in
    subst (λ is. All IsFair is × (map (λ i. i.criterion_id) is ≡ [])) {x = []} p (tt, refl)
items_of-IsFair report_id model_id ids drawn (c ∷ criteria) evidence_by_criterion {items} e =
    let evidence = or_no_evidence (lookup c.0 evidence_by_criterion) in
    let item = item_of report_id model_id (ids drawn) c evidence in
    elim (Result-cases (item_post_init item)) [
      | inr (x, failed) ↦ absurd (ground arith)
      | inl (i, made) ↦
          elim (Result-cases
            (items_of report_id model_id ids (suc drawn) criteria evidence_by_criterion)) [
              | inr (x, failed) ↦ let e' = rw (made, failed) at e in absurd (ground arith)
              | inl (rest, found) ↦
                  let (all_fair, axes) =
                    items_of-IsFair report_id model_id ids (suc drawn) criteria
                      evidence_by_criterion found in
                  let (same, anchored) = item_post_init-IsAnchored item i made in
                  let axis : i.criterion_id ≡ c.0 = ap (λ j. j.criterion_id) (sym same) in
                  let got : Outcome (List ReportItem) = ok (i ∷ rest) in
                  let e' : got ≡ ok items = rw (made, found) at e in
                  let p : i ∷ rest ≡ items = ground arith in
                  subst
                    (λ is.
                      All IsFair is
                      × (map (λ j. j.criterion_id) is ≡ c.0 ∷ map (λ d. d.0) criteria))
                    p
                    (
                      (
                        subst IsFair same
                            (anchored, item_of-confirmed report_id model_id (ids drawn) c evidence),
                        all_fair,
                      ),
                      rw (axis, axes) refl,
                    )
            ]
    ]

-- A report that is generated has one item per criterion, in the order of the criteria, each confirmed
-- exactly if it has evidence, and all evidence is on the axis of its item.
pub generate_report-IsFair :
    (company_id session_id model_id : OpaqueId) (criteria : List (OpaqueId × Text))
    (evidence_by_criterion : Dict OpaqueId (List Evidence)) (report_id : OpaqueId)
    (ids : ℕ → OpaqueId) (now : Instant) {r : Report}
    → generate_report company_id session_id model_id criteria evidence_by_criterion report_id ids
        now
      ≡ ok r
    → All IsFair r.items × (map (λ i. i.criterion_id) r.items ≡ map (λ c. c.0) criteria)
unfolding generate_report report_post_init
generate_report-IsFair company_id session_id model_id criteria evidence_by_criterion report_id ids
      now {r} e =
    elim (Result-cases (items_of report_id model_id ids 0 criteria evidence_by_criterion)) [
      | inr (x, failed) ↦ absurd (ground arith)
      | inl (items, found) ↦
          let p : items ≡ r.items = ground arith in
          subst (λ is. All IsFair is × (map (λ i. i.criterion_id) is ≡ map (λ c. c.0) criteria)) p
            (items_of-IsFair report_id model_id ids 0 criteria evidence_by_criterion found)
    ]
