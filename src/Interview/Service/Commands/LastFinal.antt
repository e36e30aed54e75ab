-- ===== src/Interview/Service/Commands/LastFinal.antt =====
-- interview_engine/application/interview_service.py: the last final answer among the turns of a session.
use gbsa_aws_project.Base.{
  ◌≡◌, ◌⊎◌, refl, ap, true, false, Option, none, some, List, [], ◌∷◌, ◌++◌, All, last?, keep, arith,
  inl, inr, Bool-cases,
}
use gbsa_aws_project.Shared.Ids.{OpaqueId}
use gbsa_aws_project.Interview.Turn.{Turn, TurnSpeaker, TurnStatus, evidence_eligible}
use gbsa_aws_project.Interview.Service.Commands.{last_final_turn_id}

-- What an applicant said, in its final form.
abbrev pub IsFinalAnswer : Turn → Type 0
IsFinalAnswer t = (t.speaker ≡ TurnSpeaker.applicant) × (t.status ≡ TurnStatus.final)

-- `o` is the identifier of the last final answer, after which there is none; or there is none at all.
abbrev pub IsLastFinal : List Turn → Option OpaqueId → Type 0
IsLastFinal ts o =
    ((o ≡ none) × All (λ t. ¬ IsFinalAnswer t) ts)
    ⊎ ((before : List Turn) × (t : Turn) × (after : List Turn) × (ts ≡ before ++ t ∷ after)
        × IsFinalAnswer t
        × All (λ u. ¬ IsFinalAnswer u) after
        × (o ≡ some t.turn_id))

eligible-IsFinalAnswer : (t : Turn) → evidence_eligible t ≡ true → IsFinalAnswer t
eligible-IsFinalAnswer t h = ground arith

ineligible : (t : Turn) → evidence_eligible t ≡ false → ¬ IsFinalAnswer t
ineligible t h f = ground arith

last_eligible :
    (ts : List Turn)
    → ((last? (keep evidence_eligible ts) ≡ none) × All (λ t. ¬ IsFinalAnswer t) ts)
      ⊎ ((before : List Turn) × (t : Turn) × (after : List Turn) × (ts ≡ before ++ t ∷ after)
          × IsFinalAnswer t
          × All (λ u. ¬ IsFinalAnswer u) after
          × (last? (keep evidence_eligible ts) ≡ some t))
last_eligible [] = inl (refl, tt)
last_eligible (t ∷ ts) = elim (last_eligible ts) [
  | inr (before, u, after, p, f, rest, e) ↦
      inr (t ∷ before, u, after, ap (λ us. t ∷ us) p, f, rest, ground arith)
  | inl (e, rest) ↦ elim (Bool-cases (evidence_eligible t)) [
    | inl final ↦ inr ([], t, ts, refl, eligible-IsFinalAnswer t final, rest, rw (final, e) refl)
    | inr other ↦ inl (rw (other, e) refl, (ineligible t other, rest))
  ]
]

pub last_final_turn_id-IsLastFinal : (ts : List Turn) → IsLastFinal ts (last_final_turn_id ts)
unfolding last_final_turn_id
last_final_turn_id-IsLastFinal ts = elim (last_eligible ts) [
  | inl (e, rest) ↦ inl (rw e refl, rest)
  | inr (before, t, after, p, f, rest, e) ↦ inr (before, t, after, p, f, rest, rw e refl)
]
