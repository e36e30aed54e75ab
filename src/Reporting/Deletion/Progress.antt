-- ===== src/Reporting/Deletion/Progress.antt =====
-- What the status of a manifest says of its targets.
use gbsa_aws_project.Base.{
  ◌≤◌, ◌≡◌, ◌≢◌, ◌⊎◌, refl, Bool, true, false, Option, List, [], ◌∷◌, ltb, ◌==◌, any, all, length,
  arith, Bool-cases, inl, inr,
}
use gbsa_aws_project.Base.Exec.{ok, err}
use gbsa_aws_project.Shared.Errors.{stop_iteration}
use gbsa_aws_project.Shared.Ids.{OpaqueId, Instant}
use gbsa_aws_project.Interview.Text.{Text}
use gbsa_aws_project.Reporting.Deletion.{
  DeletionStatus, DeletionTarget, DeletionManifest, is_verified, verified_count, refresh, attempted,
  change_first, record_result,
}

verified_count-bound : (ts : List DeletionTarget) → verified_count ts ≤ length ts
unfolding verified_count
verified_count-bound [] = omega arith
verified_count-bound (t ∷ ts) = ground (arith, verified_count-bound ts)

all_verified :
    (ts : List DeletionTarget)
    → (verified_count ts == length ts) ≡ all (λ t. is_verified t.status) ts
unfolding verified_count
all_verified [] = refl
all_verified (t ∷ ts) = ground (arith, all_verified ts, verified_count-bound ts)

some_verified :
    (ts : List DeletionTarget) → ltb 0 (verified_count ts) ≡ any (λ t. is_verified t.status) ts
unfolding verified_count
some_verified [] = refl
some_verified (t ∷ ts) = ground (arith, some_verified ts)

-- The status that a list of targets stands for.
pub data Stands (targets : List DeletionTarget) (before : DeletionStatus)
    : DeletionStatus → Type 0 where
  all_absent :
      all (λ t. is_verified t.status) targets ≡ true
      → Stands targets before DeletionStatus.completed
  some_absent :
      all (λ t. is_verified t.status) targets ≡ false
      → any (λ t. is_verified t.status) targets ≡ true
      → Stands targets before DeletionStatus.partially_completed
  none_absent :
      all (λ t. is_verified t.status) targets ≡ false
      → any (λ t. is_verified t.status) targets ≡ false
      → any (λ t. ltb 0 t.attempts) targets ≡ true
      → Stands targets before DeletionStatus.retrying
  untried :
      all (λ t. is_verified t.status) targets ≡ false
      → any (λ t. is_verified t.status) targets ≡ false
      → any (λ t. ltb 0 t.attempts) targets ≡ false
      → Stands targets before before

refresh-Stands : (m : DeletionManifest) → Stands m.targets m.status (refresh m).status
unfolding refresh
refresh-Stands m =
    rw (all_verified m.targets, some_verified m.targets)
      (elim (Bool-cases (all (λ t. is_verified t.status) m.targets)) [
        | inl every ↦ rw every (Stands.all_absent every)
        | inr not_all ↦ elim (Bool-cases (any (λ t. is_verified t.status) m.targets)) [
          | inl part ↦ rw (not_all, part) (Stands.some_absent not_all part)
          | inr nothing ↦ elim (Bool-cases (any (λ t. ltb 0 t.attempts) m.targets)) [
            | inl tried ↦ rw (not_all, nothing, tried) (Stands.none_absent not_all nothing tried)
            | inr fresh ↦ rw (not_all, nothing, fresh) (Stands.untried not_all nothing fresh)
          ]
        ]
      ])

-- The first target of the identifier changes, and no other.
pub data Replaced (id : OpaqueId) (f : DeletionTarget → DeletionTarget)
    : List DeletionTarget → List DeletionTarget → Type 0 where
  here :
      {t : DeletionTarget} {ts : List DeletionTarget}
      → t.target_id ≡ id
      → Replaced id f (t ∷ ts) (f t ∷ ts)
  there :
      {t : DeletionTarget} {ts us : List DeletionTarget}
      → t.target_id ≢ id
      → Replaced id f ts us
      → Replaced id f (t ∷ ts) (t ∷ us)

abbrev pub has_target : OpaqueId → List DeletionTarget → Bool
has_target id ts = any (λ t. t.target_id == id) ts

change_first_cases :
    (id : OpaqueId) (f : DeletionTarget → DeletionTarget) (ts : List DeletionTarget)
    → ((has_target id ts ≡ false) × (change_first id f ts ≡ err stop_iteration))
      ⊎ ((us : List DeletionTarget) × (change_first id f ts ≡ ok us) × Replaced id f ts us)
unfolding change_first
change_first_cases id f [] = inl (refl, refl)
change_first_cases id f (t ∷ ts) = elim (Bool-cases (t.target_id == id)) [
  | inl found ↦ inr (f t ∷ ts, rw found refl, here (ground arith))
  | inr other ↦ elim (change_first_cases id f ts) [
    | inl (none_there, e) ↦ inl (ground arith, rw (other, e) refl)
    | inr (us, e, r) ↦ inr (t ∷ us, rw (other, e) refl, there (λ p. ground arith) r)
  ]
]

-- A result for an identifier that no target has raises; any other changes the first target of the
-- identifier and no other. The manifest is then completed exactly if every target is verified
-- absent, partially completed if some are, retrying if none is but one was tried, and else as before.
pub record_result_cases :
    (m : DeletionManifest) (id : OpaqueId) (is_absent : Bool) (error_code : Option Text)
    (now : Instant)
    → ((has_target id m.targets ≡ false)
        × (record_result m id is_absent error_code now ≡ err stop_iteration))
      ⊎ ((m' : DeletionManifest) × (record_result m id is_absent error_code now ≡ ok m')
          × (m'.manifest_id ≡ m.manifest_id)
          × Replaced id (attempted is_absent error_code now) m.targets m'.targets
          × Stands m'.targets m.status m'.status)
unfolding record_result refresh
record_result_cases m id is_absent error_code now =
    elim (change_first_cases id (attempted is_absent error_code now) m.targets) [
      | inl (missing, e) ↦ inl (missing, rw e refl)
      | inr (us, e, r) ↦ inr (
        refresh (record m { targets = us }),
        rw e refl,
        refl,
        r,
        refresh-Stands (record m { targets = us }),
      )
    ]
