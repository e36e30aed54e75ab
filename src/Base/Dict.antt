-- ===== src/Base/Dict.antt =====
-- A Python `dict` in insertion order: an assignment to a present key keeps its place.
use mathlib.Core.Path.{◌≡◌, refl}
use mathlib.Core.Option.{Option, none, some}
use mathlib.Core.List.{List, [], ◌∷◌}
use native.Mathlib.Omega.{arith}
use mathlib.Core.Path.{subst, ap}
use mathlib.Core.Logic.{◌≢◌, inl, inr}
use gbsa_aws_project.Base.Tests.{if◌then◌else◌, Bool-cases}
use gbsa_aws_project.Base.Equality.{Eq, eq, eq_refl, eq→≡}

abbrev pub Dict {ℓ κ} : Type ℓ → Type κ → Type (ℓ ⊔ κ)
Dict K V = List (K × V)

module _ {ℓ κ} {K : Type ℓ} {V : Type κ} ⦃e : Eq K⦄ where
  -- `d.get(k)`
  unfoldable pub lookup : K → Dict K V → Option V
  lookup k [] = none
  lookup k (x ∷ d) = if eq x.0 k then some x.1 else lookup k d

  -- `d[k] = v`
  unfoldable pub insert : K → V → Dict K V → Dict K V
  insert k v [] = (k, v) ∷ []
  insert k v (x ∷ d) = if eq x.0 k then (k, v) ∷ d else x ∷ insert k v d

  pub lookup-insert :
      (j k : K) (v : V) (d : Dict K V)
      → lookup j (insert k v d) ≡ (if eq k j then some v else lookup j d)
  unfolding lookup insert
  lookup-insert j k v [] = refl
  lookup-insert j k v (x ∷ d) =
      ground (arith, lookup-insert j k v d, e.beq_iff x.0 k, e.beq_iff x.0 j, e.beq_iff k j)

  pub lookup-insert_self : (k : K) (v : V) (d : Dict K V) → lookup k (insert k v d) ≡ some v
  lookup-insert_self k v d = simp (lookup-insert, eq_refl)

  pub lookup-insert_other :
      (j k : K) (v : V) (d : Dict K V) → k ≢ j → lookup j (insert k v d) ≡ lookup j d
  lookup-insert_other j k v d ne = ground (arith, lookup-insert j k v d, e.beq_iff k j)

  -- Keys of which one has a value and the other has none are not the same.
  pub lookup-distinct :
      (j k : K) (d : Dict K V) {v : V} → lookup j d ≡ none → lookup k d ≡ some v → j ≢ k
  lookup-distinct j k d {v} new old p =
      let new' : lookup k d ≡ none = subst (λ i. lookup i d ≡ none) p new in absurd (ground arith)

  -- To assign the value that is there changes nothing.
  pub insert-lookup : (k : K) (v : V) (d : Dict K V) → lookup k d ≡ some v → insert k v d ≡ d
  unfolding lookup insert
  insert-lookup k v [] h = cc
  insert-lookup k v (x ∷ d) h = ground (arith, insert-lookup k v d, e.beq_iff x.0 k)

  -- `P` holds of every entry.
  abbrev pub Holds {ι} : (K → V → Type ι) → Dict K V → Type (ℓ ⊔ κ ⊔ ι)
  Holds P d = (k : K) (v : V) → lookup k d ≡ some v → P k v

  pub insert-Holds {ι} :
      (P : K → V → Type ι) (k : K) (v : V) (d : Dict K V)
      → P k v
      → Holds P d
      → Holds P (insert k v d)
  insert-Holds P k v d p all j w at = elim (Bool-cases (eq k j)) [
    | inl same ↦
        let j_is : k ≡ j = eq→≡ k j same in
        let found : some v ≡ some w = ground (arith, lookup-insert j k v d) in
        let w_is : v ≡ w = ground arith in
        subst (λ u. P u w) {x = k} j_is (subst (P k) {x = v} w_is p)
    | inr other ↦ all j w (ground (arith, lookup-insert j k v d))
  ]

  pub insert-insert : (k : K) (v w : V) (d : Dict K V) → insert k w (insert k v d) ≡ insert k w d
  unfolding insert
  insert-insert k v w [] = rw (eq_refl k) refl
  insert-insert k v w (x ∷ d) = elim (Bool-cases (eq x.0 k)) [
    | inl same ↦ rw same (rw (eq_refl k) refl)
    | inr other ↦ rw other (rw other (ap (λ t. x ∷ t) (insert-insert k v w d)))
  ]

module _ {ℓ κ} {K : Type ℓ} {V : Type κ} ⦃e : Eq K⦄ where
  -- `d.pop(k, None)`
  unfoldable pub remove : K → Dict K V → Dict K V
  remove k [] = []
  remove k (x ∷ d) = let rest = remove k d in if eq x.0 k then rest else x ∷ rest

  pub lookup-remove :
      (j k : K) (d : Dict K V) → lookup j (remove k d) ≡ (if eq k j then none else lookup j d)
  unfolding lookup remove
  lookup-remove j k [] = ground arith
  lookup-remove j k (x ∷ d) =
      ground (arith, lookup-remove j k d, e.beq_iff x.0 k, e.beq_iff x.0 j, e.beq_iff k j)
