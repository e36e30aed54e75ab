-- ===== src/Messaging/Registry/Log.antt =====
-- A store with two indexes against a log of its values.
use gbsa_aws_project.Base.{
  ◌≡◌, ◌≢◌, refl, sym, Bool, Option, none, some, List, [], ◌∷◌, ◌++◌, map, find, All, All-append,
  if◌then◌else◌, arith, inl, inr, Bool-cases, Option-cases,
}
use gbsa_aws_project.Base.Equality.{Eq, eq}
use gbsa_aws_project.Base.Dict.{Dict, lookup, insert}
use gbsa_aws_project.Base.Exec.{ok, err}
use gbsa_aws_project.Shared.Errors.{Outcome, safe, idempotency_conflict}
use gbsa_aws_project.Shared.Tenant.{TenantContext}
use gbsa_aws_project.Messaging.Registry.{Registry, or_else, register_checked, register}

-- A dictionary of values under keys of their own.
abbrev pub indexed {ℓ κ} : {K : Type ℓ} {V : Type κ} → (V → K) → List V → Dict K V
indexed key = map (λ v. (key v, v))

module _ {ℓ κ} {K : Type ℓ} {V : Type κ} ⦃e : Eq K⦄ (key : V → K) where
  lookup-indexed : (k : K) (vs : List V) → lookup k (indexed key vs) ≡ find (λ v. eq (key v) k) vs
  unfolding lookup
  lookup-indexed k [] = refl
  lookup-indexed k (v ∷ vs) = ground (arith, lookup-indexed k vs)

  insert-indexed :
      (v : V) (vs : List V)
      → find (λ w. eq (key w) (key v)) vs ≡ none
      → insert (key v) v (indexed key vs) ≡ indexed key (vs ++ v ∷ [])
  unfolding insert
  insert-indexed v [] h = refl
  insert-indexed v (w ∷ vs) h = ground (arith, insert-indexed v vs)

  -- What a search by key did not find has other keys.
  find-none-All :
      (k : K) (vs : List V) → find (λ w. eq (key w) k) vs ≡ none → All (λ w. key w ≢ k) vs
  find-none-All k [] h = tt
  find-none-All k (w ∷ vs) h = elim (Bool-cases (eq (key w) k)) [
    | inl same ↦ absurd (ground arith)
    | inr other ↦ (λ p. ground (arith, e.beq_iff (key w) k), find-none-All k vs (ground arith))
  ]

or_else-none {ℓ} : {A : Type ℓ} (a b : Option A) → or_else a b ≡ none → (a ≡ none) × (b ≡ none)
or_else-none none b h = (refl, h)
or_else-none (some x) b h = absurd (ground arith)

module _ {K L V : Type 0} ⦃e : Eq K⦄ ⦃f : Eq L⦄ (event_key : V → K) (idempotency_key : V → L) where
  -- The store holds the values of the log, in their order, under both indexes.
  abbrev pub Represents : Registry K L V → List V → Type 0
  Represents store log =
      (store.by_event ≡ indexed event_key log)
      × (store.by_idempotency ≡ indexed idempotency_key log)

  -- The value on record that a value clashes with: one of its first key, else one of its second.
  abbrev pub clash : V → List V → Option V
  clash v log =
      or_else (find (λ w. eq (event_key w) (event_key v)) log)
        (find (λ w. eq (idempotency_key w) (idempotency_key v)) log)

  -- No two values of the log agree in a key.
  abbrev pub Distinct : List V → Type 0
  Distinct [] = Unit
  Distinct (v ∷ vs) =
      All (λ w. event_key w ≢ event_key v) vs
      × All (λ w. idempotency_key w ≢ idempotency_key v) vs
      × Distinct vs

  Distinct-append :
      (vs : List V) (w : V)
      → Distinct vs
      → All (λ v. event_key v ≢ event_key w) vs
      → All (λ v. idempotency_key v ≢ idempotency_key w) vs
      → Distinct (vs ++ w ∷ [])
  Distinct-append [] w d h k = (tt, tt, tt)
  Distinct-append (v ∷ vs) w d h k = (
    All-append (λ u. event_key u ≢ event_key v) vs (w ∷ []) d.0 (λ p. h.0 (sym p), tt),
    All-append (λ u. idempotency_key u ≢ idempotency_key v) vs (w ∷ []) d.1 (λ p. k.0 (sym p), tt),
    Distinct-append vs w d.2 h.1 k.1,
  )

  module _ (agrees : V → V → Bool) where
    -- The abstract store: a log that values are only added to.
    unfoldable pub append_value : V → Option V → List V → Outcome V × List V
    append_value v none log = (ok v, log ++ v ∷ [])
    append_value v (some w) log =
        (if agrees w v then ok w else err (safe idempotency_conflict), log)

    unfoldable pub log_value : V → Outcome TenantContext → List V → Outcome V × List V
    unfolding append_value
    log_value v (err x) log = (err x, log)
    log_value v (ok _) log = append_value v (clash v log) log

    module _ (v : V) (store : Registry K L V) (log : List V) (r : Represents store log) where
      found_clash :
          or_else
            (lookup (event_key v) store.by_event)
            (lookup (idempotency_key v) store.by_idempotency)
          ≡ clash v log
      found_clash =
          rw
            (
              r.0,
              r.1,
              lookup-indexed event_key (event_key v) log,
              lookup-indexed idempotency_key (idempotency_key v) log,
            )
            refl

      append-Represents :
          (o : Option V)
          → clash v log ≡ o
          → ((register_checked event_key idempotency_key agrees v o store).0
              ≡ (append_value v o log).0)
            × Represents
                (register_checked event_key idempotency_key agrees v o store).1
                (append_value v o log).1
      unfolding register_checked append_value
      append-Represents (some w) c = (ground arith, r)
      append-Represents none c =
          let (fresh_id, fresh_key) = or_else-none _ _ c in
          (
            refl,
            (
              rw (r.0) (insert-indexed event_key v log fresh_id),
              rw (r.1) (insert-indexed idempotency_key v log fresh_key),
            ),
          )

      pub register-Represents :
          (o : Outcome TenantContext)
          → ((register event_key idempotency_key agrees v o store).0 ≡ (log_value v o log).0)
            × Represents
                (register event_key idempotency_key agrees v o store).1
                (log_value v o log).1
      unfolding register log_value
      register-Represents (err x) = (refl, r)
      register-Represents (ok c) = rw found_clash (append-Represents (clash v log) refl)

    pub log_value-Distinct :
        (v : V) (o : Outcome TenantContext) (log : List V)
        → Distinct log
        → Distinct (log_value v o log).1
    unfolding log_value append_value
    log_value-Distinct v (err x) log d = d
    log_value-Distinct v (ok c) log d = elim (Option-cases (clash v log)) [
      | inr (w, old) ↦ rw old d
      | inl new ↦
          let (fresh_id, fresh_key) = or_else-none _ _ new in
          rw new (
            Distinct-append log v d (find-none-All event_key (event_key v) log fresh_id)
              (find-none-All idempotency_key (idempotency_key v) log fresh_key))
    ]

    -- What registrations by contexts of any kind leave, and the log of what they added.
    pub data Logged : Registry K L V → List V → Type 0 where
      begins : Logged (record { by_event = []; by_idempotency = [] }) []
      registers :
          {store : Registry K L V} {log : List V} (v : V) (o : Outcome TenantContext)
          → Logged store log
          → Logged (register event_key idempotency_key agrees v o store).1 (log_value v o log).1

    pub Logged-Represents :
        (store : Registry K L V) (log : List V) → Logged store log → Represents store log
    Logged-Represents _ _ begins = (refl, refl)
    Logged-Represents _ _ (registers {store} {log} v o l) =
        (register-Represents v store log (Logged-Represents store log l) o).1

    pub Logged-Distinct : (store : Registry K L V) (log : List V) → Logged store log → Distinct log
    Logged-Distinct _ _ begins = tt
    Logged-Distinct _ _ (registers {store} {log} v o l) =
        log_value-Distinct v o log (Logged-Distinct store log l)
