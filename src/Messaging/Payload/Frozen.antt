-- ===== src/Messaging/Payload/Frozen.antt =====
-- Freezing a payload and writing it out again.
use gbsa_aws_project.Base.{◌≡◌, sym, ap, ◌∙◌, subst, arith, inl, inr}
use gbsa_aws_project.Base.Exec.{ok, Result-cases}
use gbsa_aws_project.Interview.Text.{Text}
use gbsa_aws_project.Messaging.Payload.{
  Value, Items, Fields, null, unsupported, bool, int, float, text, mapping, array, list, nil, cons,
  end, field, validate_key, freeze_text, freeze_value, freeze_items, freeze_operational_payload,
  plain_operational_value, plain_items, plain_operational_payload,
}

module _ (casefold : Text → Text) where
  validate_key-same : (key : Text) {k : Text} → validate_key casefold key ≡ ok k → key ≡ k
  unfolding validate_key
  validate_key-same key h = ground arith

  freeze_text-same : (t : Text) {v : Value} → freeze_text casefold t ≡ ok v → text t ≡ v
  unfolding freeze_text
  freeze_text-same t h = ground arith

  mutual
    unfolding freeze_value plain_operational_value

    refreeze_value :
        (x : Value) {y : Value}
        → freeze_value casefold x ≡ ok y
        → freeze_value casefold (plain_operational_value y) ≡ ok y
    refreeze_value null h = ground arith
    refreeze_value unsupported h = ground arith
    refreeze_value (bool b) h = ground arith
    refreeze_value (int s n) h = ground arith
    refreeze_value (float d) h = ground arith
    refreeze_value (text t) h =
        let p = freeze_text-same t h in
        subst (λ v. freeze_value casefold (plain_operational_value v) ≡ ok v) p (h ∙ ap ok (sym p))
    refreeze_value (mapping fs) h = elim (Result-cases (freeze_operational_payload casefold fs)) [
      | inl (gs, passed) ↦ ground (arith, refreeze_payload fs passed)
      | inr (x, failed) ↦ ground arith
    ]
    refreeze_value (array xs) h = elim (Result-cases (freeze_items casefold xs)) [
      | inl (ys, passed) ↦ ground (arith, refreeze_items xs passed)
      | inr (x, failed) ↦ ground arith
    ]
    refreeze_value (list xs) h = elim (Result-cases (freeze_items casefold xs)) [
      | inl (ys, passed) ↦ ground (arith, refreeze_items xs passed)
      | inr (x, failed) ↦ ground arith
    ]

    refreeze_items :
        (xs : Items) {ys : Items}
        → freeze_items casefold xs ≡ ok ys
        → freeze_items casefold (plain_items ys) ≡ ok ys
    refreeze_items nil h = ground arith
    refreeze_items (cons x xs) h = elim (Result-cases (freeze_value casefold x)) [
      | inr (e, failed) ↦ ground arith
      | inl (y, first) ↦ elim (Result-cases (freeze_items casefold xs)) [
        | inr (e, failed) ↦ ground arith
        | inl (ys, rest) ↦ ground (arith, refreeze_value x first, refreeze_items xs rest)
      ]
    ]

    refreeze_payload :
        (fs : Fields) {gs : Fields}
        → freeze_operational_payload casefold fs ≡ ok gs
        → freeze_operational_payload casefold (plain_operational_payload gs) ≡ ok gs
    refreeze_payload end h = ground arith
    refreeze_payload (field k x fs) h = elim (Result-cases (validate_key casefold k)) [
      | inr (e, failed) ↦ ground arith
      | inl (k', valid) ↦ elim (Result-cases (freeze_value casefold x)) [
        | inr (e, failed) ↦ ground arith
        | inl (y, first) ↦ elim (Result-cases (freeze_operational_payload casefold fs)) [
          | inr (e, failed) ↦ ground arith
          | inl (gs, rest) ↦
              ground
                (arith, refreeze_value x first, refreeze_payload fs rest, validate_key-same k valid)
        ]
      ]
    ]

  -- A payload that was frozen and is written out again can be frozen again, at any depth, and is the
  -- same frozen payload.
  pub freeze-plain-freeze :
      (payload : Fields) {frozen : Fields}
      → freeze_operational_payload casefold payload ≡ ok frozen
      → freeze_operational_payload casefold (plain_operational_payload frozen) ≡ ok frozen
  freeze-plain-freeze payload h = refreeze_payload payload h
