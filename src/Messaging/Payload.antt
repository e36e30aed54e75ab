-- ===== src/Messaging/Payload.antt =====
-- shared/_validation.py: payloads of identifiers and codes only.
pub mod Frozen
use gbsa_aws_project.Messaging.Shapes.{
  is_safe_key, is_safe_value, safe_code, has_prohibited_part, is_prohibited, has_scheme,
  is_token_shaped,
}
use gbsa_aws_project.Base.{
  ℕ, zero, suc, Bool, true, false, not, ◌&&◌, ◌||◌, List, [], ◌∷◌, ◌++◌, leb, ◌==◌, any, all,
  length, if◌then◌else◌,
}
use gbsa_aws_project.Base.{String}
use gbsa_aws_project.Base.Equality.{eq, nat_eq, list_eq}
use gbsa_aws_project.Base.Exec.{Result, ok, err, raise_if, ◌>>=◌, ◌>>◌}
use gbsa_aws_project.Shared.Errors.{Error, Outcome, value_error}
use gbsa_aws_project.Interview.Text.{Text, codes, contains}
use gbsa_aws_project.Interview.Dialogue.{Double}

-- A Python value. `array` is a tuple and `list` a list; `unsupported` stands for a value of any
-- other type. A mapping is its items, its keys are texts.
mutual
  pub data Value : Type 0 where
    null unsupported : Value
    bool : Bool → Value
    int : (negative : Bool) → ℕ → Value
    float : Double → Value
    text : Text → Value
    mapping : Fields → Value
    array : Items → Value
    list : Items → Value

  pub data Items : Type 0 where
    nil : Items
    cons : Value → Items → Items

  pub data Fields : Type 0 where
    end : Fields
    field : Text → Value → Fields → Fields

abbrev is_finite : Double → Bool
is_finite (Double.units n) = true
is_finite (Double.below_zero n) = true
is_finite _ = false

-- `str.casefold` is a parameter. The text of an error is shortened.
module _ (casefold : Text → Text) where
  -- `_validate_key`
  unfoldable pub validate_key : Text → Outcome Text
  validate_key key = do
    raise_if (not (is_safe_key key)) (value_error "payload contains an invalid key")
    raise_if (is_prohibited (casefold key)) (value_error "payload contains a prohibited field")
    ok key

  -- the branch of `_freeze_value` for a string
  unfoldable pub freeze_text : Text → Outcome Value
  freeze_text value = do
    raise_if (not (is_safe_value value) || has_scheme value)
        (value_error "payload strings must be opaque IDs or sanitized codes")
    raise_if (has_prohibited_part (casefold value))
        (value_error "payload contains a secret-shaped value")
    raise_if (is_token_shaped value (casefold value))
        (value_error "payload contains a token-shaped value")
    ok (text value)

  unfoldable mutual
    unfolding validate_key freeze_text

    -- `_freeze_value`
    pub freeze_value : Value → Outcome Value
    freeze_value null = ok null
    freeze_value unsupported = err (value_error "payload contains an unsupported value")
    freeze_value (bool b) = ok (bool b)
    freeze_value (int s n) = ok (int s n)
    freeze_value (float d) = do
      raise_if (not (is_finite d)) (value_error "payload contains a non-finite number")
      ok (float d)
    freeze_value (text t) = freeze_text t
    freeze_value (mapping fs) = do frozen ← freeze_operational_payload fs; ok (mapping frozen)
    freeze_value (array xs) = do frozen ← freeze_items xs; ok (array frozen)
    freeze_value (list xs) = do frozen ← freeze_items xs; ok (array frozen)

    pub freeze_items : Items → Outcome Items
    freeze_items nil = ok nil
    freeze_items (cons x xs) = do
      first ← freeze_value x
      rest ← freeze_items xs
      ok (cons first rest)

    -- `freeze_operational_payload`
    pub freeze_operational_payload : Fields → Outcome Fields
    freeze_operational_payload end = ok end
    freeze_operational_payload (field key x fs) = do
      checked ← validate_key key
      frozen ← freeze_value x
      rest ← freeze_operational_payload fs
      ok (field checked frozen rest)

-- `plain_operational_value` and `plain_operational_payload`
unfoldable mutual
  pub plain_operational_value : Value → Value
  plain_operational_value (mapping fs) = mapping (plain_operational_payload fs)
  plain_operational_value (array xs) = list (plain_items xs)
  plain_operational_value null = null
  plain_operational_value unsupported = unsupported
  plain_operational_value (bool b) = bool b
  plain_operational_value (int s n) = int s n
  plain_operational_value (float d) = float d
  plain_operational_value (text t) = text t
  plain_operational_value (list xs) = list xs

  pub plain_items : Items → Items
  plain_items nil = nil
  plain_items (cons x xs) = cons (plain_operational_value x) (plain_items xs)

  pub plain_operational_payload : Fields → Fields
  plain_operational_payload end = end
  plain_operational_payload (field key x fs) =
      field key (plain_operational_value x) (plain_operational_payload fs)
