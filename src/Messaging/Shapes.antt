-- ===== src/Messaging/Shapes.antt =====
-- shared/_validation.py: the shapes of keys, codes and secrets.
use gbsa_aws_project.Base.{
  ℕ, zero, suc, Bool, true, false, not, ◌&&◌, ◌||◌, List, [], ◌∷◌, ◌++◌, leb, ◌==◌, any, all,
  length,
}
use gbsa_aws_project.Base.{String}
use gbsa_aws_project.Base.Equality.{eq, nat_eq, list_eq}
use gbsa_aws_project.Base.Exec.{ok, raise_if, ◌>>◌}
use gbsa_aws_project.Shared.Errors.{Outcome, value_error}
use gbsa_aws_project.Interview.Text.{Text, codes, contains}

abbrev pub is_digit : ℕ → Bool
is_digit c = leb b'0' c && leb c b'9'

abbrev pub is_lower : ℕ → Bool
is_lower c = leb b'a' c && leb c b'z'

abbrev pub is_letter : ℕ → Bool
is_letter c = leb b'A' c && leb c b'Z' || is_lower c

abbrev pub is_hex_digit : ℕ → Bool
is_hex_digit c = is_digit c || leb b'a' c && leb c b'f'

-- `[A-Za-z0-9_.-]`
abbrev is_key_char : ℕ → Bool
is_key_char c = is_letter c || is_digit c || c == b'_' || c == b'.' || c == b'-'

-- `[A-Za-z0-9_.:@+-]`
abbrev is_value_char : ℕ → Bool
is_value_char c = is_key_char c || c == b':' || c == b'@' || c == b'+'

-- `_SAFE_KEY.fullmatch(value)`
unfoldable pub is_safe_key : Text → Bool
is_safe_key [] = false
is_safe_key (c ∷ cs) = is_letter c && leb (length cs) 127 && all is_key_char cs

-- `_SAFE_VALUE.fullmatch(value)`
unfoldable pub is_safe_value : Text → Bool
is_safe_value value = leb 1 (length value) && leb (length value) 256 && all is_value_char value

-- `safe_code`
unfoldable pub safe_code : (value : Text) → (field_name : String) → Outcome Text
unfolding is_safe_value
safe_code value field_name = do
  raise_if (not (leb 1 (length value)) || not (leb (length value) 128) || not (is_safe_value value))
      (value_error field_name)
  ok value

-- `value.endswith(suffix)`
pub ends_with : Text → Text → Bool
ends_with [] suffix = eq [] suffix
ends_with (c ∷ cs) suffix = eq (c ∷ cs) suffix || ends_with cs suffix

-- A regular expression of one character class after the other.
abbrev matches : List (ℕ → Bool) → Text → Bool
matches [] [] = true
matches (p ∷ ps) (c ∷ cs) = p c && matches ps cs
matches _ _ = false

abbrev times : ℕ → (ℕ → Bool) → List (ℕ → Bool)
times zero p = []
times (suc n) p = p ∷ times n p

abbrev is_char : ℕ → ℕ → Bool
is_char d c = c == d

-- `_OPAQUE_UUID.fullmatch(value)`
unfoldable pub is_opaque_uuid : Text → Bool
is_opaque_uuid = matches (
    times 8 is_hex_digit
    ++ (is_char b'-'
        ∷ (times 4 is_hex_digit
            ++ (is_char b'-'
                ∷ is_char b'7'
                ∷ (times 3 is_hex_digit
                    ++ (is_char b'-'
                        ∷ (λ c. c == b'8' || c == b'9' || c == b'a' || c == b'b')
                        ∷ (times 3 is_hex_digit ++ (is_char b'-' ∷ times 12 is_hex_digit))))))))

-- `_TRACE_HEX.fullmatch(value)`
unfoldable pub is_trace_hex : Text → Bool
is_trace_hex value = (length value == 16 || length value == 32) && all is_hex_digit value

-- `_COMPACT_TOKEN.fullmatch(value)`
unfoldable pub is_compact_token : Text → Bool
is_compact_token value =
    any is_letter value
    && any is_digit value
    && leb 20 (length value)
    && all (λ c. is_letter c || is_digit c) value

abbrev prohibited_exact : List Text
prohibited_exact =
    codes "answer"
    ∷ codes "answer_text"
    ∷ codes "applicant_email"
    ∷ codes "applicant_name"
    ∷ codes "audio"
    ∷ codes "audio_url"
    ∷ codes "body"
    ∷ codes "credential"
    ∷ codes "credentials"
    ∷ codes "document"
    ∷ codes "document_text"
    ∷ codes "email"
    ∷ codes "invitation_token"
    ∷ codes "password"
    ∷ codes "prompt"
    ∷ codes "raw_content"
    ∷ codes "raw_text"
    ∷ codes "secret"
    ∷ codes "signed_url"
    ∷ codes "source_text"
    ∷ codes "text"
    ∷ codes "token"
    ∷ codes "transcript"
    ∷ codes "transcript_text"
    ∷ codes "url"
    ∷ codes "video_url"
    ∷ []

abbrev prohibited_parts : List Text
prohibited_parts =
    codes "credential" ∷ codes "password" ∷ codes "signed_url" ∷ codes "secret" ∷ codes "token" ∷ []

-- `any(part in normalized for part in _PROHIBITED_PARTS)`
unfoldable pub has_prohibited_part : Text → Bool
unfolding contains
has_prohibited_part normalized = any (contains normalized) prohibited_parts

-- the test of a field's name
unfoldable pub is_prohibited : Text → Bool
unfolding ends_with has_prohibited_part
is_prohibited normalized =
    any (eq normalized) prohibited_exact
    || ends_with normalized (codes "_text")
    || has_prohibited_part normalized

unfoldable pub has_scheme : Text → Bool
unfolding contains
has_scheme value = contains value (codes "://")

-- A compact token that is neither an identifier nor a trace identifier.
unfoldable pub is_token_shaped : (value normalized : Text) → Bool
unfolding is_compact_token is_opaque_uuid is_trace_hex
is_token_shaped value normalized =
    is_compact_token value && not (is_opaque_uuid normalized) && not (is_trace_hex normalized)
