-- ===== src/Interview/Text.antt =====
-- Text as its code points, with the tests of Python's `str` that the validators use.
pub mod Spaces
use Prim.Native.Char.{code}
use Prim.Native.String.{String}
use gbsa_aws_project.Base.{◌++◌, ◌∷◌, [], true, false}
use gbsa_aws_project.Base.{zero, suc, ◌+◌, ◌-◌, ◌/◌, ◌%◌, ◌^◌, ltb, if◌then◌else◌}
use gbsa_aws_project.Base.{ℕ, Bool, not, ◌&&◌, ◌||◌, List, leb, ◌==◌, length, any}

abbrev pub Text : Type 0
Text = List ℕ

-- `str.isspace` of one character.
unfoldable pub is_space : ℕ → Bool
is_space c =
    leb 9 c && leb c 13
    || leb 28 c && leb c 32
    || c == 133
    || c == 160
    || c == 5760
    || leb 8192 c && leb c 8202
    || c == 8232
    || c == 8233
    || c == 8239
    || c == 8287
    || c == 12288

-- `any(character.isspace() for character in value)`
unfoldable pub has_space : Text → Bool
unfolding is_space
has_space = any is_space

-- Whether `_validate_idempotency_key` lets a key pass: 16 to 128 characters, and no white space.
unfoldable pub is_idempotency_key : Text → Bool
unfolding has_space
is_idempotency_key value = leb 16 (length value) && leb (length value) 128 && not (has_space value)

-- The code points of a literal.
abbrev pub codes : String → Text
codes String.[] = []
codes (String.◌∷◌ c s) = code c ∷ codes s

abbrev hex_digit : ℕ → ℕ
hex_digit d = if ltb d 10 then b'0' + d else b'a' + (d - 10)

-- The lowest `n` hexadecimal digits of a number, in front of `rest`.
unfoldable pub hex_digits : ℕ → ℕ → Text → Text
hex_digits zero value rest = rest
hex_digits (suc n) value rest = hex_digits n (value / 16) (hex_digit (value % 16) ∷ rest)

-- `str(id)`: the digits of a UUID in groups of 8, 4, 4, 4 and 12.
unfoldable pub uuid_text : ℕ → Text
unfolding hex_digits
uuid_text value = hex_digits 8 (value / 2 ^ 96) (
    b'-'
    ∷ hex_digits 4 (value / 2 ^ 80) (
        b'-'
        ∷ hex_digits 4 (value / 2 ^ 64)
            (b'-' ∷ hex_digits 4 (value / 2 ^ 48) (b'-' ∷ hex_digits 12 value []))))

-- `value.lstrip()`
unfoldable pub strip_left : Text → Text
strip_left [] = []
strip_left (c ∷ cs) = let rest = strip_left cs in if is_space c then rest else c ∷ cs

-- A character in front of the rest that `rstrip` leaves.
abbrev pub prepend : ℕ → Text → Text
prepend c [] = if is_space c then [] else c ∷ []
prepend c (d ∷ ds) = c ∷ d ∷ ds

-- `value.rstrip()`
unfoldable pub strip_right : Text → Text
strip_right [] = []
strip_right (c ∷ cs) = prepend c (strip_right cs)

-- `value.strip()`
unfoldable pub strip : Text → Text
unfolding strip_left strip_right
strip value = strip_right (strip_left value)

-- `"\n".join(lines)`
unfoldable pub join_lines : List Text → Text
join_lines [] = []
join_lines (line ∷ []) = line
join_lines (line ∷ next ∷ lines) = line ++ (10 ∷ join_lines (next ∷ lines))

-- `re.compile(r"\s+").sub(" ", value)`, after a white space if `spaced`.
unfoldable pub collapse : (spaced : Bool) → Text → Text
collapse spaced [] = []
collapse spaced (c ∷ cs) =
    let rest = collapse (is_space c) cs in
    if is_space c then (if spaced then rest else 32 ∷ rest) else c ∷ rest

-- `value.startswith(prefix)`
unfoldable pub starts_with : Text → Text → Bool
starts_with value [] = true
starts_with [] (p ∷ ps) = false
starts_with (c ∷ cs) (p ∷ ps) = c == p && starts_with cs ps

-- `part in value`
unfoldable pub contains : Text → Text → Bool
unfolding starts_with
contains [] part = starts_with [] part
contains (c ∷ cs) part = starts_with (c ∷ cs) part || contains cs part
