-- ===== src/Shared/Ids.antt =====
-- backend/src/interview_evidence/shared/ids.py: opaque identifiers and their generator.
-- An identifier is the 128-bit number of its UUID. An instant is a count of milliseconds.
pub mod Monotone
use gbsa_aws_project.Base.{
  ℕ, ◌+◌, ◌-◌, ◌*◌, ◌/◌, ◌%◌, ◌^◌, Bool, not, ◌&&◌, Option, none, some, List, [], ◌∷◌, ltb, leb,
  ◌==◌, if◌then◌else◌, length,
}
use gbsa_aws_project.Base.Exec.{ok, err, raise_if, ◌>>=◌, ◌>>◌}
use gbsa_aws_project.Shared.Errors.{Outcome, value_error, overflow_error}

abbrev pub OpaqueId : Type 0
OpaqueId = ℕ

abbrev pub Instant : Type 0
Instant = ℕ

-- `uuid.UUID.version` is 7: the variant bits are those of RFC 4122 and the version field is 7.
abbrev pub is_version7 : ℕ → Bool
is_version7 value = value / 2 ^ 62 % 4 == 2 && value / 2 ^ 76 % 16 == 7

-- `OpaqueId.__new__`
unfoldable pub opaque_id : ℕ → Outcome OpaqueId
opaque_id value =
    if not (is_version7 value)
    then err (value_error "opaque identifiers must use UUID version 7")
    else ok value

abbrev uuid7_random_bits : ℕ
uuid7_random_bits = 74

abbrev uuid7_random_mask : ℕ
uuid7_random_mask = 2 ^ uuid7_random_bits - 1

abbrev max_uuid7_timestamp_ms : ℕ
max_uuid7_timestamp_ms = 2 ^ 48 - 1

-- The state of a `Uuid7Generator`: the timestamp and the random part of the last identifier,
-- which both are -1 before the first.
pub record Uuid7Generator : Type 0 where
  pub last : Option (ℕ × ℕ)

abbrev pub fresh_generator : Uuid7Generator
fresh_generator = record { last = none }

-- `int.from_bytes(random_bytes, "big")`
pub from_bytes : ℕ → List ℕ → ℕ
from_bytes acc [] = acc
from_bytes acc (b ∷ bs) = from_bytes (acc * 256 + b) bs

-- The fields do not overlap, so `|` is a sum.
pub uuid_int : ℕ → ℕ → ℕ
uuid_int timestamp_ms random_value =
    timestamp_ms * 2 ^ 80
    + 7 * 2 ^ 76
    + random_value / 2 ^ 62 * 2 ^ 64
    + 2 * 2 ^ 62
    + random_value % 2 ^ 62

-- A draw of fresh entropy, in a millisecond that is later than the last one.
draw : ℕ → List ℕ → Outcome (ℕ × ℕ)
unfolding from_bytes
draw timestamp_ms random_bytes = do
  raise_if (not (length random_bytes == 10))
      (value_error "UUIDv7 entropy provider must return exactly 10 bytes")
  ok (timestamp_ms, from_bytes 0 random_bytes % (uuid7_random_mask + 1))

-- In the same millisecond, or when the clock went back, the last identifier is counted up.
count_up : ℕ × ℕ → Outcome (ℕ × ℕ)
count_up (last_timestamp_ms, last_random) = do
  raise_if (ltb uuid7_random_mask (last_random + 1))
      (overflow_error "UUIDv7 monotonic entropy exhausted for one millisecond")
  ok (last_timestamp_ms, last_random + 1)

next_parts : Uuid7Generator → ℕ → List ℕ → Outcome (ℕ × ℕ)
unfolding draw count_up
next_parts g timestamp_ms random_bytes = elim g.last [
  | none ↦ draw timestamp_ms random_bytes
  | some last ↦ if ltb last.0 timestamp_ms then draw timestamp_ms random_bytes else count_up last
]

-- `Uuid7Generator.new`, for a clock that reads `timestamp_ms` and the bytes that the entropy
-- provider returns. It gives the identifier and the generator's next state.
unfoldable pub new : Uuid7Generator → ℕ → List ℕ → Outcome (OpaqueId × Uuid7Generator)
unfolding next_parts uuid_int opaque_id
new g timestamp_ms random_bytes = do
  raise_if (ltb max_uuid7_timestamp_ms timestamp_ms)
      (value_error "clock instant is outside the UUIDv7 timestamp range")
  parts ← next_parts g timestamp_ms random_bytes
  checked ← opaque_id (uuid_int parts.0 parts.1)
  ok (checked, record { last = some parts })
