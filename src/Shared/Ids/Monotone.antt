-- ===== src/Shared/Ids/Monotone.antt =====
-- The identifiers of one generator are valid and strictly increasing.
use gbsa_aws_project.Base.{
  ℕ, ◌+◌, ◌%◌, ◌^◌, ◌<◌, ◌≡◌, ◌⊎◌, inl, inr, some, List, true, arith, ltb, length, Bool-cases,
  Option-cases,
}
use gbsa_aws_project.Base.Exec.{ok, Result-cases}
use gbsa_aws_project.Shared.Ids.{
  OpaqueId, Uuid7Generator, is_version7, uuid_int, next_parts, draw, count_up, from_bytes,
  opaque_id, new,
}

-- The parts of the last identifier fit their fields.
abbrev pub IsBounded : Uuid7Generator → Type 0
IsBounded g = (p : ℕ × ℕ) → g.last ≡ some p → (p.0 < 2 ^ 48) × (p.1 < 2 ^ 74)

pub uuid_int_mono :
    (t r t' r' : ℕ)
    → r < 2 ^ 74
    → r' < 2 ^ 74
    → (t < t') ⊎ ((t ≡ t') × (r < r'))
    → uuid_int t r < uuid_int t' r'
unfolding uuid_int
uuid_int_mono t r t' r' h k order = omega arith

uuid_int-is_version7 : (t r : ℕ) → r < 2 ^ 74 → is_version7 (uuid_int t r) ≡ true
unfolding uuid_int
uuid_int-is_version7 t r h = ground arith

uuid_int_bound : (t r : ℕ) → t < 2 ^ 48 → r < 2 ^ 74 → uuid_int t r < 2 ^ 128
unfolding uuid_int
uuid_int_bound t r h k = omega arith

-- What one call of `new` does to the parts.
record Advances (g : Uuid7Generator) (p : ℕ × ℕ) : Type 0 where
  pub fits : (p.0 < 2 ^ 48) × (p.1 < 2 ^ 74)
  pub later : (q : ℕ × ℕ) → g.last ≡ some q → (q.0 < p.0) ⊎ ((q.0 ≡ p.0) × (q.1 < p.1))

next_parts-Advances :
    (g : Uuid7Generator) (now : ℕ) (bytes : List ℕ) (p : ℕ × ℕ)
    → IsBounded g
    → now < 2 ^ 48
    → next_parts g now bytes ≡ ok p
    → Advances g p
unfolding next_parts draw count_up
next_parts-Advances g now bytes p bounded early h = elim (Option-cases g.last) [
  | inl first ↦ record { fits = ground arith; later = λ q e. ground arith }
  | inr (last, e) ↦ record {
    fits = ground (arith, bounded last e);
    later = λ q e'. ground (arith, bounded last e);
  }
]

new-Advances :
    (g g' : Uuid7Generator) (now : ℕ) (bytes : List ℕ) (id : OpaqueId)
    → IsBounded g
    → new g now bytes ≡ ok (id, g')
    → (p : ℕ × ℕ) × Advances g p × (g'.last ≡ some p) × (id ≡ uuid_int p.0 p.1)
unfolding new opaque_id
new-Advances g g' now bytes id bounded h = elim (Result-cases (next_parts g now bytes)) [
  | inl (p, e) ↦
      (p, next_parts-Advances g now bytes p bounded (ground arith) e, ground arith, ground arith)
  | inr (x, e) ↦ absurd (ground arith)
]

-- Successive identifiers of one generator strictly increase as 128-bit numbers, whatever the clock
-- reads, and each has version 7. The generator's last parts fit their fields before and after.
pub new_increasing :
    (g g' g'' : Uuid7Generator) (now now' : ℕ) (bytes bytes' : List ℕ) (id id' : OpaqueId)
    → IsBounded g
    → new g now bytes ≡ ok (id, g')
    → new g' now' bytes' ≡ ok (id', g'')
    → (id < id')
      × (id' < 2 ^ 128)
      × (is_version7 id ≡ true)
      × (is_version7 id' ≡ true)
      × IsBounded g''
new_increasing g g' g'' now now' bytes bytes' id id' bounded h h' =
    let (p, first, at, e) = new-Advances g g' now bytes id bounded h in
    let bounded' : IsBounded g' = λ q eq. ground (arith, first.fits) in
    let (p', second, at', e') = new-Advances g' g'' now' bytes' id' bounded' h' in
    (
      rw (e, e') (uuid_int_mono p.0 p.1 p'.0 p'.1 first.fits.1 second.fits.1 (second.later p at)),
      rw e' (uuid_int_bound p'.0 p'.1 second.fits.0 second.fits.1),
      rw e (uuid_int-is_version7 p.0 p.1 first.fits.1),
      rw e' (uuid_int-is_version7 p'.0 p'.1 second.fits.1),
      λ q eq. ground (arith, second.fits),
    )

next_parts_total :
    (g : Uuid7Generator) (now : ℕ) (bytes : List ℕ)
    → length bytes ≡ 10
    → ((p : ℕ × ℕ) → g.last ≡ some p → p.1 + 1 < 2 ^ 74)
    → (p : ℕ × ℕ) × (next_parts g now bytes ≡ ok p)
unfolding next_parts draw count_up
next_parts_total g now bytes ten room = elim (Option-cases g.last) [
  | inl first ↦ ((now, from_bytes 0 bytes % 2 ^ 74), ground arith)
  | inr (last, e) ↦ elim (Bool-cases (ltb last.0 now)) [
    | inl later ↦ ((now, from_bytes 0 bytes % 2 ^ 74), ground arith)
    | inr same ↦ ((last.0, last.1 + 1), ground (arith, room last e))
  ]
]

-- `new` returns an identifier when the clock is in range, the entropy provider returns ten bytes
-- and the millisecond's counter is not exhausted.
pub new_total :
    (g : Uuid7Generator) (now : ℕ) (bytes : List ℕ)
    → IsBounded g
    → now < 2 ^ 48
    → length bytes ≡ 10
    → ((p : ℕ × ℕ) → g.last ≡ some p → p.1 + 1 < 2 ^ 74)
    → (id : OpaqueId) × (g' : Uuid7Generator) × (new g now bytes ≡ ok (id, g'))
unfolding new opaque_id
new_total g now bytes bounded early ten room =
    let (p, e) = next_parts_total g now bytes ten room in
    let fits = (next_parts-Advances g now bytes p bounded early e).fits in
    (
      uuid_int p.0 p.1,
      record { last = some p },
      ground (arith, uuid_int-is_version7 p.0 p.1 fits.1),
    )
