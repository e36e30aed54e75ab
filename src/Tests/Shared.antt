-- ===== src/Tests/Shared.antt =====
-- The generator and the scope checks.
use gbsa_aws_project.Base.{ℕ, ◌^◌, ◌<◌, ◌≡◌, ◌↔◌, refl, true, some, List, [], ◌∷◌}
use gbsa_aws_project.Base.Exec.{ok, err}
use gbsa_aws_project.Shared.Errors.{safe, tenant_scope_denied}
use gbsa_aws_project.Shared.Ids.{OpaqueId, Uuid7Generator, fresh_generator, is_version7, new}
use gbsa_aws_project.Shared.Ids.Monotone.{IsBounded, new_increasing}
use gbsa_aws_project.Shared.Tenant.{ensure_applicant_scope}
use gbsa_aws_project.Shared.Tenant.Isolation.{MayAct, ensure_applicant_scope_iff}
use gbsa_aws_project.Tests.Samples.{scope, applicant, stranger}

abbrev bytes : List ℕ
bytes = 0 ∷ 0 ∷ 0 ∷ 0 ∷ 0 ∷ 0 ∷ 0 ∷ 0 ∷ 1 ∷ 2 ∷ []

abbrev first : Uuid7Generator
first = record { last = some (1000, 258) }

abbrev second : Uuid7Generator
second = record { last = some (1000, 259) }

abbrev id : OpaqueId
id = 0x000000003e870008000000000000102

fresh-IsBounded : IsBounded fresh_generator
fresh-IsBounded p e = cc

-- The clock goes back between the two calls.
new_on_start : new fresh_generator 1000 bytes ≡ ok (0x0000000003e870008000000000000102, first)
unfolding new
new_on_start = refl

new_on_earlier_clock : new first 999 bytes ≡ ok (0x0000000003e870008000000000000103, second)
unfolding new
new_on_earlier_clock = refl

new_increasing_example :
    (◌<◌ 0x0000000003e870008000000000000102 0x0000000003e870008000000000000103)
    × (◌<◌ 0x0000000003e870008000000000000103 (2 ^ 128))
    × (is_version7 0x0000000003e870008000000000000102 ≡ true)
    × (is_version7 0x0000000003e870008000000000000103 ≡ true)
    × IsBounded second
new_increasing_example =
    new_increasing fresh_generator first second 1000 999 bytes bytes
      0x0000000003e870008000000000000102 0x0000000003e870008000000000000103 fresh-IsBounded
      new_on_start new_on_earlier_clock

ensure_applicant_scope_iff_example :
    (ensure_applicant_scope (some applicant) scope ≡ ok scope) ↔ MayAct applicant scope
ensure_applicant_scope_iff_example = ensure_applicant_scope_iff applicant scope

stranger_denied : ensure_applicant_scope (some stranger) scope ≡ err (safe tenant_scope_denied)
unfolding ensure_applicant_scope
stranger_denied = refl
