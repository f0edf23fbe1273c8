-- ===== src/KnativeServer/Tenancy/Tests.antt =====
-- Names in upper case, none of them a service link.
use serverless_harness.Base.{
  ◌≡◌, refl, ◌↔◌, Bool, true, false, some, [], ◌∷◌, Text, text_beq, codes, good, bad,
}
use serverless_harness.ControlPlane.Errors.{unrecognised}
use serverless_harness.KnativeServer.Tenancy.{
  walk, edit_distance_at_most_one, core_loop, core, tenancy_like, near_miss_from, split_words,
  is_tenancy_near_miss, read_tenancy, multi,
}
use serverless_harness.KnativeServer.Tenancy.Edits.{IsEdit, edit_distance_at_most_one_iff}
use serverless_harness.KnativeServer.Tenancy.Core.{IsCore, core-IsCore}

run_tenancy : Unit {0}
unfolding walk edit_distance_at_most_one core_loop core tenancy_like near_miss_from split_words
    is_tenancy_near_miss read_tenancy text_beq
run_tenancy = tt

abbrev upper : Text → Text
upper name = name

abbrev service_link : Text → Bool
service_link name = false

name_tests :
    (is_tenancy_near_miss upper service_link (codes "MOCA_TENANCY") ≡ false)
    × (is_tenancy_near_miss upper service_link (codes "MOCATENANCY") ≡ true)
    × (is_tenancy_near_miss upper service_link (codes "MOCA__TENENCY") ≡ true)
    × (is_tenancy_near_miss upper service_link (codes "SH_MULTI_TENANT") ≡ true)
    × (is_tenancy_near_miss upper service_link (codes "TENANT") ≡ false)
    × (is_tenancy_near_miss upper service_link (codes "OCI_CLI_TENANCY") ≡ false)
    × (is_tenancy_near_miss upper service_link (codes "MAINTENANCE_MODE") ≡ false)
unfolding run_tenancy
name_tests = (refl, refl, refl, refl, refl, refl, refl)

read_tests :
    (read_tenancy upper service_link (codes "PATH" ∷ []) (some "multi") ≡ good multi)
    × (read_tenancy upper service_link (codes "SH_TENANCY" ∷ []) (some "multi") ≡ bad unrecognised)
unfolding run_tenancy
read_tests = (refl, refl)

edit_distance_at_most_one_iff_example :
    (edit_distance_at_most_one (codes "TENENCY") (codes "TENANCY") ≡ true)
    ↔ IsEdit (codes "TENENCY") (codes "TENANCY")
edit_distance_at_most_one_iff_example =
    edit_distance_at_most_one_iff (codes "TENENCY") (codes "TENANCY")

core-IsCore_example : IsCore (codes "MOCAMULTITENANCY") (core (codes "MOCAMULTITENANCY"))
core-IsCore_example = core-IsCore (codes "MOCAMULTITENANCY")
