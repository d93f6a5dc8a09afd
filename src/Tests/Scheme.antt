-- ===== src/Tests/Scheme.antt =====
-- Runs of the registration in a scheme.
use auth_explore.Base.{String, ◌≡◌, refl, ◌≢◌, ◌⊎◌, false, none, some, [], contains}
use auth_explore.Base.Exec.{ok, err}
use auth_explore.Scheme.{
  add_known_types, fake_init, GroupVersion, GoType, panicked, scheme_group_version, add_to_scheme,
  init,
}
use auth_explore.Scheme.Registry.{api_types, api_version, Named}
use auth_explore.Scheme.Registered.{Registered, Done, init-Registered}
use auth_explore.Scheme.Memory.{Store, put, memory}
use auth_explore.Scheme.Memory.Lawful.{memory-IsRegistry}

abbrev new_store : Store
new_store = record { known = λ v n. none; kinds = λ t. [] }

init-Registered_example :
    ((init memory memory.new_scheme).0 ≡ ok tt)
    × Registered memory memory-IsRegistry (init memory memory.new_scheme).1
    × ((v : GroupVersion) (n : String)
        → contains memory-IsRegistry.meta_kinds n ≡ false
        → (v ≢ api_version) ⊎ Named api_types n
        → memory-IsRegistry.known (init memory memory.new_scheme).1 v n ≡ none)
    × Done memory memory-IsRegistry
        (init memory memory.new_scheme).1
        (add_to_scheme memory (init memory memory.new_scheme).1)
    × (fake_init memory memory.new_scheme ≡ init memory memory.new_scheme)
init-Registered_example = init-Registered memory memory-IsRegistry

-- A type of that name from another package.
abbrev other_org : GoType
other_org = record { pkg_path = "example.com/v1"; name = "Org" }

second_type_panics :
    (add_to_scheme memory (put scheme_group_version other_org new_store)).0
    ≡ err (panicked "double registration")
unfolding add_known_types
second_type_panics = refl

org_resolved :
    (init memory new_store).1.known scheme_group_version "Org"
    ≡ some
        (record { pkg_path = "code.cloudfoundry.org/org-controller/pkg/apis/org/v1"; name = "Org" })
unfolding init add_known_types
org_resolved = refl
