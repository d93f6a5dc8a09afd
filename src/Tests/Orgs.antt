-- ===== src/Tests/Orgs.antt =====
-- Runs of the reconciler of orgs.
use mathlib.Core.Option.{or_else}
use auth_explore.Base.{String, ◌≡◌, refl, none, some, false, List, [], ◌∷◌, ◌++◌, map}
use auth_explore.Base.Exec.{Result, ok, err}
use auth_explore.Api.{User, Space, Org}
use auth_explore.Kube.{Request}
use auth_explore.Kube.Server.{Distinct}
use auth_explore.Kube.Memory.{
  Machine, create_role_binding, create_namespace as memory_create_namespace, find_namespace,
  find_binding, put_store, or_not_found,
}
use auth_explore.Kube.Memory.Table.{find}
use auth_explore.Kube.Memory.Lawful.Views.{cluster, view}
use auth_explore.Controller.{subject_index}
use auth_explore.Reconcilers.{
  Error, unknown_cluster_context, global_level, other_level, subject_name_index,
}
use auth_explore.Reconcilers.Bindings.{role_binding, create_binding, create_role_bindings}
use auth_explore.Reconcilers.Bindings.Granting.{
  binding_at, Granted, AllFresh, nil, cons, requested, bindings_of,
}
use auth_explore.Reconcilers.Namespaces.{org_namespace, create_namespace}
use auth_explore.Reconcilers.Orgs.{
  OrgReconciler, as_user, reconcile_space, reconcile_spaces, reconcile,
}
use auth_explore.Reconcilers.Orgs.Spaces.{space_bindings, reconcile_space-ready}
use auth_explore.Reconcilers.Orgs.Loop.{reconcile-last, reconcile_spaces-unknown}
use auth_explore.Reconcilers.Orgs.Shared.{reconcile_space-shared}
use auth_explore.Tests.Sample.{
  M, M-IsServer, M-IsHealthy, alice, bob, root, one_ne_two, dev, prod, lost, acme, start,
}

R-Distinct : Distinct {A = String} (("one", "one") ∷ ("two", "two") ∷ [])
R-Distinct = ((one_ne_two, tt), (tt, tt))

abbrev R : OrgReconciler M
R = record { client = "management"; cluster_clients = ("one", "one") ∷ ("two", "two") ∷ [] }

abbrev globals : List User
globals = map as_user (root ∷ [])

-- All that a run computes with.
abbrev run_space : Org → Space → Machine → Result Error Unit × Machine
run_space org space = reconcile_space M "one" org space globals

create_ok : (create_namespace M "one" acme "acme-dev" start).0 ≡ ok tt
unfolding create_namespace memory_create_namespace find_namespace find put_store org_namespace
create_ok = refl

space_ok : (run_space acme dev start).0 ≡ ok tt
unfolding reconcile_space create_namespace memory_create_namespace create_role_bindings
    create_role_binding find_namespace find_binding find put_store org_namespace role_binding
    create_binding
space_ok = refl

reconcile_space-ready_example :
    ((view (run_space acme dev start).1 "one").namespaces "acme-dev"
      ≡ or_else ((view start "one").namespaces "acme-dev") (some (org_namespace "acme" "acme-dev")))
    × Granted globals global_level "acme-dev" (view (run_space acme dev start).1 "one")
    × Granted (alice ∷ bob ∷ []) other_level "acme-dev" (view (run_space acme dev start).1 "one")
    × ((view (run_space acme dev start).1 "one").bindings "acme-dev" "bob-viewer"
        ≡ or_else
            ((view start "one").bindings "acme-dev" "bob-viewer")
            (binding_at "acme-dev" "bob-viewer" (space_bindings acme dev globals)))
reconcile_space-ready_example =
    reconcile_space-ready M subject_name_index subject_index M-IsServer "one" acme dev globals start
      "acme-dev" "acme-dev" "bob-viewer" space_ok

abbrev request : Request
request = record { namespace = "org"; name = "acme" }

reconcile-last_example :
    reconcile M R request start
    ≡ reconcile_space M "two" acme prod globals
        (reconcile_spaces M R acme globals (dev ∷ []) (ok tt) start).1
unfolding or_not_found find
reconcile-last_example =
    reconcile-last M R request acme (root ∷ []) (dev ∷ []) prod "two" start refl refl refl
      (("one", refl), tt) refl

reconcile_spaces-unknown_example :
    reconcile_spaces M R acme globals (dev ∷ lost ∷ prod ∷ []) (ok tt) start ≡ (
      err (unknown_cluster_context "nine"),
      (reconcile_spaces M R acme globals (dev ∷ []) (ok tt) start).1,
    )
reconcile_spaces-unknown_example =
    reconcile_spaces-unknown M R acme globals (dev ∷ []) lost (prod ∷ []) (ok tt) start
      (("one", refl), tt) refl

-- An org whose name and space read like those of `acme-dev`'s neighbour.
abbrev acme_dev : Org
acme_dev = record { name = "acme-dev"; spec = record { users = []; spaces = [] } }

abbrev x : Space
x = record { name = "x"; cluster_name = "one"; users = bob ∷ [] }

abbrev dev_x : Space
dev_x = record { name = "dev-x"; cluster_name = "one"; users = [] }

-- The global user of the first turn is gone in the second.
abbrev run_shared : Machine → Result Error Unit × Machine
run_shared = reconcile_space M "one" acme dev_x globals

abbrev run_other : Machine → Result Error Unit × Machine
run_other = reconcile_space M "one" acme_dev x []

absent : (view start "one").namespaces "acme-dev-x" ≡ none
unfolding cluster find_namespace find
absent = refl

stays : (view start "one").deleting "acme-dev-x" ≡ false
unfolding cluster
stays = refl

both-AllFresh :
    AllFresh (space_bindings acme dev_x globals ++ space_bindings acme_dev x []) (view start "one")
unfolding requested bindings_of role_binding cluster find_binding find
both-AllFresh = cons refl (cons refl (cons refl (cons refl nil)))

reconcile_space-shared_example :
    ((run_shared start).0 ≡ ok tt)
    × ((run_other (run_shared start).1).0 ≡ ok tt)
    × ((view (run_other (run_shared start).1).1 "one").namespaces "acme-dev-x"
        ≡ some (org_namespace "acme" "acme-dev-x"))
    × Granted (alice ∷ []) other_level "acme-dev-x" (view (run_other (run_shared start).1).1 "one")
    × Granted (bob ∷ []) other_level "acme-dev-x" (view (run_other (run_shared start).1).1 "one")
reconcile_space-shared_example =
    reconcile_space-shared M subject_name_index subject_index M-IsServer M-IsHealthy "one" acme
      acme_dev dev_x x globals [] start refl absent stays both-AllFresh

abbrev gone : Request
gone = record { namespace = "org"; name = "old" }
