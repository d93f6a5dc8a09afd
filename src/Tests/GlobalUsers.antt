-- ===== src/Tests/GlobalUsers.antt =====
-- Runs of the reconciler of global users.
use auth_explore.Base.{
  String, ◌≡◌, refl, ◌↔◌, ◌≢◌, true, none, some, [], ◌∷◌, inl, ◌==◌, if◌then◌else◌,
}
use auth_explore.Base.Exec.{ok, err}
use auth_explore.Kube.{Request, not_found}
use auth_explore.Kube.Server.{Distinct, matches}
use auth_explore.Kube.Memory.{
  Machine, create_role_binding, delete_role_binding, find_namespace, find_binding, put_store,
  or_not_found,
}
use auth_explore.Kube.Memory.Table.{find, listing, erase}
use auth_explore.Kube.Memory.Lawful.Views.{cluster, view}
use auth_explore.Controller.{subject_index, get_subject_user_name}
use auth_explore.Controller.Index.{matches-role_binding}
use auth_explore.Reconcilers.{role_level_label, global_level, other_level, subject_name_index}
use auth_explore.Reconcilers.Bindings.{role_binding, create_binding, create_role_bindings}
use auth_explore.Reconcilers.GlobalUsers.{GlobalUserReconciler, reconcile}
use auth_explore.Reconcilers.GlobalUsers.Revocation.{without, is_global_of, reconcile-revokes}
use auth_explore.Reconcilers.GlobalUsers.Grants.{Served, reconcile-Served}
use auth_explore.Reconcilers.GlobalUsers.Repeat.{reconcile-Taken}
use auth_explore.Reconcilers.GlobalUsers.Asked.{Given}
use auth_explore.Reconcilers.GlobalUsers.Exact.{given_in, reconcile-Given}
use auth_explore.Tests.Sample.{M, M-IsServer, root, start, old_namespace, one_ne_two, empty}

abbrev G : GlobalUserReconciler M
G = record { client = "management"; cluster_clients = ("one", "one") ∷ ("two", "two") ∷ [] }

G-Distinct : Distinct {A = String} (("one", "one") ∷ ("two", "two") ∷ [])
G-Distinct = ((one_ne_two, tt), (tt, tt))

abbrev request : Request
request = record { namespace = "org"; name = "root" }

served_ok :
    ((M.get_global_user "management" request start).0 ≡ ok root)
    × ((reconcile M G request start).0 ≡ ok tt)
unfolding reconcile or_not_found find listing create_role_bindings create_binding
    create_role_binding find_namespace find_binding put_store role_binding erase
served_ok = (refl, refl)

stored : (view start "one").namespaces "old-x" ≡ some old_namespace
unfolding cluster find_namespace find
stored = refl

reconcile-Served_example :
    Served root old_namespace (view start "one") (view (reconcile M G request start).1 "one")
reconcile-Served_example =
    reconcile-Served M subject_name_index subject_index M-IsServer G request root "one" "one"
      old_namespace start G-Distinct (inl refl) stored refl served_ok.0 served_ok.1

reconcile-Given_example :
    Given
      (given_in M subject_name_index subject_index M-IsServer root (view start "one"))
      (view start "one")
      (view (reconcile M G request start).1 "one")
reconcile-Given_example =
    reconcile-Given M subject_name_index subject_index M-IsServer G request root "one" "one" start
      G-Distinct (inl refl) served_ok.0 served_ok.1

-- A cluster with role bindings of two users at both levels, and a request for one who is gone.
abbrev held : Machine
unfolding role_binding
held = record start {
  clusters = λ c.
      if c == "one"
      then record {
        namespaces = old_namespace ∷ [];
        bindings =
            role_binding "eve" "admin" global_level "old-x"
            ∷ role_binding "eve" "viewer" other_level "old-x"
            ∷ role_binding "mallory" "admin" global_level "old-x"
            ∷ [];
      }
      else empty;
}

abbrev eve : Request
eve = record { namespace = "org"; name = "eve" }

revoked_ok :
    ((M.get_global_user "management" eve held).0 ≡ err not_found)
    × ((reconcile M G eve held).0 ≡ ok tt)
unfolding reconcile or_not_found find listing delete_role_binding erase find_namespace find_binding
    put_store role_binding get_subject_user_name
revoked_ok = (refl, refl)

reconcile-revokes_example :
    (view (reconcile M G eve held).1 "one").bindings "old-x" "eve-admin"
    ≡ without (is_global_of subject_index "eve") ((view held "one").bindings "old-x" "eve-admin")
unfolding role_binding
reconcile-revokes_example =
    reconcile-revokes M subject_index M-IsServer G eve "one" "one" held "old-x" "eve-admin"
      G-Distinct (inl refl) revoked_ok.0 revoked_ok.1

-- The deletion takes that one of the three role bindings.
left_bindings :
    ((view (reconcile M G eve held).1 "one").bindings "old-x" "eve-admin" ≡ none)
    × ((view (reconcile M G eve held).1 "one").bindings "old-x" "eve-viewer"
        ≡ some (role_binding "eve" "viewer" other_level "old-x"))
    × ((view (reconcile M G eve held).1 "one").bindings "old-x" "mallory-admin"
        ≡ some (role_binding "mallory" "admin" global_level "old-x"))
unfolding reconcile or_not_found find listing delete_role_binding erase find_namespace find_binding
    put_store role_binding get_subject_user_name cluster
left_bindings = (refl, refl, refl)

matches-role_binding_example :
    (matches subject_index role_level_label global_level "eve"
        (role_binding "eve" "admin" global_level "old-x")
      ≡ true)
    ↔ (◌≡◌ {A = String} "eve" "eve" × (◌≡◌ {A = String} "global" "global"))
matches-role_binding_example = matches-role_binding "eve" "eve" "admin" global_level "old-x"

-- The first cluster after a `Reconcile` of the global user.
abbrev granted : Machine
unfolding role_binding
granted = record start {
  clusters = λ c.
      if c == "one"
      then record {
        namespaces = old_namespace ∷ [];
        bindings = role_binding "root" "admin" global_level "old-x" ∷ [];
      }
      else empty;
}

granted_stored :
    ((view granted "one").namespaces "old-x" ≡ some old_namespace)
    × ((view granted "one").bindings "old-x" "root-admin"
        ≡ some (role_binding "root" "admin" global_level "old-x"))
    × ((M.get_global_user "management" request granted).0 ≡ ok root)
unfolding cluster find_namespace find_binding find role_binding or_not_found
granted_stored = (refl, refl, refl)

reconcile-taken_example : (reconcile M G request granted).0 ≢ ok tt
reconcile-taken_example =
    reconcile-Taken M subject_name_index subject_index M-IsServer G request root "admin" "one" "one"
      old_namespace (role_binding "root" "admin" global_level "old-x") granted G-Distinct (inl refl)
      granted_stored.0 refl (inl refl) granted_stored.1 granted_stored.2
