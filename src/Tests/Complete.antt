-- ===== src/Tests/Complete.antt =====
-- A whole run of the reconciler of orgs over two clusters.
use auth_explore.Base.{
  String, ◌≡◌, refl, sym, ap, inl, inr, ◌≢◌, none, some, false, List, [], ◌∷◌, In, lookup, map,
  arith, eq_iff,
}
use auth_explore.Base.Exec.{ok, err}
use auth_explore.Api.{User, Space}
use auth_explore.Kube.{Request}
use auth_explore.Kube.Server.{Distinct}
use auth_explore.Kube.Memory.{
  Machine, or_not_found, find_binding, find_namespace, put_store, create_role_binding,
  create_namespace as memory_create_namespace,
}
use auth_explore.Kube.Memory.Table.{find}
use auth_explore.Kube.Memory.Lawful.Views.{cluster, view}
use auth_explore.Controller.{subject_index}
use auth_explore.Reconcilers.{subject_name_index}
use auth_explore.Reconcilers.Bindings.{role_binding, create_binding, create_role_bindings}
use auth_explore.Reconcilers.Namespaces.{org_namespace, create_namespace}
use auth_explore.Reconcilers.Bindings.Granting.{AllFresh, nil, cons, requested, bindings_of}
use auth_explore.Reconcilers.Orgs.{
  OrgReconciler, as_user, namespace_name, reconcile_space, reconcile_spaces, reconcile,
}
use auth_explore.Reconcilers.Orgs.Spaces.{space_bindings}
use auth_explore.Reconcilers.Orgs.Complete.{Separate, Waiting, reconcile_complete}
use auth_explore.Reconcilers.Orgs.Placing.{Placed}
use auth_explore.Reconcilers.Orgs.Exact.{Filled, reconcile-Filled}
use auth_explore.Reconcilers.Orgs.Again.{reconcile-again}
use auth_explore.Reconcilers.Orgs.Made.{exists_already}
use auth_explore.Reconcilers.System.Clash.{reconcile-clash}
use auth_explore.Reconcilers.GlobalUsers
use auth_explore.Reconcilers.GlobalUsers.{GlobalUserReconciler}
use auth_explore.Tests.Sample.{M, M-IsServer, M-IsHealthy, root, one_ne_two, dev, prod, acme, start}
use mathlib.Core.Path.{subst}

abbrev R : OrgReconciler M
R = record { client = "management"; cluster_clients = ("one", "one") ∷ ("two", "two") ∷ [] }

clients-Distinct : Distinct {A = String} (("one", "one") ∷ ("two", "two") ∷ [])
clients-Distinct = ((one_ne_two, tt), (tt, tt))

abbrev globals : List User
globals = map as_user (root ∷ [])

abbrev root_request : Request
root_request = record { namespace = "org"; name = "root" }

abbrev request : Request
request = record { namespace = "org"; name = "acme" }

spaces-Separate : Separate acme (dev ∷ prod ∷ [])
spaces-Separate = (
  λ t m. elim m [
    | inl e ↦ λ p.
        ground (arith, eq_iff "acme-prod" "acme-dev", sym (ap (λ s. namespace_name acme s) e), p)
    | inr n ↦ absurd n
  ],
  ((λ t m. absurd m), tt),
)

dev-AllFresh : AllFresh (space_bindings acme dev globals) (view start "one")
unfolding requested bindings_of role_binding cluster find_binding find
dev-AllFresh = cons refl (cons refl (cons refl (cons refl nil)))

prod-AllFresh : AllFresh (space_bindings acme prod globals) (view start "two")
unfolding requested bindings_of role_binding cluster find_binding find
prod-AllFresh = cons refl (cons refl (cons refl nil))

stays : (view start "one").deleting "acme-dev" ≡ false
unfolding cluster
stays = refl

stays_too : (view start "two").deleting "acme-prod" ≡ false
unfolding cluster
stays_too = refl

abbrev Waits : Space → Type 0
Waits space = Waiting M subject_name_index subject_index M-IsServer R acme globals space start

spaces-Waiting : (space : Space) → In space (dev ∷ prod ∷ []) → Waits space
spaces-Waiting space (inl e) =
    subst Waits (sym e)
      (record { cl = "one"; its_cluster = refl; stays = stays; fresh = dev-AllFresh })
spaces-Waiting space (inr (inl e)) =
    subst Waits (sym e)
      (record { cl = "two"; its_cluster = refl; stays = stays_too; fresh = prod-AllFresh })
spaces-Waiting space (inr (inr n)) = absurd n

reconcile_complete_example :
    ((reconcile M R request start).0 ≡ ok tt)
    × ((space : Space) (cl : String)
        → In space (dev ∷ prod ∷ [])
        → lookup space.cluster_name R.cluster_clients ≡ some cl
        → Placed acme globals space (view start cl) (view (reconcile M R request start).1 cl))
unfolding or_not_found find
reconcile_complete_example =
    reconcile_complete M subject_name_index subject_index M-IsServer M-IsHealthy R request acme
      (root ∷ []) start refl refl clients-Distinct spaces-Separate spaces-Waiting

abbrev FilledAfter : String → String → Machine → Type 0
FilledAfter cluster_name cl w =
    Filled acme globals cluster_name (dev ∷ prod ∷ []) (view start cl) (view w cl)

reconcile-Filled_example :
    ((reconcile M R request start).0 ≡ ok tt)
    × ((cluster_name cl : String)
        → lookup cluster_name R.cluster_clients ≡ some cl
        → FilledAfter cluster_name cl (reconcile M R request start).1)
unfolding or_not_found find
reconcile-Filled_example =
    reconcile-Filled M subject_name_index subject_index M-IsServer M-IsHealthy R request acme
      (root ∷ []) start refl refl clients-Distinct spaces-Separate spaces-Waiting

abbrev after : Machine
after = (reconcile M R request start).1

still_found :
    ((M.get_org "management" request after).0 ≡ ok acme)
    × ((M.list_global_users "management" after).0 ≡ ok (root ∷ []))
    × ((M.get_global_user "management" root_request after).0 ≡ ok root)
unfolding reconcile reconcile_spaces reconcile_space create_namespace memory_create_namespace
    create_role_bindings create_role_binding find_namespace find_binding find put_store
    org_namespace role_binding create_binding or_not_found
still_found = (refl, refl, refl)

spaces_ask : (space : Space) → In space (dev ∷ prod ∷ []) → space_bindings acme space globals ≢ []
unfolding requested bindings_of
spaces_ask space (inl e) = λ p. cc p
spaces_ask space (inr (inl e)) = λ p. cc p
spaces_ask space (inr (inr n)) = absurd n

reconcile-again_example :
    ((reconcile M R request after).0 ≡ err exists_already)
    × ((cluster_name cl : String)
        → lookup cluster_name R.cluster_clients ≡ some cl
        → view (reconcile M R request after).1 cl ≡ view after cl)
unfolding or_not_found find
reconcile-again_example =
    reconcile-again M subject_name_index subject_index M-IsServer M-IsHealthy R request acme
      (root ∷ []) start refl refl clients-Distinct spaces-Separate spaces-Waiting (λ p. cc p)
      spaces_ask still_found.0 still_found.1

abbrev G : GlobalUserReconciler M
G = record { client = "management"; cluster_clients = ("one", "one") ∷ ("two", "two") ∷ [] }

dev_absent : (view start "one").namespaces "acme-dev" ≡ none
unfolding cluster find_namespace find
dev_absent = refl

reconcile-clash_example : (GlobalUsers.reconcile M G root_request after).0 ≢ ok tt
unfolding or_not_found find
reconcile-clash_example =
    reconcile-clash M subject_name_index subject_index M-IsServer M-IsHealthy R G request
      root_request acme (root ∷ []) dev "one" root "admin" start refl refl refl clients-Distinct
      spaces-Separate spaces-Waiting (inl refl) refl dev_absent (inl refl) (inl refl) still_found.2
