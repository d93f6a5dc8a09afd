-- ===== src/Tests/System.antt =====
-- The two reconcilers in turn, over the server in memory.
use auth_explore.Base.{String, ◌≡◌, refl, ◌⊎◌, ◌≢◌, inl, inr, Bool-cases, some, [], ◌∷◌, ◌==◌}
use mathlib.Core.Path.{subst}
use auth_explore.Base.Exec.{ok, err}
use auth_explore.Kube.{Namespace, RoleBinding, Request, not_found}
use auth_explore.Kube.Server.{Distinct}
use auth_explore.Kube.Tight.{IsTight}
use auth_explore.Kube.Memory.{
  Machine, create_role_binding, create_namespace as memory_create_namespace, delete_role_binding,
  find_namespace, find_binding, put_store, or_not_found,
}
use auth_explore.Kube.Memory.Table.{find, listing, erase}
use auth_explore.Kube.Memory.Tight.{memory-IsTight}
use auth_explore.Kube.Memory.Lawful.Views.{cluster, view}
use auth_explore.Controller.{subject_index, get_subject_user_name}
use auth_explore.Reconcilers.{global_level, other_level, subject_name_index}
use auth_explore.Reconcilers.Bindings.{role_binding, create_binding, create_role_bindings}
use auth_explore.Reconcilers.Namespaces.{org_namespace, create_namespace}
use auth_explore.Reconcilers.Orgs
use auth_explore.Reconcilers.Orgs.{OrgReconciler, reconcile_space}
use auth_explore.Reconcilers.Orgs.Rights.{
  OrgBinds, OrgCreates, reconcile-OrgBinds, reconcile-OrgCreates,
}
use auth_explore.Reconcilers.GlobalUsers
use auth_explore.Reconcilers.GlobalUsers.{GlobalUserReconciler}
use auth_explore.Reconcilers.GlobalUsers.Rights.{UserBinds, reconcile-UserBinds}
use auth_explore.Reconcilers.System.{After, start as at_start, org_turn, edit}
use auth_explore.Reconcilers.System.Managed.{IsMade, IsOrgNamespace, IsManaged, After-IsManaged}
use auth_explore.Reconcilers.System.Forgotten.{reconcile-forgets}
use auth_explore.Tests.Sample.{M, M-IsServer, old_namespace, start, one_ne_two}

M-IsTight : IsTight M subject_name_index subject_index M-IsServer
M-IsTight = memory-IsTight subject_name_index subject_index

abbrev R : OrgReconciler M
R = record { client = "management"; cluster_clients = ("one", "one") ∷ ("two", "two") ∷ [] }

abbrev G : GlobalUserReconciler M
G = record { client = "management"; cluster_clients = ("one", "one") ∷ ("two", "two") ∷ [] }

abbrev acme_request : Request
acme_request = record { namespace = "org"; name = "acme" }

abbrev root_request : Request
root_request = record { namespace = "org"; name = "root" }

-- After a turn for the org, the global user is deleted.
abbrev after_org : Machine
after_org = (Orgs.reconcile M R acme_request start).1

abbrev without_root : Machine
without_root = record after_org { global_users = [] }

history : After M subject_name_index subject_index M-IsServer R G start without_root
history = edit (org_turn at_start acme_request) without_root refl

start_labelled :
    (j : String) (ns : Namespace) → (view start "one").namespaces j ≡ some ns → old_namespace ≡ ns
unfolding cluster find_namespace find
start_labelled j ns h = elim (Bool-cases (j == "old-x")) [
  | inl e ↦ cc (rw e at h)
  | inr e ↦ absurd (cc (rw e at h))
]

start_bindings : (n j : String) (rb : RoleBinding) → (view start "one").bindings n j ≢ some rb
unfolding cluster find_binding find
start_bindings n j rb h = cc h

old-IsOrgNamespace : IsOrgNamespace old_namespace
unfolding org_namespace
old-IsOrgNamespace = record { org = "old"; shape = refl }

start-IsManaged : IsManaged (view start "one")
start-IsManaged = record {
  made = λ n j rb h. absurd (start_bindings n j rb h);
  labelled = λ j ns h. subst IsOrgNamespace (start_labelled j ns h) old-IsOrgNamespace;
}

After-IsManaged_example : IsManaged (view without_root "one")
After-IsManaged_example =
    After-IsManaged M subject_name_index subject_index M-IsServer M-IsTight R G "one"
      start-IsManaged history

abbrev alice_viewer : RoleBinding
unfolding role_binding
alice_viewer = role_binding "alice" "viewer" other_level "acme-dev"

abbrev root_admin : RoleBinding
unfolding role_binding
root_admin = role_binding "root" "admin" global_level "acme-dev"

org_run :
    ((view after_org "one").bindings "acme-dev" "alice-viewer" ≡ some alice_viewer)
    × ((view after_org "one").namespaces "acme-dev" ≡ some (org_namespace "acme" "acme-dev"))
unfolding Orgs.reconcile reconcile_space create_namespace memory_create_namespace
    create_role_bindings create_role_binding create_binding find_namespace find_binding find
    put_store org_namespace role_binding or_not_found cluster
org_run = (refl, refl)

reconcile-OrgBinds_example :
    ((view start "one").bindings "acme-dev" "alice-viewer" ≡ some alice_viewer)
    ⊎ OrgBinds M R acme_request start "one" alice_viewer
reconcile-OrgBinds_example =
    reconcile-OrgBinds M subject_name_index subject_index M-IsServer M-IsTight R acme_request start
      "one" "acme-dev" "alice-viewer" alice_viewer org_run.0

reconcile-OrgCreates_example :
    ((view start "one").namespaces "acme-dev" ≡ some (org_namespace "acme" "acme-dev"))
    ⊎ OrgCreates M R acme_request start "one" (org_namespace "acme" "acme-dev")
reconcile-OrgCreates_example =
    reconcile-OrgCreates M subject_name_index subject_index M-IsServer M-IsTight R acme_request
      start "one" "acme-dev" (org_namespace "acme" "acme-dev") org_run.1

abbrev root_old : RoleBinding
unfolding role_binding
root_old = role_binding "root" "admin" global_level "old-x"

user_run :
    (view (GlobalUsers.reconcile M G root_request start).1 "one").bindings "old-x" "root-admin"
    ≡ some root_old
unfolding GlobalUsers.reconcile or_not_found find listing create_role_bindings create_binding
    create_role_binding find_namespace find_binding put_store role_binding erase cluster
user_run = refl

reconcile-UserBinds_example :
    ((view start "one").bindings "old-x" "root-admin" ≡ some root_old)
    ⊎ UserBinds M G root_request start "one" root_old
reconcile-UserBinds_example =
    reconcile-UserBinds M subject_name_index subject_index M-IsServer M-IsTight G root_request start
      "one" "old-x" "root-admin" root_old user_run

G-Distinct : Distinct {A = String} (("one", "one") ∷ ("two", "two") ∷ [])
G-Distinct = ((one_ne_two, tt), (tt, tt))

forgets_run :
    ((M.get_global_user "management" root_request without_root).0 ≡ err not_found)
    × ((GlobalUsers.reconcile M G root_request without_root).0 ≡ ok tt)
    × ((view (GlobalUsers.reconcile M G root_request without_root).1 "one").bindings "acme-dev"
          "alice-viewer"
        ≡ some alice_viewer)
unfolding Orgs.reconcile reconcile_space create_namespace memory_create_namespace
    create_role_bindings create_role_binding create_binding find_namespace find_binding find
    put_store org_namespace role_binding or_not_found cluster GlobalUsers.reconcile listing
    delete_role_binding erase get_subject_user_name
forgets_run = (refl, refl, refl)

reconcile-forgets_example :
    ((view without_root "one").bindings "acme-dev" "alice-viewer" ≡ some alice_viewer)
    × ((m : IsMade alice_viewer) × ((m.level ≡ other_level) ⊎ (m.user ≢ "root")))
reconcile-forgets_example =
    reconcile-forgets M M-IsServer M-IsTight R G root_request "one" "one" start without_root
      "acme-dev" "alice-viewer" alice_viewer G-Distinct (inl refl) start-IsManaged history
      forgets_run.0 forgets_run.1 forgets_run.2
