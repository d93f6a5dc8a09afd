-- ===== src/Reconcilers/Orgs.antt =====
-- reconcilers/org.go: the reconciler of orgs.
pub mod Spaces
pub mod Loop
pub mod Deletion
pub mod Shared
pub mod Healthy
pub mod Rights
pub mod Elsewhere
pub mod Placing
pub mod Complete
pub mod Exact
pub mod Made
pub mod Again
use auth_explore.Base.{String, ◌<>◌, none, some, List, [], ◌∷◌, ◌++◌, map, lookup}
use auth_explore.Base.Exec.{Result, ok, err, Exec, pure, raise, settle, ◌>>=◌, ◌>>◌}
use auth_explore.Api.{User, Space, Org, GlobalUser}
use auth_explore.Kube.{Request, ApiError, not_found, Client}
use auth_explore.Reconcilers.{
  Error, api, wrapped, unknown_cluster_context, from_api, wrap, get_org_failed, deleted_org_failed,
  get_global_users_failed, delete_namespaces_failed, org_label, global_level, other_level,
}
use auth_explore.Reconcilers.Bindings.{create_role_bindings}
use auth_explore.Reconcilers.Namespaces.{create_namespace}

-- `org.Name + "-" + space.Name`
abbrev pub namespace_name : Org → Space → String
namespace_name org space = org.name <> ("-" <> space.name)

-- One turn of the loop of `getGlobalUsers`.
abbrev pub as_user : GlobalUser → User
as_user g = record { name = g.name; roles = g.spec.roles }

module _ (C : Client) where
  open C use {World, Conn}

  pub record OrgReconciler : Type 0 where
    pub client : Conn
    pub cluster_clients : List (String × Conn)

  unfoldable pub get_global_users : OrgReconciler → Exec World Error (List User)
  get_global_users r =
      settle from_api (C.list_global_users r.client) >>= λ items. pure (map as_user items)

  unfoldable pub reconcile_space : Conn → Org → Space → List User → Exec World Error Unit
  reconcile_space cl org space global_users = do
    create_namespace C cl org (namespace_name org space)
    create_role_bindings C cl global_users global_level (namespace_name org space)
    create_role_bindings C cl (org.spec.users ++ space.users) other_level (namespace_name org space)

  -- The loop over the clusters of `reconcileDeletedOrg`.
  unfoldable pub delete_from_all : List (String × Conn) → String → Exec World Error Unit
  delete_from_all [] org_name = pure tt
  delete_from_all ((_, cl) ∷ clients) org_name = do
    settle (λ r. wrap (delete_namespaces_failed org_name) (from_api r))
        (C.delete_namespaces cl org_label org_name)
    delete_from_all clients org_name

  unfoldable pub reconcile_deleted_org : OrgReconciler → String → Exec World Error Unit
  unfolding delete_from_all
  reconcile_deleted_org r org_name = delete_from_all r.cluster_clients org_name

  -- The loop over the spaces. `last` is the variable `err`: an error of one space is logged, and the
  -- next turn overwrites it.
  unfoldable pub reconcile_spaces :
      OrgReconciler → Org → List User → List Space → Result Error Unit → Exec World Error Unit
  reconcile_spaces r org global_users [] last w = (last, w)
  reconcile_spaces r org global_users (space ∷ spaces) last w =
      elim (lookup space.cluster_name r.cluster_clients) [
        | none ↦ (err (unknown_cluster_context space.cluster_name), w)
        | some cl ↦
            let res = reconcile_space cl org space global_users w in
            reconcile_spaces r org global_users spaces res.0 res.1
      ]

  -- `Reconcile` once the org is there.
  unfoldable pub reconcile_org : OrgReconciler → Org → Exec World Error Unit
  unfolding get_global_users reconcile_spaces
  reconcile_org r org = do
    global_users ← settle (wrap get_global_users_failed) (get_global_users r)
    reconcile_spaces r org global_users org.spec.spaces (ok tt)

  -- `Reconcile` on the answer of the `Get`.
  abbrev found_org : OrgReconciler → Request → Result ApiError Org → Exec World Error Unit
  found_org r request (ok org) = reconcile_org r org
  found_org r request (err not_found) =
      settle (wrap deleted_org_failed) (reconcile_deleted_org r request.name)
  found_org r request (err e) = raise (wrapped get_org_failed (api e))

  unfoldable pub reconcile : OrgReconciler → Request → Exec World Error Unit
  unfolding reconcile_org
  reconcile r request w = let res = C.get_org r.client request w in found_org r request res.0 res.1
