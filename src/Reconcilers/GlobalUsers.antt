-- ===== src/Reconcilers/GlobalUsers.antt =====
-- reconcilers/global_user.go: the reconciler of global users.
pub mod Revocation
pub mod Grants
pub mod Repeat
pub mod Complete
pub mod Asked
pub mod Exact
pub mod Rights
use auth_explore.Base.{String, List, [], ◌∷◌, map}
use auth_explore.Base.Exec.{Result, ok, err, Exec, pure, raise, settle, ◌>>=◌, ◌>>◌}
use auth_explore.Api.{GlobalUser}
use auth_explore.Kube.{Namespace, RoleBinding, Request, ApiError, not_found, Client}
use auth_explore.Reconcilers.{
  Error, api, wrapped, from_api, wrap, get_global_user_failed, deleted_global_user_failed,
  get_cf_namespaces_failed, list_role_bindings_failed, delete_role_binding_failed,
  reconcile_global_user_failed, org_label, role_level_label, global_level, subject_name_index,
}
use auth_explore.Reconcilers.Bindings.{create_role_bindings}

-- One turn of the loop of `getCfNamespaces`.
abbrev pub ns_name : Namespace → String
ns_name ns = ns.name

module _ (C : Client) where
  open C use {World, Conn}

  pub record GlobalUserReconciler : Type 0 where
    pub client : Conn
    pub cluster_clients : List (String × Conn)

  -- The loop over the listed role bindings of one cluster.
  unfoldable pub delete_bindings : Conn → List RoleBinding → Exec World Error Unit
  delete_bindings cl [] = pure tt
  delete_bindings cl (rb ∷ rbs) = do
    settle (λ r. wrap (delete_role_binding_failed rb.namespace rb.name) (from_api r))
        (C.delete_role_binding cl rb)
    delete_bindings cl rbs

  -- One turn of the loop over the clusters of `reconcileDeletedGlobalUser`.
  unfoldable pub revoke : Conn → String → Exec World Error Unit
  unfolding delete_bindings
  revoke cl user = do
    rbs ←
        settle (λ r. wrap list_role_bindings_failed (from_api r))
          (C.list_role_bindings cl role_level_label global_level subject_name_index user)
    delete_bindings cl rbs

  unfoldable pub revoke_all : List (String × Conn) → String → Exec World Error Unit
  unfolding revoke
  revoke_all [] user = pure tt
  revoke_all ((_, cl) ∷ clients) user = do revoke cl user; revoke_all clients user

  unfoldable pub reconcile_deleted_global_user :
      GlobalUserReconciler → String → Exec World Error Unit
  unfolding revoke_all
  reconcile_deleted_global_user r user = revoke_all r.cluster_clients user

  unfoldable pub reconcile_global_user_in_namespace :
      Conn → String → GlobalUser → Exec World Error Unit
  reconcile_global_user_in_namespace cl cf_ns g =
      create_role_bindings C cl (record { name = g.name; roles = g.spec.roles } ∷ []) global_level
        cf_ns

  unfoldable pub get_cf_namespaces : Conn → Exec World Error (List String)
  get_cf_namespaces cl =
      settle from_api (C.list_namespaces cl org_label) >>= λ items. pure (map ns_name items)

  -- The loop over the namespaces of one cluster.
  unfoldable pub grant_in_all : Conn → List String → GlobalUser → Exec World Error Unit
  unfolding reconcile_global_user_in_namespace
  grant_in_all cl [] g = pure tt
  grant_in_all cl (cf_ns ∷ cf_namespaces) g = do
    settle (wrap (reconcile_global_user_failed g.name cf_ns))
        (reconcile_global_user_in_namespace cl cf_ns g)
    grant_in_all cl cf_namespaces g

  -- The loop over the clusters.
  unfoldable pub grant_everywhere : List (String × Conn) → GlobalUser → Exec World Error Unit
  unfolding get_cf_namespaces grant_in_all
  grant_everywhere [] g = pure tt
  grant_everywhere ((_, cl) ∷ clients) g = do
    cf_namespaces ← settle (wrap get_cf_namespaces_failed) (get_cf_namespaces cl)
    grant_in_all cl cf_namespaces g
    grant_everywhere clients g

  -- `Reconcile` on the answer of the `Get`.
  abbrev found_global_user :
      GlobalUserReconciler → Request → Result ApiError GlobalUser → Exec World Error Unit
  found_global_user r request (ok g) = grant_everywhere r.cluster_clients g
  found_global_user r request (err not_found) =
      settle (wrap deleted_global_user_failed) (reconcile_deleted_global_user r request.name)
  found_global_user r request (err e) = raise (wrapped get_global_user_failed (api e))

  unfoldable pub reconcile : GlobalUserReconciler → Request → Exec World Error Unit
  unfolding grant_everywhere reconcile_deleted_global_user
  reconcile r request w =
      let res = C.get_global_user r.client request w in found_global_user r request res.0 res.1
