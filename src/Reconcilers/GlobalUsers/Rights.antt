-- ===== src/Reconcilers/GlobalUsers/Rights.antt =====
-- What `Reconcile` of reconcilers/global_user.go may create, and that it creates nothing else.
use mathlib.Core.Path.{subst}
use auth_explore.Base.{String, ◌≡◌, refl, ap, ◌⊎◌, inl, inr, some, List, [], ◌∷◌, In, map}
use auth_explore.Base.Exec.{Result, ok, err, Exec, settle, pure, ◌>>◌}
use auth_explore.Api.{User, GlobalUser}
use auth_explore.Kube.{RoleBinding, Client, Request, ApiError, not_found, already_exists, other}
use auth_explore.Kube.Server.{IsServer}
use auth_explore.Kube.Tight.{IsTight}
use auth_explore.Reconcilers.{
  Error, global_level, org_label, role_level_label, subject_name_index, from_api, wrap,
  delete_role_binding_failed, list_role_bindings_failed, reconcile_global_user_failed,
  get_cf_namespaces_failed,
}
use auth_explore.Reconcilers.Calls.{
  Rights, Calls, done, one, Calls-bind, Calls-trans, get_global_user, list_namespaces,
  list_role_bindings, delete_role_binding,
}
use auth_explore.Reconcilers.Calls.Effects.{Calls-binding}
use auth_explore.Reconcilers.Calls.Granting.{create_role_bindings-Calls}
use auth_explore.Reconcilers.Bindings.{role_binding}
use auth_explore.Reconcilers.GlobalUsers.{
  GlobalUserReconciler, ns_name, delete_bindings, revoke, revoke_all, reconcile_deleted_global_user,
  reconcile_global_user_in_namespace, get_cf_namespaces, grant_in_all, grant_everywhere,
  found_global_user, reconcile,
}
use auth_explore.Reconcilers.GlobalUsers.Grants.{user_of}

module _ (C : Client) (r : GlobalUserReconciler C) (request : Request) (w₀ : C.World) where
  open C use {World, Conn}

  -- A role binding at the global level for a role of the global user that the request has found.
  pub record UserBinds (cl : Conn) (rb : RoleBinding) : Type 0 where
    pub user : GlobalUser
    pub role : String
    pub namespace : String
    pub found : (C.get_global_user r.client request w₀).0 ≡ ok user
    pub has_role : In role user.spec.roles
    pub made : rb ≡ role_binding user.name role global_level namespace

  abbrev pub user_rights : Rights C
  user_rights = record { bind = UserBinds; create = λ _ _. ⊥ }

  delete_bindings-Calls :
      (cl : Conn) (rbs : List RoleBinding) (w : World)
      → Calls C user_rights w (delete_bindings C cl rbs w).1
  unfolding delete_bindings
  delete_bindings-Calls cl [] w = done
  delete_bindings-Calls cl (rb ∷ rbs) w =
      let deleting : Exec World Error Unit =
        settle (λ r. wrap (delete_role_binding_failed rb.namespace rb.name) (from_api r))
          (C.delete_role_binding cl rb) in
      Calls-bind C deleting (λ _. delete_bindings C cl rbs) w (one C (delete_role_binding cl rb))
        (λ _ _. delete_bindings-Calls cl rbs _)

  revoke_all-Calls :
      (clients : List (String × Conn)) (user : String) (w : World)
      → Calls C user_rights w (revoke_all C clients user w).1
  unfolding revoke_all revoke
  revoke_all-Calls [] user w = done
  revoke_all-Calls ((_, cl) ∷ clients) user w =
      let listing : Exec World Error (List RoleBinding) =
        settle (λ r. wrap list_role_bindings_failed (from_api r))
          (C.list_role_bindings cl role_level_label global_level subject_name_index user) in
      Calls-bind C (revoke C cl user) (λ _. revoke_all C clients user) w
        (Calls-bind C listing (delete_bindings C cl) w
          (one C (list_role_bindings cl role_level_label global_level subject_name_index user))
          (λ rbs _. delete_bindings-Calls cl rbs _))
        (λ _ _. revoke_all-Calls clients user _)

  module _ (g : GlobalUser) (found : (C.get_global_user r.client request w₀).0 ≡ ok g) where
    grant_in_all-Calls :
        (cl : Conn) (names : List String) (w : World)
        → Calls C user_rights w (grant_in_all C cl names g w).1
    unfolding grant_in_all reconcile_global_user_in_namespace
    grant_in_all-Calls cl [] w = done
    grant_in_all-Calls cl (n ∷ names) w =
        let granting : Exec World Error Unit =
          settle (wrap (reconcile_global_user_failed g.name n))
            (reconcile_global_user_in_namespace C cl n g) in
        Calls-bind C granting (λ _. grant_in_all C cl names g) w
          (create_role_bindings-Calls C user_rights cl (user_of g ∷ []) global_level n w
            (λ user role mu mr. elim mu [
              | inl e ↦ record {
                user = g;
                role = role;
                namespace = n;
                found = found;
                has_role = subst (λ (u : User). In role u.roles) e mr;
                made = ap (λ (u : User). role_binding u.name role global_level n) e;
              }
              | inr none_left ↦ absurd none_left
            ]))
          (λ _ _. grant_in_all-Calls cl names _)

    grant_everywhere-Calls :
        (clients : List (String × Conn)) (w : World)
        → Calls C user_rights w (grant_everywhere C clients g w).1
    unfolding grant_everywhere get_cf_namespaces
    grant_everywhere-Calls [] w = done
    grant_everywhere-Calls ((_, cl) ∷ clients) w =
        let listing : Exec World Error (List String) =
          settle (wrap get_cf_namespaces_failed) (get_cf_namespaces C cl) in
        Calls-bind C listing (λ names. grant_in_all C cl names g >> grant_everywhere C clients g) w
          (Calls-bind C (settle from_api (C.list_namespaces cl org_label))
            (λ items. pure (map ns_name items)) w (one C (list_namespaces cl org_label))
            (λ _ _. done))
          (λ names _.
            Calls-bind C (grant_in_all C cl names g) (λ _. grant_everywhere C clients g) _
              (grant_in_all-Calls cl names _) (λ _ _. grant_everywhere-Calls clients _))

  found_global_user-Calls :
      (answer : Result ApiError GlobalUser) (w : World)
      → (C.get_global_user r.client request w₀).0 ≡ answer
      → Calls C user_rights w (found_global_user C r request answer w).1
  unfolding reconcile_deleted_global_user
  found_global_user-Calls (ok g) w e = grant_everywhere-Calls g e r.cluster_clients w
  found_global_user-Calls (err not_found) w e = revoke_all-Calls r.cluster_clients request.name w
  found_global_user-Calls (err already_exists) w e = done
  found_global_user-Calls (err (other s)) w e = done

  -- A run makes calls within its rights only.
  pub reconcile-Calls : Calls C user_rights w₀ (reconcile C r request w₀).1
  unfolding reconcile
  reconcile-Calls =
      Calls-trans C (one C (get_global_user r.client request)) (found_global_user-Calls _ _ refl)

module _ (C : Client) (field : String) (index : RoleBinding → List String)
    (S : IsServer C field index) (T : IsTight C field index S) where
  open C use {World, Conn}

  -- Whatever `Reconcile` of a global user returns, errors included, every role binding that is
  -- afterwards in a cluster was there before, or was made for a role of the global user that was found,
  -- at the global level.
  pub reconcile-UserBinds :
      (r : GlobalUserReconciler C) (request : Request) (w : World) (c : Conn) (n j : String)
      (rb : RoleBinding)
      → (S.view (reconcile C r request w).1 c).bindings n j ≡ some rb
      → ((S.view w c).bindings n j ≡ some rb) ⊎ UserBinds C r request w c rb
  reconcile-UserBinds r request w c n j rb h =
      Calls-binding C field index S T (user_rights C r request w) c n j rb
        (reconcile-Calls C r request w) h
