-- ===== src/Reconcilers/Bindings.antt =====
-- `createRoleBindings` of reconcilers/org.go, which both reconcilers call.
pub mod Granting
use auth_explore.Base.{String, ◌<>◌, List, [], ◌∷◌, ◌++◌, map}
use auth_explore.Base.Exec.{Exec, pure, settle, ◌>>◌}
use auth_explore.Api.{User}
use auth_explore.Kube.{RoleBinding, Client}
use auth_explore.Reconcilers.{Error, from_api, wrap, create_role_binding_failed, role_level_label}

abbrev pub rbac_group : String
rbac_group = "rbac.authorization.k8s.io"

-- `fmt.Sprintf("%s-%s", user.Name, role)`
abbrev pub binding_name : String → String → String
binding_name user role = user <> ("-" <> role)

-- The object that the inner loop creates.
unfoldable pub role_binding : String → String → String → String → RoleBinding
role_binding user role level namespace = record {
  namespace = namespace;
  name = binding_name user role;
  labels = (role_level_label, level) ∷ [];
  subjects = record { api_group = rbac_group; kind = "User"; name = user } ∷ [];
  role_ref = record { api_group = rbac_group; kind = "ClusterRole"; name = role };
}

module _ (C : Client) where
  open C use {World, Conn}

  -- `cl.Create(ctx, roleBinding)` with the error that the function returns for it.
  unfoldable pub create_binding : Conn → RoleBinding → Exec World Error Unit
  create_binding cl rb =
      settle (λ r. wrap create_role_binding_failed (from_api r)) (C.create_role_binding cl rb)

  -- The inner loop, over the roles of one user.
  unfoldable pub grant_roles : Conn → String → List String → String → String → Exec World Error Unit
  grant_roles cl user [] level namespace = pure tt
  grant_roles cl user (role ∷ roles) level namespace = do
    create_binding cl (role_binding user role level namespace)
    grant_roles cl user roles level namespace

  unfoldable pub create_role_bindings : Conn → List User → String → String → Exec World Error Unit
  unfolding grant_roles
  create_role_bindings cl [] level namespace = pure tt
  create_role_bindings cl (user ∷ users) level namespace = do
    grant_roles cl user.name user.roles level namespace
    create_role_bindings cl users level namespace
