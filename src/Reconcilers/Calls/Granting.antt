-- ===== src/Reconcilers/Calls/Granting.antt =====
-- The calls of `createRoleBindings` and `createNamespace`.
use auth_explore.Base.{String, List, [], ◌∷◌, In, inl, inr, refl}
use auth_explore.Api.{User, Org}
use auth_explore.Kube.{Client}
use auth_explore.Reconcilers.Calls.{
  Rights, Calls, done, one, create_role_binding, create_namespace as create_namespace_call,
  Calls-bind,
}
use auth_explore.Reconcilers.Bindings.{
  role_binding, create_binding, grant_roles, create_role_bindings,
}
use auth_explore.Reconcilers.Namespaces.{org_namespace, create_namespace}

module _ (C : Client) (R : Rights C) where
  open C use {World, Conn}

  grant_roles-Calls :
      (cl : Conn) (user : String) (roles : List String) (level namespace : String) (w : World)
      → ((role : String) → In role roles → R.bind cl (role_binding user role level namespace))
      → Calls C R w (grant_roles C cl user roles level namespace w).1
  unfolding grant_roles create_binding
  grant_roles-Calls cl user [] level namespace w allowed = done
  grant_roles-Calls cl user (role ∷ roles) level namespace w allowed =
      Calls-bind C (create_binding C cl (role_binding user role level namespace)) _ w
        (one C (create_role_binding cl _ (allowed role (inl refl))))
        (λ _ _. grant_roles-Calls cl user roles level namespace _ (λ r m. allowed r (inr m)))

  pub create_role_bindings-Calls :
      (cl : Conn) (users : List User) (level namespace : String) (w : World)
      → ((user : User) (role : String)
          → In user users
          → In role user.roles
          → R.bind cl (role_binding user.name role level namespace))
      → Calls C R w (create_role_bindings C cl users level namespace w).1
  unfolding create_role_bindings
  create_role_bindings-Calls cl [] level namespace w allowed = done
  create_role_bindings-Calls cl (user ∷ users) level namespace w allowed =
      Calls-bind C (grant_roles C cl user.name user.roles level namespace) _ w
        (grant_roles-Calls cl user.name user.roles level namespace w
          (λ role m. allowed user role (inl refl) m))
        (λ _ _.
          create_role_bindings-Calls cl users level namespace _ (λ u r m. allowed u r (inr m)))

  pub create_namespace-Calls :
      (cl : Conn) (org : Org) (namespace : String) (w : World)
      → R.create cl (org_namespace org.name namespace)
      → Calls C R w (create_namespace C cl org namespace w).1
  unfolding create_namespace
  create_namespace-Calls cl org namespace w allowed = one C (create_namespace_call cl _ allowed)
