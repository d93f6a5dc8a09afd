-- ===== src/Reconcilers/Orgs/Rights.antt =====
-- What `Reconcile` of reconcilers/org.go may create, and that it creates nothing else.
use auth_explore.Base.{
  String, ◌≡◌, refl, ◌⊎◌, inl, inr, some, lookup, List, [], ◌∷◌, ◌++◌, In, map, Option-cases,
}
use auth_explore.Base.Exec.{Result, ok, err, Exec, settle, pure, >>=-eq-ok}
use auth_explore.Api.{User, Space, Org, GlobalUser}
use auth_explore.Kube.{
  Namespace, RoleBinding, Client, Request, ApiError, not_found, already_exists, other,
}
use auth_explore.Kube.Server.{IsServer}
use auth_explore.Kube.Tight.{IsTight}
use mathlib.Core.Path.{subst}
use auth_explore.Base.Exec.{ok-injective}
use auth_explore.Reconcilers.{
  org_label, delete_namespaces_failed, Error, global_level, other_level, from_api, wrap, wrap-eq-ok,
  from_api-eq-ok, get_global_users_failed,
}
use auth_explore.Reconcilers.Calls.{
  Rights, Calls, done, one, Calls-bind, Calls-trans, get_org, list_global_users, delete_namespaces,
}
use auth_explore.Reconcilers.Calls.Effects.{Calls-binding, Calls-namespace}
use auth_explore.Reconcilers.Calls.Granting.{create_role_bindings-Calls, create_namespace-Calls}
use auth_explore.Reconcilers.Bindings.{role_binding, create_role_bindings}
use auth_explore.Reconcilers.Namespaces.{org_namespace, create_namespace}
use auth_explore.Reconcilers.Orgs.{
  OrgReconciler, as_user, namespace_name, get_global_users, reconcile_space, reconcile_spaces,
  reconcile_org, delete_from_all, reconcile_deleted_org, found_org, reconcile,
}

module _ (C : Client) (r : OrgReconciler C) (request : Request) (w₀ : C.World) where
  open C use {World, Conn}

  abbrev after_get : World
  after_get = (C.get_org r.client request w₀).1

  -- A space of the org of the request, and the client of its cluster.
  pub record SpaceOf (cl : Conn) : Type 0 where
    pub org : Org
    pub space : Space
    pub found : (C.get_org r.client request w₀).0 ≡ ok org
    pub member : In space org.spec.spaces
    pub its_cluster : lookup space.cluster_name r.cluster_clients ≡ some cl

  abbrev pub space_namespace : {cl : Conn} → SpaceOf cl → String
  space_namespace s = namespace_name s.org s.space

  -- A role binding for a role of a user of the org or the space, or of a listed global user.
  pub data OrgBinds (cl : Conn) (rb : RoleBinding) : Type 0 where
    of_member :
        (s : SpaceOf cl) (user : User) (role : String)
        → In user (s.org.spec.users ++ s.space.users)
        → In role user.roles
        → rb ≡ role_binding user.name role other_level (space_namespace s)
        → OrgBinds cl rb
    of_global_user :
        (s : SpaceOf cl) (items : List GlobalUser) (user : User) (role : String)
        → (C.list_global_users r.client after_get).0 ≡ ok items
        → In user (map as_user items)
        → In role user.roles
        → rb ≡ role_binding user.name role global_level (space_namespace s)
        → OrgBinds cl rb

  pub data OrgCreates (cl : Conn) (ns : Namespace) : Type 0 where
    of_space :
        (s : SpaceOf cl) → ns ≡ org_namespace s.org.name (space_namespace s) → OrgCreates cl ns

  abbrev org_rights : Rights C
  org_rights = record { bind = OrgBinds; create = OrgCreates }

  reconcile_space-Calls :
      {cl : Conn} (s : SpaceOf cl) (items : List GlobalUser) (w : World)
      → (C.list_global_users r.client after_get).0 ≡ ok items
      → Calls C org_rights w (reconcile_space C cl s.org s.space (map as_user items) w).1
  unfolding reconcile_space
  reconcile_space-Calls {cl} s items w listed =
      let namespace = space_namespace s in
      Calls-bind C (create_namespace C cl s.org namespace) _ w
        (create_namespace-Calls C org_rights cl s.org namespace w (of_space s refl))
        (λ _ _.
          Calls-bind C (create_role_bindings C cl (map as_user items) global_level namespace) _ _
            (create_role_bindings-Calls C org_rights cl (map as_user items) global_level namespace _
              (λ user role mu mr. of_global_user s items user role listed mu mr refl))
            (λ _ _.
              create_role_bindings-Calls C org_rights cl (s.org.spec.users ++ s.space.users)
                other_level namespace _ (λ user role mu mr. of_member s user role mu mr refl)))

  reconcile_spaces-Calls :
      (org : Org) (items : List GlobalUser) (spaces : List Space) (last : Result Error Unit)
      (w : World)
      → (C.get_org r.client request w₀).0 ≡ ok org
      → (C.list_global_users r.client after_get).0 ≡ ok items
      → ((space : Space) → In space spaces → In space org.spec.spaces)
      → Calls C org_rights w (reconcile_spaces C r org (map as_user items) spaces last w).1
  unfolding reconcile_spaces
  reconcile_spaces-Calls org items [] last w found listed among = done
  reconcile_spaces-Calls org items (space ∷ spaces) last w found listed among =
      elim (Option-cases (lookup space.cluster_name r.cluster_clients)) [
        | inl e ↦ rw (e, reconcile_spaces) done
        | inr (cl, e) ↦
            let s : SpaceOf cl = record {
              org = org;
              space = space;
              found = found;
              member = among space (inl refl);
              its_cluster = e;
            } in
            rw (e, reconcile_spaces)
              (Calls-trans C (reconcile_space-Calls s items w listed)
                (reconcile_spaces-Calls org items spaces _ _ found listed (λ x m. among x (inr m))))
      ]

  delete_from_all-Calls :
      (clients : List (String × Conn)) (name : String) (w : World)
      → Calls C org_rights w (delete_from_all C clients name w).1
  unfolding delete_from_all
  delete_from_all-Calls [] name w = done
  delete_from_all-Calls ((_, cl) ∷ clients) name w =
      let one_cluster : Exec World Error Unit =
        settle (λ r. wrap (delete_namespaces_failed name) (from_api r))
          (C.delete_namespaces cl org_label name) in
      Calls-bind C one_cluster (λ _. delete_from_all C clients name) w
        (one C (delete_namespaces cl org_label name)) (λ _ _. delete_from_all-Calls clients name _)

  reconcile_org-Calls :
      (org : Org)
      → (C.get_org r.client request w₀).0 ≡ ok org
      → Calls C org_rights after_get (reconcile_org C r org after_get).1
  unfolding reconcile_org get_global_users
  reconcile_org-Calls org found =
      let listing : Exec World Error (List User) =
        settle (wrap get_global_users_failed) (get_global_users C r) in
      Calls-bind C listing (λ users. reconcile_spaces C r org users org.spec.spaces (ok tt))
        after_get
        (Calls-bind C (settle from_api (C.list_global_users r.client))
          (λ items. pure (map as_user items)) after_get (one C (list_global_users r.client))
          (λ _ _. done))
        (λ users e.
          let e' = wrap-eq-ok get_global_users_failed _ e in
          let (items, listed, same, s) =
            >>=-eq-ok (settle from_api (C.list_global_users r.client))
              (λ items. pure (map as_user items)) after_get e' in
          subst
            (λ (us : List User).
              Calls C org_rights (get_global_users C r after_get).1
                (reconcile_spaces C r org us org.spec.spaces (ok tt)
                  (get_global_users C r after_get).1).1)
            (ok-injective same)
            (reconcile_spaces-Calls org items org.spec.spaces (ok tt) _ found
              (from_api-eq-ok _ listed) (λ _ m. m)))

  found_org-Calls :
      (answer : Result ApiError Org)
      → (C.get_org r.client request w₀).0 ≡ answer
      → Calls C org_rights after_get (found_org C r request answer after_get).1
  unfolding reconcile_deleted_org
  found_org-Calls (ok org) e = reconcile_org-Calls org e
  found_org-Calls (err not_found) e = delete_from_all-Calls r.cluster_clients request.name after_get
  found_org-Calls (err already_exists) e = done
  found_org-Calls (err (other s)) e = done

  -- A run makes calls within its rights only.
  pub reconcile-Calls : Calls C org_rights w₀ (reconcile C r request w₀).1
  unfolding reconcile
  reconcile-Calls = Calls-trans C (one C (get_org r.client request)) (found_org-Calls _ refl)

module _ (C : Client) (field : String) (index : RoleBinding → List String)
    (S : IsServer C field index) (T : IsTight C field index S) where
  open C use {World, Conn}

  -- Whatever `Reconcile` of an org returns, errors included, every role binding that is afterwards in
  -- a cluster was there before, or was made for a role of a user of the found org or of one of its
  -- spaces at the other level, or of a listed global user at the global level, in the namespace of a
  -- space whose cluster it is.
  pub reconcile-OrgBinds :
      (r : OrgReconciler C) (request : Request) (w : World) (c : Conn) (n j : String)
      (rb : RoleBinding)
      → (S.view (reconcile C r request w).1 c).bindings n j ≡ some rb
      → ((S.view w c).bindings n j ≡ some rb) ⊎ OrgBinds C r request w c rb
  reconcile-OrgBinds r request w c n j rb h =
      Calls-binding C field index S T (org_rights C r request w) c n j rb
        (reconcile-Calls C r request w) h

  -- Whatever `Reconcile` of an org returns, every namespace that is afterwards in a cluster was there
  -- before, with the same labels, or is that of a space of the found org whose cluster it is, with the
  -- org's label.
  pub reconcile-OrgCreates :
      (r : OrgReconciler C) (request : Request) (w : World) (c : Conn) (j : String) (ns : Namespace)
      → (S.view (reconcile C r request w).1 c).namespaces j ≡ some ns
      → ((S.view w c).namespaces j ≡ some ns) ⊎ OrgCreates C r request w c ns
  reconcile-OrgCreates r request w c j ns h =
      Calls-namespace C field index S T (org_rights C r request w) c j ns
        (reconcile-Calls C r request w) h
