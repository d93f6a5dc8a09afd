-- ===== src/Reconcilers/System/Clash.antt =====
-- The reconciler of orgs and that of global users on the same namespace.
use mathlib.Core.Option.{or_else, some-injective}
use auth_explore.Base.{
  String, ◌≡◌, refl, ◌∙◌, ◌≢◌, inl, inr, none, some, true, List, [], ◌∷◌, In, In-map, All-at,
  lookup, map, Bool-cases, eq_iff, ◌==◌,
}
use auth_explore.Base.Exec.{ok}
use auth_explore.Api.{User, Space, Org, GlobalUser}
use auth_explore.Kube.{RoleBinding, Client, Request, has_label}
use auth_explore.Kube.Server.{Cluster, Distinct, IsServer, IsHealthy}
use auth_explore.Reconcilers.{org_label, global_level}
use auth_explore.Reconcilers.Bindings.{role_binding, binding_name}
use auth_explore.Reconcilers.Bindings.Granting.{Granted}
use auth_explore.Reconcilers.Namespaces.{org_namespace}
use auth_explore.Reconcilers.Orgs
use auth_explore.Reconcilers.Orgs.{OrgReconciler, as_user, namespace_name}
use auth_explore.Reconcilers.Orgs.Complete.{Separate, Waiting, reconcile_complete}
use auth_explore.Reconcilers.GlobalUsers
use auth_explore.Reconcilers.GlobalUsers.{GlobalUserReconciler}
use auth_explore.Reconcilers.GlobalUsers.Repeat.{reconcile-Taken}

In-of_lookup :
    {A : Type 0} (clients : List (String × A)) (name : String) (cl : A)
    → lookup name clients ≡ some cl
    → In (name, cl) clients
In-of_lookup [] name cl e = absurd (cc e)
In-of_lookup ((n, x) ∷ clients) name cl e = elim (Bool-cases (n == name)) [
  | inl t ↦ inl (cc ((eq_iff n name).0 t, some-injective _ _ (rw t at e)))
  | inr t ↦ inr (In-of_lookup clients name cl (rw t at e))
]

org_namespace-label : (org n : String) → has_label org_label (org_namespace org n).labels ≡ true
unfolding org_namespace
org_namespace-label org n = refl

Granted-at :
    (users : List User) (user : User) (role level n : String) (k : Cluster)
    → Granted users level n k
    → In user users
    → In role user.roles
    → k.bindings n (binding_name user.name role) ≡ some (role_binding user.name role level n)
Granted-at users user role level n k given mu mr =
    All-at _ user.roles role (All-at _ users user given mu) mr

module _ (C : Client) (field : String) (index : RoleBinding → List String)
    (S : IsServer C field index) (H : IsHealthy C field index S) where
  open C use {World, Conn}
  open S use {view}

  -- Once a `Reconcile` on an org has made all its spaces, as it does on healthy servers under the
  -- conditions of `reconcile_complete`, and one of its namespaces is new, `Reconcile` on any of the
  -- listed global users that has a role returns an error, over the same clusters and from the world
  -- that the first has left.
  pub reconcile-clash :
      (r : OrgReconciler C) (u : GlobalUserReconciler C) (request user_request : Request)
      (org : Org) (items : List GlobalUser) (space : Space) (cl : Conn) (g : GlobalUser)
      (role : String) (w : World)
      → u.cluster_clients ≡ r.cluster_clients
      → (C.get_org r.client request w).0 ≡ ok org
      → (C.list_global_users r.client (C.get_org r.client request w).1).0 ≡ ok items
      → Distinct r.cluster_clients
      → Separate org org.spec.spaces
      → ((s : Space) → In s org.spec.spaces → Waiting C field index S r org (map as_user items) s w)
      → In space org.spec.spaces
      → lookup space.cluster_name r.cluster_clients ≡ some cl
      → (view w cl).namespaces (namespace_name org space) ≡ none
      → In g items
      → In role g.spec.roles
      → let w' = (Orgs.reconcile C r request w).1 in
        (C.get_global_user u.client user_request w').0 ≡ ok g
        → (GlobalUsers.reconcile C u user_request w').0 ≢ ok tt
  unfolding org_namespace or_else
  reconcile-clash r u request user_request org items space cl g role w same found listed distinct
        separate waits i f absent mg mr found_user =
      let n = namespace_name org space in
      let w' = (Orgs.reconcile C r request w).1 in
      let (_, placed) =
        reconcile_complete C field index S H r request org items w found listed distinct separate
          waits in
      let p = placed space cl i f in
      let there : (view w' cl).namespaces n ≡ some (org_namespace org.name n) =
        p.its_namespace ∙ rw absent refl in
      reconcile-Taken C field index S u user_request g role space.cluster_name cl
        (org_namespace org.name n) (role_binding g.name role global_level n) w' (rw same distinct)
        (rw same (In-of_lookup r.cluster_clients space.cluster_name cl f)) there
        (org_namespace-label org.name n) mr
        (Granted-at (map as_user items) (as_user g) role global_level n (view w' cl) p.global_roles
          (In-map as_user g items mg) mr)
        found_user
