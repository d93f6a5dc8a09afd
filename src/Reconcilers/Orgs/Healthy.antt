-- ===== src/Reconcilers/Orgs/Healthy.antt =====
-- When `reconcileSpace` of reconcilers/org.go succeeds on a healthy server.
use auth_explore.Base.{
  String, ◌≡◌, refl, sym, ap, ◌∙◌, ◌≢◌, Option, none, some, false, List, [], ◌∷◌, ◌++◌, inl, inr,
  ◌==◌, ◌&&◌, if◌then◌else◌, Option-cases, eq_self,
}
use mathlib.Core.Option.{some-ne-none}
use mathlib.Core.Path.{subst}
use auth_explore.Base.Exec.{ok}
use auth_explore.Api.{User, Space, Org}
use auth_explore.Kube.{RoleBinding, Client}
use auth_explore.Kube.Server.{Cluster, live, put_binding, IsServer, IsHealthy}
use auth_explore.Reconcilers.{global_level, other_level}
use auth_explore.Reconcilers.Bindings.{create_role_bindings}
use auth_explore.Reconcilers.Bindings.Granting.{requested, AllFresh, nil, cons, AllFresh-append}
use auth_explore.Reconcilers.Bindings.Granting.Success.{complete, create_role_bindings-Effect}
use auth_explore.Reconcilers.Bindings.Granting.Frame.{create_role_bindings-namespaces}
use auth_explore.Reconcilers.Bindings.Granting.Repeat.{create_role_bindings-ok_iff}
use auth_explore.Reconcilers.Namespaces.{org_namespace, create_namespace}
use auth_explore.Reconcilers.Namespaces.Creation.{Created, create_namespace-Created}
use auth_explore.Reconcilers.Orgs.{namespace_name, reconcile_space}
use auth_explore.Reconcilers.Orgs.Spaces.{space_bindings}

-- Only the role bindings of a cluster matter.
pub AllFresh-bindings :
    (rbs : List RoleBinding) (k k' : Cluster)
    → k'.bindings ≡ k.bindings
    → AllFresh rbs k
    → AllFresh rbs k'
AllFresh-bindings [] k k' e f = nil
AllFresh-bindings (rb ∷ rbs) k k' e (cons f fs) =
    cons (ap (λ (b : String → String → Option RoleBinding). b rb.namespace rb.name) e ∙ f) (
      AllFresh-bindings rbs (put_binding rb k) (put_binding rb k')
        (ap
          (λ (b : String → String → Option RoleBinding).
            λ n j. if n == rb.namespace && j == rb.name then some rb else b n j)
          e)
        fs)

-- A namespace that has been created is there to stay, and no role binding has changed.
Created-live :
    (org namespace : String) {k k' : Cluster}
    → k.deleting namespace ≡ false
    → Created org namespace k k'
    → (live k' namespace ≢ none) × (k'.bindings ≡ k.bindings) × (k'.deleting ≡ k.deleting)
unfolding org_namespace
Created-live org namespace stays (inl (absent, e)) =
    rw e (rw (stays, eq_self namespace) (some-ne-none _), refl, refl)
Created-live org namespace stays (inr (there, e)) = rw e (rw stays there, refl, refl)

module _ (C : Client) (field : String) (index : RoleBinding → List String)
    (S : IsServer C field index) (H : IsHealthy C field index S) where
  open C use {World, Conn}
  open S use {view}

  pub create_namespace-ok :
      (cl : Conn) (org : Org) (namespace : String) (w : World)
      → (create_namespace C cl org namespace w).0 ≡ ok tt
  unfolding create_namespace org_namespace
  create_namespace-ok cl org namespace w =
      let ns = org_namespace org.name namespace in
      elim (Option-cases ((view w cl).namespaces namespace)) [
        | inl e ↦ rw (H.create_namespace_fresh cl ns w e) refl
        | inr (x, e) ↦ rw (H.create_namespace_taken cl ns w (rw e (some-ne-none x))) refl
      ]

  -- On a healthy server, `reconcileSpace` returns no error if the namespace of the space is not being
  -- deleted and none of the role bindings that it makes is there already or is asked for twice. The
  -- namespace may be there already.
  pub reconcile_space-ok :
      (cl : Conn) (org : Org) (space : Space) (global_users : List User) (w : World)
      → (view w cl).deleting (namespace_name org space) ≡ false
      → AllFresh (space_bindings org space global_users) (view w cl)
      → (reconcile_space C cl org space global_users w).0 ≡ ok tt
  unfolding reconcile_space
  reconcile_space-ok cl org space global_users w stays fresh =
      let namespace = namespace_name org space in
      let users = org.spec.users ++ space.users in
      let w₁ = (create_namespace C cl org namespace w).1 in
      let w₂ = (create_role_bindings C cl global_users global_level namespace w₁).1 in
      let e₁ = create_namespace-ok cl org namespace w in
      let made = create_namespace-Created C field index S cl org namespace w e₁ in
      let (there, same, _) = Created-live org.name namespace stays made in
      let fresh₁ = AllFresh-bindings _ (view w cl) (view w₁ cl) same fresh in
      let (fresh_global, fresh_users) =
        AllFresh-append (requested global_users global_level namespace) _ fresh₁ in
      let e₂ =
        (create_role_bindings-ok_iff C field index S H cl global_users global_level namespace w₁
            there).1
          fresh_global in
      let (_, after) = complete C field index S (
        rw e₂ at (
          create_role_bindings-Effect C field index S cl global_users global_level namespace w₁)) in
      let (still, still') =
        create_role_bindings-namespaces C field index S cl global_users global_level namespace w₁ in
      let there₂ : live (view w₂ cl) namespace ≢ none = rw (still, still') there in
      let e₃ =
        (create_role_bindings-ok_iff C field index S H cl users other_level namespace w₂ there₂).1 (
          subst (λ k. AllFresh (requested users other_level namespace) k) (sym after)
            fresh_users) in
      rw (e₁, e₂) e₃
