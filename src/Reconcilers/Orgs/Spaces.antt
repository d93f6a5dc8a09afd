-- ===== src/Reconcilers/Orgs/Spaces.antt =====
-- What `reconcileSpace` of reconcilers/org.go leaves in the cluster of a space.
use mathlib.Core.Option.{or_else}
use auth_explore.Base.{
  String, ◌≡◌, refl, none, some, Option, List, [], ◌∷◌, ◌++◌, inl, inr, arith, ◌==◌, if◌then◌else◌,
  eq_iff,
}
use auth_explore.Base.Exec.{ok, >>=-eq-ok}
use auth_explore.Api.{User, Space, Org}
use auth_explore.Kube.{RoleBinding, Client}
use auth_explore.Kube.Server.{Cluster, IsServer}
use auth_explore.Reconcilers.{global_level, other_level}
use auth_explore.Reconcilers.Bindings.{create_role_bindings}
use auth_explore.Reconcilers.Bindings.Granting.{requested, binding_at, Granted, Kept-Granted}
use auth_explore.Reconcilers.Bindings.Granting.Success.{
  create_role_bindings-grants, create_role_bindings-Kept,
}
use auth_explore.Reconcilers.Bindings.Granting.Frame.{create_role_bindings-namespaces}
use auth_explore.Reconcilers.Namespaces.{org_namespace, create_namespace}
use auth_explore.Reconcilers.Namespaces.Creation.{Created, create_namespace-Created}
use auth_explore.Reconcilers.Orgs.{namespace_name, reconcile_space}

-- The role bindings of a space: those of the global users, then those of the users of the org and of
-- the space.
abbrev pub space_bindings : Org → Space → List User → List RoleBinding
space_bindings org space global_users =
    requested global_users global_level (namespace_name org space)
    ++ requested (org.spec.users ++ space.users) other_level (namespace_name org space)

pub binding_at-append :
    (n j : String) (xs ys : List RoleBinding)
    → binding_at n j (xs ++ ys) ≡ or_else (binding_at n j xs) (binding_at n j ys)
unfolding or_else
binding_at-append n j [] ys = refl
binding_at-append n j (x ∷ xs) ys = ground (arith, binding_at-append n j xs ys)

pub or_else_assoc :
    {A : Type 0} (a b c : Option A) → or_else (or_else a b) c ≡ or_else a (or_else b c)
unfolding or_else
or_else_assoc none b c = refl
or_else_assoc (some x) b c = refl

Created-bindings :
    (org namespace : String) {k k' : Cluster}
    → Created org namespace k k'
    → k'.bindings ≡ k.bindings
Created-bindings org namespace (inl (_, e)) = rw e
Created-bindings org namespace (inr (_, e)) = rw e

Created-namespaces :
    (org namespace : String) {k k' : Cluster} (j : String)
    → Created org namespace k k'
    → k'.namespaces j
      ≡ or_else
          (k.namespaces j)
          (if j == namespace then some (org_namespace org namespace) else none)
unfolding or_else org_namespace
Created-namespaces org namespace {k} j (inl (absent, e)) = rw e (ground (arith, eq_iff j namespace))
Created-namespaces org namespace {k} j (inr (there, e)) = rw e (ground (arith, eq_iff j namespace))

module _ (C : Client) (field : String) (index : RoleBinding → List String)
    (S : IsServer C field index) where
  open C use {World, Conn}
  open S use {view}

  -- `reconcileSpace` returns no error only if the namespace of the space is there afterwards, new
  -- with the org's label or as it was, and no other namespace is touched; every role of the global
  -- users is given at the global level and every role of the org's and the space's users at the
  -- other level; and under every key stands what stood there before, or else what was asked for.
  pub reconcile_space-ready :
      (cl : Conn) (org : Org) (space : Space) (global_users : List User) (w : World)
      (i n j : String)
      → (reconcile_space C cl org space global_users w).0 ≡ ok tt
      → let k = view w cl in
        let k' = view (reconcile_space C cl org space global_users w).1 cl in
        let namespace = namespace_name org space in
        (k'.namespaces i
          ≡ or_else
              (k.namespaces i)
              (if i == namespace then some (org_namespace org.name namespace) else none))
        × Granted global_users global_level namespace k'
        × Granted (org.spec.users ++ space.users) other_level namespace k'
        × (k'.bindings n j
            ≡ or_else (k.bindings n j) (binding_at n j (space_bindings org space global_users)))
  unfolding reconcile_space
  reconcile_space-ready cl org space global_users w i n j h =
      let namespace = namespace_name org space in
      let users = org.spec.users ++ space.users in
      let (_, e₁, h₁, s₁) = >>=-eq-ok (create_namespace C cl org namespace) _ w h in
      let (_, e₂, h₂, s₂) =
        >>=-eq-ok (create_role_bindings C cl global_users global_level namespace) _ _ h₁ in
      let w₁ = (create_namespace C cl org namespace w).1 in
      let w₂ = (create_role_bindings C cl global_users global_level namespace w₁).1 in
      let made = create_namespace-Created C field index S cl org namespace w e₁ in
      let same₁ =
        create_role_bindings-namespaces C field index S cl global_users global_level namespace w₁ in
      let same₂ =
        create_role_bindings-namespaces C field index S cl users other_level namespace w₂ in
      let given₁ = λ (a b : String).
        create_role_bindings-grants C field index S cl global_users global_level namespace w₁ a b
          e₂ in
      let given₂ = λ (a b : String).
        create_role_bindings-grants C field index S cl users other_level namespace w₂ a b h₂ in
      let w₃ = (create_role_bindings C cl users other_level namespace w₂).1 in
      let kept = create_role_bindings-Kept C field index S cl users other_level namespace w₂ h₂ in
      rw (s₁, s₂)
        (
          rw (same₂.0, same₁.0) (Created-namespaces org.name namespace i made),
          Kept-Granted global_users global_level namespace (view w₂ cl) (view w₃ cl) kept
              (given₁ n j).0,
          (given₂ n j).0,
          rw
              (
                (given₂ n j).1,
                (given₁ n j).1,
                Created-bindings org.name namespace made,
                binding_at-append,
              )
              (or_else_assoc _ _ _),
        )
