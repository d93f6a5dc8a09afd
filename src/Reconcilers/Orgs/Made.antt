-- ===== src/Reconcilers/Orgs/Made.antt =====
-- Spaces that reconcilers/org.go has made already.
use mathlib.Core.Option.{or_else, some-ne-none}
use auth_explore.Base.{
  String, ◌≡◌, refl, ◌≢◌, inl, inr, Option, none, some, false, List, [], ◌∷◌, ◌++◌, All, Bool-cases,
}
use auth_explore.Api.{User, Space, Org}
use auth_explore.Kube.{RoleBinding, already_exists}
use auth_explore.Kube.Server.{Cluster, live}
use auth_explore.Reconcilers.{
  Error, wrapped, api, create_role_binding_failed, global_level, other_level,
}
use auth_explore.Reconcilers.Bindings.{role_binding}
use auth_explore.Reconcilers.Bindings.Granting.{bindings_of, requested, Granted}
use auth_explore.Reconcilers.Orgs.{namespace_name}
use auth_explore.Reconcilers.Orgs.Placing.{Placed}

-- A role binding of this key is there.
abbrev pub Present : Cluster → RoleBinding → Type 0
Present k rb = k.bindings rb.namespace rb.name ≢ none

All-append : {A : Type 0} (P : A → Type 0) (xs ys : List A) → All P xs → All P ys → All P (xs ++ ys)
All-append P [] ys g h = h
All-append P (x ∷ xs) ys (p, g) h = (p, All-append P xs ys g h)

bindings_of-Present :
    (k : Cluster) (user : String) (roles : List String) (level namespace : String)
    → All
        (λ role.
          k.bindings namespace (role_binding user role level namespace).name
          ≡ some (role_binding user role level namespace))
        roles
    → All (Present k) (bindings_of user roles level namespace)
unfolding bindings_of role_binding
bindings_of-Present k user [] level namespace h = tt
bindings_of-Present k user (role ∷ roles) level namespace (e, h) =
    (rw e (some-ne-none _), bindings_of-Present k user roles level namespace h)

Granted-Present :
    (k : Cluster) (users : List User) (level namespace : String)
    → Granted users level namespace k
    → All (Present k) (requested users level namespace)
unfolding requested role_binding
Granted-Present k [] level namespace h = tt
Granted-Present k (user ∷ users) level namespace (g, h) =
    All-append (Present k) _ _ (bindings_of-Present k user.name user.roles level namespace g)
      (Granted-Present k users level namespace h)

-- A space that has been made: its namespace is there to stay, and its role bindings are there.
pub record Settled (org : Org) (global_users : List User) (space : Space) (k : Cluster)
    : Type 0 where
  pub there : live k (namespace_name org space) ≢ none
  pub global_bindings :
      All (Present k) (requested global_users global_level (namespace_name org space))
  pub other_bindings :
      All
        (Present k)
        (requested (org.spec.users ++ space.users) other_level (namespace_name org space))

pub cons-ne-nil : {A : Type 0} (x : A) (xs : List A) → x ∷ xs ≢ []
cons-ne-nil x xs e = cc e

pub live-there : (k : Cluster) (n : String) → live k n ≢ none → k.namespaces n ≢ none
live-there k n h e = elim (Bool-cases (k.deleting n)) [
  | inl t ↦ h (rw t refl)
  | inr t ↦ h (rw (t, e) refl)
]

or_else-some : {A : Type 0} (o : Option A) (x : A) → or_else o (some x) ≢ none
unfolding or_else
or_else-some none x = some-ne-none x
or_else-some (some y) x = some-ne-none y

pub Placed-Settled :
    (org : Org) (global_users : List User) (space : Space) (k k' : Cluster)
    → k.deleting (namespace_name org space) ≡ false
    → Placed org global_users space k k'
    → Settled org global_users space k'
Placed-Settled org global_users space k k' stays p = record {
  there = rw (p.its_end, stays) (rw p.its_namespace (or_else-some _ _));
  global_bindings = Granted-Present k' _ _ _ p.global_roles;
  other_bindings = Granted-Present k' _ _ _ p.other_roles;
}

-- The error of a role binding that is there already.
abbrev pub exists_already : Error
exists_already = wrapped create_role_binding_failed (api already_exists)
