-- ===== src/Reconcilers/Orgs/Placing.antt =====
-- A space that `Reconcile` of reconcilers/org.go has made.
use mathlib.Core.Option.{or_else}
use auth_explore.Base.{String, ◌≡◌, sym, ◌∙◌, some, List, ◌++◌, All-map}
use auth_explore.Api.{User, Space, Org}
use auth_explore.Kube.Server.{Cluster}
use auth_explore.Reconcilers.{global_level, other_level}
use auth_explore.Reconcilers.Bindings.Granting.{Granted}
use auth_explore.Reconcilers.Namespaces.{org_namespace}
use auth_explore.Reconcilers.Orgs.{namespace_name}
use auth_explore.Reconcilers.Orgs.Elsewhere.{Unmoved}

-- The namespace of the space is there, new with the org's label or as it was before, and all roles of
-- the global users and of the users of the org and of the space are given in it. It is on its way out
-- if it was before.
pub record Placed (org : Org) (global_users : List User) (space : Space) (k k' : Cluster)
    : Type 0 where
  pub its_namespace :
      k'.namespaces (namespace_name org space)
      ≡ or_else
          (k.namespaces (namespace_name org space))
          (some (org_namespace org.name (namespace_name org space)))
  pub its_end : k'.deleting (namespace_name org space) ≡ k.deleting (namespace_name org space)
  pub global_roles : Granted global_users global_level (namespace_name org space) k'
  pub other_roles :
      Granted (org.spec.users ++ space.users) other_level (namespace_name org space) k'

Granted-inside :
    (users : List User) (level n : String) (k k' : Cluster)
    → ((j : String) → k'.bindings n j ≡ k.bindings n j)
    → Granted users level n k
    → Granted users level n k'
Granted-inside users level n k k' same =
    All-map users λ user. All-map user.roles λ role e. same _ ∙ e

-- What happens before and after to other namespaces does not count.
pub Placed-before :
    (org : Org) (global_users : List User) (space : Space) (k k₁ k' : Cluster)
    → Unmoved (namespace_name org space) k k₁
    → Placed org global_users space k₁ k'
    → Placed org global_users space k k'
Placed-before org global_users space k k₁ k' same p = record {
  its_namespace = rw (sym same.here) p.its_namespace;
  its_end = p.its_end ∙ same.its_end;
  global_roles = p.global_roles;
  other_roles = p.other_roles;
}

pub Placed-after :
    (org : Org) (global_users : List User) (space : Space) (k k₁ k' : Cluster)
    → Placed org global_users space k k₁
    → Unmoved (namespace_name org space) k₁ k'
    → Placed org global_users space k k'
Placed-after org global_users space k k₁ k' p same = record {
  its_namespace = same.here ∙ p.its_namespace;
  its_end = same.its_end ∙ p.its_end;
  global_roles = Granted-inside global_users global_level _ k₁ k' same.inside p.global_roles;
  other_roles =
      Granted-inside (org.spec.users ++ space.users) other_level _ k₁ k' same.inside p.other_roles;
}
