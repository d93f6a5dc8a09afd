-- ===== src/Reconcilers/System/Managed.antt =====
-- The invariant of the clusters under the controller: all role bindings are of the form that it
-- makes, and all namespaces carry the label of an org.
use mathlib.Core.Path.{subst}
use auth_explore.Base.{String, ◌≡◌, refl, sym, ap, ◌∙◌, ◌⊎◌, inl, inr, some, List}
use auth_explore.Kube.{Namespace, RoleBinding, Client, Request}
use auth_explore.Kube.Server.{Cluster, IsServer}
use auth_explore.Kube.Tight.{IsTight}
use auth_explore.Reconcilers.{global_level, other_level}
use auth_explore.Reconcilers.Bindings.{role_binding}
use auth_explore.Reconcilers.Namespaces.{org_namespace}
use auth_explore.Reconcilers.Calls.Effects.{Calls-namespace}
use auth_explore.Reconcilers.Orgs
use auth_explore.Reconcilers.Orgs.{OrgReconciler}
use auth_explore.Reconcilers.Orgs.Rights as OrgRights
use auth_explore.Reconcilers.Orgs.Rights.{OrgBinds, of_member, of_global_user, OrgCreates, of_space}
use auth_explore.Reconcilers.GlobalUsers
use auth_explore.Reconcilers.GlobalUsers.{GlobalUserReconciler}
use auth_explore.Reconcilers.GlobalUsers.Rights as UserRights
use auth_explore.Reconcilers.GlobalUsers.Rights.{UserBinds, user_rights}
use auth_explore.Reconcilers.System.{After, start, org_turn, user_turn, edit}

-- A role binding as the controller makes them: for one user and one role, at one of the two levels,
-- and named after both.
pub record IsMade (rb : RoleBinding) : Type 0 where
  pub user : String
  pub role : String
  pub level : String
  pub its_level : (level ≡ global_level) ⊎ (level ≡ other_level)
  pub shape : rb ≡ role_binding user role level rb.namespace

pub record IsOrgNamespace (ns : Namespace) : Type 0 where
  pub org : String
  pub shape : ns ≡ org_namespace org ns.name

pub record IsManaged (k : Cluster) : Type 0 where
  pub made : (n j : String) (rb : RoleBinding) → k.bindings n j ≡ some rb → IsMade rb
  pub labelled : (j : String) (ns : Namespace) → k.namespaces j ≡ some ns → IsOrgNamespace ns

role_binding-IsMade :
    (user role level n : String) (rb : RoleBinding)
    → (level ≡ global_level) ⊎ (level ≡ other_level)
    → rb ≡ role_binding user role level n
    → IsMade rb
unfolding role_binding
role_binding-IsMade user role level n rb l e = record {
  user = user;
  role = role;
  level = level;
  its_level = l;
  shape =
      e
      ∙ ap (λ (m : String). role_binding user role level m)
          (sym (ap (λ (x : RoleBinding). x.namespace) e));
}

org_namespace-IsOrgNamespace :
    (org n : String) (ns : Namespace) → ns ≡ org_namespace org n → IsOrgNamespace ns
unfolding org_namespace
org_namespace-IsOrgNamespace org n ns e = record {
  org = org;
  shape = e ∙ ap (λ (m : String). org_namespace org m) (sym (ap (λ (x : Namespace). x.name) e));
}

module _ (C : Client) (field : String) (index : RoleBinding → List String)
    (S : IsServer C field index) (T : IsTight C field index S) where
  open C use {World, Conn}
  open S use {view}

  OrgBinds-IsMade :
      (r : OrgReconciler C) (q : Request) (w : World) (c : Conn) (rb : RoleBinding)
      → OrgBinds C r q w c rb
      → IsMade rb
  OrgBinds-IsMade r q w c rb (of_member s user role _ _ e) =
      role_binding-IsMade user.name role other_level _ rb (inr refl) e
  OrgBinds-IsMade r q w c rb (of_global_user s items user role _ _ _ e) =
      role_binding-IsMade user.name role global_level _ rb (inl refl) e

  org_turn-IsManaged :
      (r : OrgReconciler C) (q : Request) (w : World) (c : Conn)
      → IsManaged (view w c)
      → IsManaged (view (Orgs.reconcile C r q w).1 c)
  org_turn-IsManaged r q w c k = record {
    made = λ n j rb h. elim (OrgRights.reconcile-OrgBinds C field index S T r q w c n j rb h) [
      | inl before ↦ k.made n j rb before
      | inr new ↦ OrgBinds-IsMade r q w c rb new
    ];
    labelled = λ j ns h. elim (OrgRights.reconcile-OrgCreates C field index S T r q w c j ns h) [
      | inl before ↦ k.labelled j ns before
      | inr (of_space s e) ↦ org_namespace-IsOrgNamespace s.org.name _ ns e
    ];
  }

  user_turn-IsManaged :
      (r : GlobalUserReconciler C) (q : Request) (w : World) (c : Conn)
      → IsManaged (view w c)
      → IsManaged (view (GlobalUsers.reconcile C r q w).1 c)
  user_turn-IsManaged r q w c k = record {
    made = λ n j rb h. elim (UserRights.reconcile-UserBinds C field index S T r q w c n j rb h) [
      | inl before ↦ k.made n j rb before
      | inr new ↦
          role_binding-IsMade new.user.name new.role global_level new.namespace rb (inl refl)
            new.made
    ];
    labelled = λ j ns h.
        elim (Calls-namespace C field index S T (user_rights C r q w) c j ns
          (UserRights.reconcile-Calls C r q w) h) [
            | inl before ↦ k.labelled j ns before
            | inr never ↦ absurd never
          ];
  }

  -- In whatever order the two reconcilers take their turns, with whatever outcomes, and whatever edits
  -- of the resources come in between, a cluster stays as the controller makes it, if it was so in the
  -- beginning: every role binding binds one role, named in it, to one user, at the global or the other
  -- level, under the name that goes with these, and every namespace carries the label of an org.
  pub After-IsManaged :
      (o : OrgReconciler C) (u : GlobalUserReconciler C) (c : Conn) {w v : World}
      → IsManaged (view w c)
      → After C field index S o u w v
      → IsManaged (view v c)
  After-IsManaged o u c k start = k
  After-IsManaged o u c k (org_turn s q) = org_turn-IsManaged o q _ c (After-IsManaged o u c k s)
  After-IsManaged o u c k (user_turn s q) = user_turn-IsManaged u q _ c (After-IsManaged o u c k s)
  After-IsManaged o u c k (edit s v' e) =
      subst (λ x. IsManaged (x c)) (sym e) (After-IsManaged o u c k s)
