-- ===== src/Reconcilers/System.antt =====
-- The two reconcilers of the controller at work on the same clusters, in any order.
pub mod Managed
pub mod Forgotten
pub mod Clash
use auth_explore.Base.{String, ◌≡◌, List}
use auth_explore.Kube.{RoleBinding, Client, Request}
use auth_explore.Kube.Server.{IsServer}
use auth_explore.Reconcilers.Orgs
use auth_explore.Reconcilers.Orgs.{OrgReconciler}
use auth_explore.Reconcilers.GlobalUsers
use auth_explore.Reconcilers.GlobalUsers.{GlobalUserReconciler}

module _ (C : Client) (field : String) (index : RoleBinding → List String)
    (S : IsServer C field index) (o : OrgReconciler C) (u : GlobalUserReconciler C) where
  open C use {World}
  open S use {view}

  -- The worlds that come after `w`. Each turn is a whole `Reconcile`, of any request and with any
  -- outcome; in between, the resources of the management cluster may be edited, by which the
  -- namespaces and role bindings of the clusters are left alone.
  pub data After (w : World) : World → Type 0 where
    start : After w w
    org_turn : {v : World} → After w v → (q : Request) → After w (Orgs.reconcile C o q v).1
    user_turn : {v : World} → After w v → (q : Request) → After w (GlobalUsers.reconcile C u q v).1
    edit : {v : World} → After w v → (v' : World) → view v' ≡ view v → After w v'
