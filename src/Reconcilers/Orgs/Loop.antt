-- ===== src/Reconcilers/Orgs/Loop.antt =====
-- The loop of `Reconcile` over the spaces of an org, in reconcilers/org.go.
use auth_explore.Base.{◌≡◌, refl, ap, ◌∙◌, none, some, List, [], ◌∷◌, ◌++◌, lookup, map}
use auth_explore.Base.Exec.{Result, ok, err}
use auth_explore.Api.{User, Space, Org, GlobalUser}
use auth_explore.Kube.{Client, Request}
use auth_explore.Reconcilers.{Error, unknown_cluster_context}
use auth_explore.Reconcilers.Orgs.{
  OrgReconciler, as_user, get_global_users, reconcile_space, reconcile_spaces, reconcile,
}

module _ (C : Client) (r : OrgReconciler C) (org : Org) (global_users : List User) where
  open C use {World, Conn}

  -- The clusters of all spaces are configured.
  abbrev pub Known : List Space → Type 0
  Known [] = Unit
  Known (space ∷ spaces) =
      ((cl : Conn) × (lookup space.cluster_name r.cluster_clients ≡ some cl)) × Known spaces

  -- The answers of the spaces before do not change what the loop does to the world.
  world-eq :
      (xs : List Space) (last last' : Result Error Unit) (w : World)
      → (reconcile_spaces C r org global_users xs last w).1
        ≡ (reconcile_spaces C r org global_users xs last' w).1
  unfolding reconcile_spaces
  world-eq [] last last' w = refl
  world-eq (x ∷ xs) last last' w = refl

  -- With all clusters known, the loop answers what its last space answers, in the world that the
  -- spaces before it left: their errors do not stop it and are not in the answer.
  pub reconcile_spaces-last :
      (xs : List Space) (space : Space) (cl : Conn) (last : Result Error Unit) (w : World)
      → Known xs
      → lookup space.cluster_name r.cluster_clients ≡ some cl
      → reconcile_spaces C r org global_users (xs ++ space ∷ []) last w
        ≡ reconcile_space C cl org space global_users
            (reconcile_spaces C r org global_users xs (ok tt) w).1
  unfolding reconcile_spaces
  reconcile_spaces-last [] space cl last w known e = rw (e, reconcile_spaces)
  reconcile_spaces-last (x ∷ xs) space cl last w ((cl', e'), known) e =
      rw (e', reconcile_spaces)
        (reconcile_spaces-last xs space cl _ _ known e
          ∙ ap (λ w'. reconcile_space C cl org space global_users w') (world-eq xs _ _ _))

  -- A space whose cluster is not known ends the loop with an error that names the cluster: the spaces
  -- before it have been worked on, and those behind it are not.
  pub reconcile_spaces-unknown :
      (xs : List Space) (space : Space) (ys : List Space) (last : Result Error Unit) (w : World)
      → Known xs
      → lookup space.cluster_name r.cluster_clients ≡ none
      → reconcile_spaces C r org global_users (xs ++ space ∷ ys) last w ≡ (
        err (unknown_cluster_context space.cluster_name),
        (reconcile_spaces C r org global_users xs last w).1,
      )
  unfolding reconcile_spaces
  reconcile_spaces-unknown [] space ys last w known e = rw (e, reconcile_spaces)
  reconcile_spaces-unknown (x ∷ xs) space ys last w ((cl', e'), known) e =
      rw (e', reconcile_spaces) (reconcile_spaces-unknown xs space ys _ _ known e)

module _ (C : Client) (r : OrgReconciler C) where
  open C use {World, Conn}

  -- `Reconcile` on an org that is found, with the global users listed and all clusters of its spaces
  -- configured, answers what `reconcileSpace` answers for the last space: an error of a space before
  -- it is dropped, so that the request counts as done.
  pub reconcile-last :
      (request : Request) (org : Org) (items : List GlobalUser) (xs : List Space) (space : Space)
      (cl : Conn) (w : World)
      → (C.get_org r.client request w).0 ≡ ok org
      → (C.list_global_users r.client (C.get_org r.client request w).1).0 ≡ ok items
      → org.spec.spaces ≡ xs ++ space ∷ []
      → Known C r org (map as_user items) xs
      → lookup space.cluster_name r.cluster_clients ≡ some cl
      → let w₁ = (C.list_global_users r.client (C.get_org r.client request w).1).1 in
        let w₂ = (reconcile_spaces C r org (map as_user items) xs (ok tt) w₁).1 in
        reconcile C r request w ≡ reconcile_space C cl org space (map as_user items) w₂
  unfolding reconcile get_global_users
  reconcile-last request org items xs space cl w found listed spaces known e =
      let users = map as_user items in
      let w₁ = (C.list_global_users r.client (C.get_org r.client request w).1).1 in
      let entered : reconcile C r request w
          ≡ reconcile_spaces C r org users org.spec.spaces (ok tt) w₁ =
        rw (found, listed, reconcile, get_global_users) in
      entered
      ∙ ap (λ l. reconcile_spaces C r org users l (ok tt) w₁) spaces
      ∙ reconcile_spaces-last C r org users xs space cl (ok tt) w₁ known e
