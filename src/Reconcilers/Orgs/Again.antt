-- ===== src/Reconcilers/Orgs/Again.antt =====
-- A second `Reconcile` of reconcilers/org.go.
use mathlib.Core.Path.{subst}
use auth_explore.Base.{
  String, ◌≡◌, refl, sym, ap, ◌∙◌, ◌≢◌, ◌⊎◌, inl, inr, none, some, List, [], ◌∷◌, ◌++◌, In, All,
  lookup, map,
}
use auth_explore.Base.Exec.{Result, ok, err}
use auth_explore.Api.{User, Space, Org, GlobalUser}
use auth_explore.Kube.{RoleBinding, Client, Request, already_exists}
use auth_explore.Kube.Server.{Cluster, live, Distinct, IsServer, IsHealthy}
use auth_explore.Reconcilers.{Error, global_level, other_level}
use auth_explore.Reconcilers.Bindings.{create_role_bindings}
use auth_explore.Reconcilers.Bindings.Granting.{requested, create_all, create_role_bindings-eq}
use auth_explore.Reconcilers.Bindings.Granting.Frame.{create_role_bindings-frame}
use auth_explore.Reconcilers.Bindings.Granting.Repeat.{
  create_all-taken, InNamespace, requested-InNamespace,
}
use auth_explore.Reconcilers.Namespaces.{org_namespace, create_namespace}
use auth_explore.Reconcilers.Orgs.{
  OrgReconciler, namespace_name, as_user, reconcile_space, reconcile_spaces, reconcile,
}
use auth_explore.Reconcilers.Orgs.Spaces.{space_bindings}
use auth_explore.Reconcilers.Orgs.Healthy.{create_namespace-ok}
use auth_explore.Reconcilers.Orgs.Elsewhere.{same_or_apart}
use auth_explore.Reconcilers.Orgs.Complete.{
  Separate, Waiting, before_loop, before_loop-view, reconcile-loop, reconcile_complete,
}
use auth_explore.Reconcilers.Orgs.Made.{
  Present, Settled, cons-ne-nil, live-there, Placed-Settled, exists_already,
}

module _ (C : Client) (field : String) (index : RoleBinding → List String)
    (S : IsServer C field index) (H : IsHealthy C field index S) where
  open C use {World, Conn}
  open S use {view}

  -- The call answers that an object is there already, and no cluster changes that is this one or
  -- known to be another.
  abbrev Stuck : Conn → World → Result Error Unit × World → Type 0
  Stuck cl w res =
      (res.0 ≡ err exists_already) × ((d : Conn) → (d ≡ cl) ⊎ (d ≢ cl) → view res.1 d ≡ view w d)

  abbrev AtOnce : Conn → List RoleBinding → World → Result Error Unit × World → Type 0
  AtOnce cl rbs w res =
      ((rbs ≡ []) × (res ≡ (ok tt, w)))
      ⊎ ((rbs ≢ []) × (res.0 ≡ err exists_already) × (view res.1 cl ≡ view w cl))

  create_all-AtOnce :
      (cl : Conn) (namespace : String) (rbs : List RoleBinding) (w : World)
      → InNamespace namespace rbs
      → live (view w cl) namespace ≢ none
      → All (Present (view w cl)) rbs
      → AtOnce cl rbs w (create_all C cl rbs w)
  unfolding create_all
  create_all-AtOnce cl namespace [] w same there present = inl (refl, refl)
  create_all-AtOnce cl namespace (rb ∷ rbs) w (here, same) there (present, _) =
      let (e, kept) = create_all-taken C field index S H cl namespace rb rbs w here there present in
      inr (cons-ne-nil rb rbs, e, kept)

  create_role_bindings-AtOnce :
      (cl : Conn) (users : List User) (level namespace : String) (w : World)
      → live (view w cl) namespace ≢ none
      → All (Present (view w cl)) (requested users level namespace)
      → AtOnce cl
          (requested users level namespace)
          w
          (create_role_bindings C cl users level namespace w)
  create_role_bindings-AtOnce cl users level namespace w there present =
      rw create_role_bindings-eq (
        create_all-AtOnce cl namespace _ w (requested-InNamespace users level namespace) there
          present)

  here_or_apart :
      (cl d : Conn) (w w' : World)
      → view w' cl ≡ view w cl
      → (d ≢ cl → view w' d ≡ view w d)
      → (d ≡ cl) ⊎ (d ≢ cl)
      → view w' d ≡ view w d
  here_or_apart cl d w w' here far (inl e) = subst (λ c. view w' c ≡ view w c) (sym e) here
  here_or_apart cl d w w' here far (inr differ) = far differ

  create_namespace_again :
      (cl : Conn) (org : Org) (namespace : String) (w : World)
      → live (view w cl) namespace ≢ none
      → (d : Conn) → (d ≡ cl) ⊎ (d ≢ cl)
      → view (create_namespace C cl org namespace w).1 d ≡ view w d
  unfolding create_namespace org_namespace
  create_namespace_again cl org namespace w there d =
      let ns = org_namespace org.name namespace in
      here_or_apart cl d w _
        (S.create_namespace_err cl ns w already_exists
          (H.create_namespace_taken cl ns w (live-there (view w cl) namespace there)))
        (S.create_namespace_frame cl ns w d)

  create_role_bindings_quiet :
      (cl : Conn) (users : List User) (level namespace : String) (w : World)
      → view (create_role_bindings C cl users level namespace w).1 cl ≡ view w cl
      → (d : Conn) → (d ≡ cl) ⊎ (d ≢ cl)
      → view (create_role_bindings C cl users level namespace w).1 d ≡ view w d
  create_role_bindings_quiet cl users level namespace w kept d =
      here_or_apart cl d w _ kept
        (create_role_bindings-frame C field index S cl d users level namespace w)

  reconcile_space-Stuck :
      (cl : Conn) (org : Org) (space : Space) (global_users : List User) (w : World)
      → Settled org global_users space (view w cl)
      → space_bindings org space global_users ≢ []
      → Stuck cl w (reconcile_space C cl org space global_users w)
  unfolding reconcile_space
  reconcile_space-Stuck cl org space global_users w s some_binding =
      let namespace = namespace_name org space in
      let users = org.spec.users ++ space.users in
      let w₁ = (create_namespace C cl org namespace w).1 in
      let e₁ = create_namespace-ok C field index S H cl org namespace w in
      let same₁ = create_namespace_again cl org namespace w s.there in
      let at : view w₁ cl ≡ view w cl = same₁ cl (inl refl) in
      let move = λ (P : Cluster → Type 0) (p : P (view w cl)). subst P (sym at) p in
      let there₁ = move (λ k. live k namespace ≢ none) s.there in
      elim (create_role_bindings-AtOnce cl global_users global_level namespace w₁ there₁ (
        move (λ k. All (Present k) (requested global_users global_level namespace))
          s.global_bindings)) [
            | inr (_, e₂, kept) ↦
                rw (e₁, e₂)
                  (
                    refl,
                    λ d apart.
                        create_role_bindings_quiet cl global_users global_level namespace w₁ kept d
                          apart
                        ∙ same₁ d apart,
                  )
            | inl (empty, e₂) ↦
                elim (create_role_bindings-AtOnce cl users other_level namespace w₁ there₁ (
                  move (λ k. All (Present k) (requested users other_level namespace))
                    s.other_bindings)) [
                      | inl (empty', _) ↦ absurd (some_binding (rw (empty, empty') refl))
                      | inr (_, e₃, kept) ↦
                          rw (e₁, e₂)
                            (
                              e₃,
                              λ d apart.
                                  create_role_bindings_quiet cl users other_level namespace w₁ kept
                                    d apart
                                  ∙ same₁ d apart,
                            )
                    ]
          ]

  module _ (r : OrgReconciler C) (org : Org) (global_users : List User) where
    -- A space that has been made in its cluster, and that asks for a role binding.
    record Ripe (space : Space) (w : World) : Type 0 where
      cl : Conn
      its_cluster : lookup space.cluster_name r.cluster_clients ≡ some cl
      settled : Settled org global_users space (view w cl)
      asks : space_bindings org space global_users ≢ []

    abbrev Unchanged : World → World → Type 0
    Unchanged w w' =
        (cluster_name : String) (d : Conn)
        → lookup cluster_name r.cluster_clients ≡ some d
        → view w' d ≡ view w d

    Ripe-still : (s : Space) (w w' : World) → Unchanged w w' → Ripe s w → Ripe s w'
    Ripe-still s w w' same x = record {
      cl = x.cl;
      its_cluster = x.its_cluster;
      settled =
          subst (Settled org global_users s) (sym (same s.cluster_name x.cl x.its_cluster))
            x.settled;
      asks = x.asks;
    }

    reconcile_spaces-Stuck :
        (spaces : List Space) (last : Result Error Unit) (w : World)
        → Distinct r.cluster_clients
        → ((s : Space) → In s spaces → Ripe s w)
        → (last ≡ err exists_already) ⊎ (spaces ≢ [])
        → let res = reconcile_spaces C r org global_users spaces last w in
          (res.0 ≡ err exists_already) × Unchanged w res.1
    unfolding reconcile_spaces
    reconcile_spaces-Stuck [] last w distinct ripe (inl e) = (e, λ b d f. refl)
    reconcile_spaces-Stuck [] last w distinct ripe (inr some_space) = absurd (some_space refl)
    reconcile_spaces-Stuck (s ∷ spaces) last w distinct ripe _ =
        let x = ripe s (inl refl) in
        let w₁ = (reconcile_space C x.cl org s global_users w).1 in
        let (e, quiet) = reconcile_space-Stuck x.cl org s global_users w x.settled x.asks in
        let same : Unchanged w w₁ = λ b d f.
          quiet d
            (same_or_apart r.cluster_clients s.cluster_name b x.cl d distinct x.its_cluster f) in
        let (e', same') =
          reconcile_spaces-Stuck spaces (err exists_already) w₁ distinct
            (λ t i. Ripe-still t w w₁ same (ripe t (inr i))) (inl refl) in
        rw (x.its_cluster, e, reconcile_spaces) (e', λ b d f. same' b d f ∙ same b d f)

  -- Once a `Reconcile` on an org has made all its spaces, as it does on healthy servers under the
  -- conditions of `reconcile_complete`, the next `Reconcile` on the unchanged org, with the same global
  -- users, returns "already exists" and changes nothing in any configured cluster, if the org has a
  -- space and each of its spaces asks for a role binding.
  pub reconcile-again :
      (r : OrgReconciler C) (request : Request) (org : Org) (items : List GlobalUser) (w : World)
      → (C.get_org r.client request w).0 ≡ ok org
      → (C.list_global_users r.client (C.get_org r.client request w).1).0 ≡ ok items
      → Distinct r.cluster_clients
      → Separate org org.spec.spaces
      → ((space : Space)
          → In space org.spec.spaces
          → Waiting C field index S r org (map as_user items) space w)
      → org.spec.spaces ≢ []
      → ((space : Space)
          → In space org.spec.spaces
          → space_bindings org space (map as_user items) ≢ [])
      → let w' = (reconcile C r request w).1 in
        (C.get_org r.client request w').0 ≡ ok org
        → (C.list_global_users r.client (C.get_org r.client request w').1).0 ≡ ok items
        → ((reconcile C r request w').0 ≡ err exists_already)
          × ((cluster_name : String) (d : Conn)
              → lookup cluster_name r.cluster_clients ≡ some d
              → view (reconcile C r request w').1 d ≡ view w' d)
  reconcile-again r request org items w found listed distinct separate waits some_space asks found'
        listed' =
      let users = map as_user items in
      let w' = (reconcile C r request w).1 in
      let w₁ = before_loop C field index S H r request w' in
      let (_, placed) =
        reconcile_complete C field index S H r request org items w found listed distinct separate
          waits in
      let seen : (d : Conn) → view w₁ d ≡ view w' d =
        λ d. ap (λ (v : Conn → Cluster). v d) (before_loop-view C field index S H r request w') in
      let ripe : (s : Space) → In s org.spec.spaces → Ripe r org users s w₁ = λ s i.
        let x = waits s i in
        Ripe-still r org users s w' w₁ (λ b d f. seen d)
          (record {
            cl = x.cl;
            its_cluster = x.its_cluster;
            settled =
                Placed-Settled org users s (view w x.cl) (view w' x.cl) x.stays
                  (placed s x.cl i x.its_cluster);
            asks = asks s i;
          }) in
      let (e, same) =
        reconcile_spaces-Stuck r org users org.spec.spaces (ok tt) w₁ distinct ripe
          (inr some_space) in
      rw (reconcile-loop C field index S H r request org items w' found' listed')
        (e, λ b d f. same b d f ∙ seen d)
