-- ===== src/Reconcilers/Orgs/Complete.antt =====
-- `Reconcile` of reconcilers/org.go on healthy servers: every space of the org is made.
use mathlib.Core.Option.{some-injective}
use mathlib.Core.Path.{subst}
use auth_explore.Base.{
  String, ◌≡◌, refl, sym, ap, ◌∙◌, ◌≢◌, inl, inr, some, false, List, [], ◌∷◌, In, lookup, map,
  eq_self,
}
use auth_explore.Base.Exec.{Result, ok}
use auth_explore.Api.{User, Space, Org, GlobalUser}
use auth_explore.Kube.{RoleBinding, Client, Request}
use auth_explore.Kube.Server.{Cluster, Distinct, IsServer, IsHealthy}
use auth_explore.Reconcilers.{Error}
use auth_explore.Reconcilers.Bindings.Granting.{AllFresh}
use auth_explore.Reconcilers.Orgs.{
  OrgReconciler, namespace_name, as_user, get_global_users, reconcile_space, reconcile_spaces,
  reconcile,
}
use auth_explore.Reconcilers.Orgs.Spaces.{space_bindings, reconcile_space-ready}
use auth_explore.Reconcilers.Orgs.Healthy.{reconcile_space-ok}
use auth_explore.Reconcilers.Orgs.Elsewhere.{
  Unmoved, Unmoved-same, Unmoved-trans, Unmoved-AllFresh, space_bindings-InNamespace, same_or_apart,
  reconcile_space-Unmoved, reconcile_space-deleting,
}
use auth_explore.Reconcilers.Orgs.Placing.{Placed, Placed-before, Placed-after}

-- No two of the spaces have one namespace name.
abbrev pub Separate : Org → List Space → Type 0
Separate org [] = Unit
Separate org (s ∷ spaces) =
    ((t : Space) → In t spaces → namespace_name org t ≢ namespace_name org s) × Separate org spaces

module _ (C : Client) (field : String) (index : RoleBinding → List String)
    (S : IsServer C field index) (r : OrgReconciler C) (org : Org) (global_users : List User) where
  open C use {World, Conn}
  open S use {view}

  -- The cluster of the space is configured, its namespace is not being deleted, and none of its role
  -- bindings is there already or asked for twice.
  pub record Waiting (space : Space) (w : World) : Type 0 where
    pub cl : Conn
    pub its_cluster : lookup space.cluster_name r.cluster_clients ≡ some cl
    pub stays : (view w cl).deleting (namespace_name org space) ≡ false
    pub fresh : AllFresh (space_bindings org space global_users) (view w cl)

  pub record Outcome (spaces : List Space) (w w' : World) : Type 0 where
    pub placed :
        (space : Space) (cl : Conn)
        → In space spaces
        → lookup space.cluster_name r.cluster_clients ≡ some cl
        → Placed org global_users space (view w cl) (view w' cl)
    pub others :
        (m cluster_name : String) (cl : Conn)
        → lookup cluster_name r.cluster_clients ≡ some cl
        → ((space : Space) → In space spaces → m ≢ namespace_name org space)
        → Unmoved m (view w cl) (view w' cl)

  -- Every space in its turn is worked on without an error.
  pub data Smooth : List Space → World → Type 0 where
    done : {w : World} → Smooth [] w
    turn :
        {space : Space} {spaces : List Space} {w : World} (cl : Conn)
        → lookup space.cluster_name r.cluster_clients ≡ some cl
        → (reconcile_space C cl org space global_users w).0 ≡ ok tt
        → Smooth spaces (reconcile_space C cl org space global_users w).1
        → Smooth (space ∷ spaces) w

  pub Waiting-still :
      (space : Space) (w w' : World) (x : Waiting space w)
      → Unmoved (namespace_name org space) (view w x.cl) (view w' x.cl)
      → Waiting space w'
  Waiting-still space w w' x same = record {
    cl = x.cl;
    its_cluster = x.its_cluster;
    stays = same.its_end ∙ x.stays;
    fresh =
        Unmoved-AllFresh (namespace_name org space) _ (view w x.cl) (view w' x.cl)
          (space_bindings-InNamespace org space global_users) same.inside x.fresh;
  }

  reconcile_space-Placed :
      (cl : Conn) (space : Space) (w : World)
      → (reconcile_space C cl org space global_users w).0 ≡ ok tt
      → Placed org global_users space
          (view w cl)
          (view (reconcile_space C cl org space global_users w).1 cl)
  reconcile_space-Placed cl space w h =
      let n = namespace_name org space in
      let ready = reconcile_space-ready C field index S cl org space global_users w n n n h in
      record {
        its_namespace = rw (eq_self n) at ready.0;
        its_end =
            ap (λ (f : String → _). f n)
              (reconcile_space-deleting C field index S cl org space global_users w h);
        global_roles = ready.1;
        other_roles = ready.2;
      }

  Outcome-cons :
      (space : Space) (spaces : List Space) (cl : Conn) (w w₁ w' : World)
      → lookup space.cluster_name r.cluster_clients ≡ some cl
      → Separate org (space ∷ spaces)
      → Placed org global_users space (view w cl) (view w₁ cl)
      → ((m cluster_name : String) (d : Conn)
          → lookup cluster_name r.cluster_clients ≡ some d
          → m ≢ namespace_name org space
          → Unmoved m (view w d) (view w₁ d))
      → Outcome spaces w₁ w'
      → Outcome (space ∷ spaces) w w'
  Outcome-cons space spaces cl w w₁ w' e (apart, separate) p same rest = record {
    placed = λ s d m f. elim m [
      | inl q ↦
          let d_cl : d ≡ cl = some-injective _ _ (sym f ∙ rw q e) in
          subst (λ t. Placed org global_users t (view w d) (view w' d)) (sym q)
            (subst (λ c. Placed org global_users space (view w c) (view w' c)) (sym d_cl)
              (Placed-after org global_users space (view w cl) (view w₁ cl) (view w' cl) p (
                rest.others (namespace_name org space) space.cluster_name cl e
                  (λ t i x. apart t i (sym x)))))
      | inr i ↦
          Placed-before org global_users s (view w d) (view w₁ d) (view w' d)
            (same (namespace_name org s) s.cluster_name d f (apart s i)) (rest.placed s d i f)
    ];
    others = λ m b d f far.
        Unmoved-trans m (view w d) (view w₁ d) (view w' d) (same m b d f (far space (inl refl)))
          (rest.others m b d f (λ t i. far t (inr i)));
  }

  pub reconcile_spaces_complete :
      (H : IsHealthy C field index S) (spaces : List Space) (w : World)
      → Distinct r.cluster_clients
      → Separate org spaces
      → ((space : Space) → In space spaces → Waiting space w)
      → let res = reconcile_spaces C r org global_users spaces (ok tt) w in
        (res.0 ≡ ok tt) × Outcome spaces w res.1 × Smooth spaces w
  unfolding reconcile_spaces
  reconcile_spaces_complete H [] w distinct separate waits = (
    refl,
    record { placed = λ space cl m. absurd m; others = λ m b cl e apart. Unmoved-same m _ _ refl },
    done,
  )
  reconcile_spaces_complete H (space ∷ spaces) w distinct separate waits =
      let x = waits space (inl refl) in
      let (apart, further) = separate in
      let w₁ = (reconcile_space C x.cl org space global_users w).1 in
      let h = reconcile_space-ok C field index S H x.cl org space global_users w x.stays x.fresh in
      let same =
        λ (m b : String) (d : Conn) (f : lookup b r.cluster_clients ≡ some d)
            (far : m ≢ namespace_name org space).
          reconcile_space-Unmoved C field index S x.cl d org space global_users w m
            (same_or_apart r.cluster_clients space.cluster_name b x.cl d distinct x.its_cluster f)
            far h in
      let still = λ (t : Space) (i : In t spaces).
        let y = waits t (inr i) in
        Waiting-still t w w₁ y
          (same (namespace_name org t) t.cluster_name y.cl y.its_cluster (apart t i)) in
      let (e, rest, smooth) = reconcile_spaces_complete H spaces w₁ distinct further still in
      rw (x.its_cluster, h, reconcile_spaces)
        (
          e,
          Outcome-cons space spaces x.cl w w₁ _ x.its_cluster separate
              (reconcile_space-Placed x.cl space w h) same rest,
          turn x.cl x.its_cluster h smooth,
        )

module _ (C : Client) (field : String) (index : RoleBinding → List String)
    (S : IsServer C field index) (H : IsHealthy C field index S) (r : OrgReconciler C) where
  open C use {World, Conn}
  open S use {view}

  -- The world in which the loop over the spaces begins.
  abbrev pub before_loop : Request → World → World
  before_loop request w = (C.list_global_users r.client (C.get_org r.client request w).1).1

  pub before_loop-view : (request : Request) (w : World) → view (before_loop request w) ≡ view w
  before_loop-view request w =
      S.list_global_users_view r.client (C.get_org r.client request w).1
      ∙ S.get_org_view r.client request w

  pub reconcile-loop :
      (request : Request) (org : Org) (items : List GlobalUser) (w : World)
      → (C.get_org r.client request w).0 ≡ ok org
      → (C.list_global_users r.client (C.get_org r.client request w).1).0 ≡ ok items
      → reconcile C r request w
        ≡ reconcile_spaces C r org
            (map as_user items)
            org.spec.spaces
            (ok tt)
            (before_loop request w)
  unfolding reconcile get_global_users
  reconcile-loop request org items w found listed = rw (found, listed, reconcile, get_global_users)

  -- What the loop comes to, from what holds before the org is read.
  pub loop_complete :
      (request : Request) (org : Org) (global_users : List User) (w : World)
      → Distinct r.cluster_clients
      → Separate org org.spec.spaces
      → ((space : Space)
          → In space org.spec.spaces
          → Waiting C field index S r org global_users space w)
      → let w₁ = before_loop request w in
        let res = reconcile_spaces C r org global_users org.spec.spaces (ok tt) w₁ in
        (res.0 ≡ ok tt)
        × Outcome C field index S r org global_users org.spec.spaces w₁ res.1
        × Smooth C field index S r org global_users org.spec.spaces w₁
  loop_complete request org global_users w distinct separate waits =
      reconcile_spaces_complete C field index S r org global_users H org.spec.spaces _ distinct
        separate
        (λ space i.
          let x = waits space i in
          Waiting-still C field index S r org global_users space w _ x (
            Unmoved-same (namespace_name org space) _ _
              (ap (λ (v : Conn → Cluster). v x.cl) (before_loop-view request w))))

  -- On healthy servers, with every configured cluster behind a client of its own, `Reconcile` on an
  -- org that is found, with the global users listed, returns no error and makes every space of the
  -- org in its cluster: the namespace is there, new with the org's label or as it was before, and all
  -- roles of the global users and of the users of the org and of the space are given in it. The
  -- namespace names of the spaces must differ, and for each space the cluster must be configured, the
  -- namespace not being deleted, and none of its role bindings be there already or asked for twice.
  pub reconcile_complete :
      (request : Request) (org : Org) (items : List GlobalUser) (w : World)
      → (C.get_org r.client request w).0 ≡ ok org
      → (C.list_global_users r.client (C.get_org r.client request w).1).0 ≡ ok items
      → Distinct r.cluster_clients
      → Separate org org.spec.spaces
      → ((space : Space)
          → In space org.spec.spaces
          → Waiting C field index S r org (map as_user items) space w)
      → ((reconcile C r request w).0 ≡ ok tt)
        × ((space : Space) (cl : Conn)
            → In space org.spec.spaces
            → lookup space.cluster_name r.cluster_clients ≡ some cl
            → Placed org
                (map as_user items)
                space
                (view w cl)
                (view (reconcile C r request w).1 cl))
  reconcile_complete request org items w found listed distinct separate waits =
      let users = map as_user items in
      let entered = reconcile-loop request org items w found listed in
      let (e, out, _) = loop_complete request org users w distinct separate waits in
      (
        ap (λ (p : Result Error Unit × World). p.0) entered ∙ e,
        λ space cl i f.
            subst
              (λ (p : Result Error Unit × World). Placed org users space (view w cl) (view p.1 cl))
              (sym entered)
              (Placed-before org users space (view w cl) (view (before_loop request w) cl) _
                (Unmoved-same (namespace_name org space) _ _
                  (ap (λ (v : Conn → Cluster). v cl) (before_loop-view request w)))
                (out.placed space cl i f)),
      )
