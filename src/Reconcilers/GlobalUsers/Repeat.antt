-- ===== src/Reconcilers/GlobalUsers/Repeat.antt =====
-- `Reconcile` of reconcilers/global_user.go where a role binding of the user is there already.
use mathlib.Core.Option.{some-ne-none}
use mathlib.Core.Path.{subst}
use auth_explore.Base.{
  String, ◌≡◌, refl, sym, ap, ◌∙◌, ◌≢◌, none, some, true, List, [], ◌∷◌, In, inl, inr, arith,
  eq_iff,
}
use auth_explore.Base.Exec.{ok, >>=-eq-ok}
use auth_explore.Api.{GlobalUser}
use auth_explore.Kube.{Namespace, RoleBinding, Client, Request, has_label}
use auth_explore.Kube.Server.{Cluster, IsServer, Distinct, ne-of_Apart}
use auth_explore.Reconcilers.{org_label, global_level, wrap-eq-ok, reconcile_global_user_failed}
use auth_explore.Reconcilers.Bindings.{binding_name, role_binding}
use auth_explore.Reconcilers.Bindings.Granting.{requested, AllFresh, cons}
use auth_explore.Reconcilers.Bindings.Granting.Success.{
  complete, create_role_bindings-Effect, In-requested,
}
use auth_explore.Reconcilers.GlobalUsers.{
  GlobalUserReconciler, reconcile_global_user_in_namespace, grant_in_all, grant_everywhere,
  reconcile,
}
use auth_explore.Reconcilers.GlobalUsers.Grants.{
  user_of, grant_one, grant_one-ok, list_one, list_one-ok, list_one-view, turn, turn-frame,
}

-- A role binding that is made along with others was not there.
AllFresh-absent :
    (rbs : List RoleBinding) {k : Cluster} (rb : RoleBinding)
    → AllFresh rbs k
    → In rb rbs
    → k.bindings rb.namespace rb.name ≡ none
AllFresh-absent [] rb f m = absurd m
AllFresh-absent (x ∷ rbs) {k} rb (cons f fs) (inl e) =
    subst (λ (y : RoleBinding). k.bindings y.namespace y.name ≡ none) (sym e) f
AllFresh-absent (x ∷ rbs) rb (cons f fs) (inr m) =
    let later = AllFresh-absent rbs rb fs m in
    ground (arith, eq_iff rb.namespace x.namespace, eq_iff rb.name x.name)

module _ (C : Client) (field : String) (index : RoleBinding → List String)
    (S : IsServer C field index) (g : GlobalUser) (role : String)
    (given : In role g.spec.roles) where
  open C use {World, Conn}
  open S use {view}

  -- The role binding of the role is there in this namespace.
  abbrev Taken : String → RoleBinding → Cluster → Type 0
  Taken namespace rb k = k.bindings namespace (binding_name g.name role) ≡ some rb

  grant_one-Taken :
      (cl : Conn) (cf_ns : String) (rb : RoleBinding) (w : World)
      → Taken cf_ns rb (view w cl)
      → (grant_one C field index S g cl cf_ns w).0 ≢ ok tt
  unfolding reconcile_global_user_in_namespace role_binding
  grant_one-Taken cl cf_ns rb w taken h =
      let e = wrap-eq-ok (reconcile_global_user_failed g.name cf_ns) _ h in
      let users = user_of g ∷ [] in
      let (fresh, _) =
        complete C field index S
          (rw e at (create_role_bindings-Effect C field index S cl users global_level cf_ns w)) in
      let m = In-requested (user_of g) role global_level cf_ns users (inl refl) given in
      let absent = AllFresh-absent (requested users global_level cf_ns) _ fresh m in
      some-ne-none rb (sym taken ∙ absent)

  grant_in_all-Taken :
      (cl : Conn) (names : List String) (cf_ns : String) (rb : RoleBinding) (w : World)
      → In cf_ns names
      → Taken cf_ns rb (view w cl)
      → (grant_in_all C cl names g w).0 ≢ ok tt
  unfolding grant_in_all
  grant_in_all-Taken cl [] cf_ns rb w m taken h = absurd m
  grant_in_all-Taken cl (n ∷ names) cf_ns rb w m taken h =
      let (_, e, h', s) = >>=-eq-ok (grant_one C field index S g cl n) _ w h in
      elim m [
        | inl same ↦
            grant_one-Taken cl n rb w (subst (λ (x : String). Taken x rb (view w cl)) same taken) e
        | inr m' ↦
            let (_, kept) = grant_one-ok C field index S g cl n w e in
            grant_in_all-Taken cl names cf_ns rb _ m'
              (kept cf_ns (binding_name g.name role) rb taken) h'
      ]

  grant_everywhere-Taken :
      (clients : List (String × Conn)) (name : String) (cl : Conn) (ns : Namespace)
      (rb : RoleBinding) (w : World)
      → Distinct clients
      → In (name, cl) clients
      → (view w cl).namespaces ns.name ≡ some ns
      → has_label org_label ns.labels ≡ true
      → Taken ns.name rb (view w cl)
      → (grant_everywhere C clients g w).0 ≢ ok tt
  grant_everywhere-Taken [] name cl ns rb w _ m there labelled taken h = absurd m
  grant_everywhere-Taken ((name', c) ∷ clients) name cl ns rb w (apart, distinct) m there labelled
        taken h =
      let (names, w', listed, e, same, h', s) = turn C field index S g c name' clients w h in
      elim m [
        | inl p ↦
            let is_c : cl ≡ c = ap (λ (q : String × Conn). q.1) p in
            let there' : (view w c).namespaces ns.name ≡ some ns =
              subst (λ d. (view w d).namespaces ns.name ≡ some ns) is_c there in
            let taken' : Taken ns.name rb (view w c) =
              subst (λ d. Taken ns.name rb (view w d)) is_c taken in
            let before : view w c ≡ view (list_one C field index S g c w).1 c =
              ap (λ v. v c) (sym (list_one-view C field index S g c w)) in
            grant_in_all-Taken c names ns.name rb (list_one C field index S g c w).1
              (list_one-ok C field index S g c w ns there' labelled listed)
              (subst (λ k. Taken ns.name rb k) before taken') e
        | inr m' ↦
            let differ = ne-of_Apart c name cl clients apart m' in
            let before : view w cl ≡ view w' cl =
              sym (ap (λ v. view v cl) same ∙ turn-frame C field index S g c cl names w differ e) in
            grant_everywhere-Taken clients name cl ns rb w' distinct m'
              (subst (λ (k : Cluster). k.namespaces ns.name ≡ some ns) before there) labelled
              (subst (λ k. Taken ns.name rb k) before taken) h'
      ]

module _ (C : Client) (field : String) (index : RoleBinding → List String)
    (S : IsServer C field index) where
  -- When the global user of a request is found, and in one labelled namespace of one configured cluster
  -- a role binding of the name that one of the user's roles takes is there already, whoever made it,
  -- then `Reconcile` returns an error.
  pub reconcile-Taken :
      (r : GlobalUserReconciler C) (request : Request) (g : GlobalUser) (role name : String)
      (cl : C.Conn) (ns : Namespace) (rb : RoleBinding) (w : C.World)
      → Distinct r.cluster_clients
      → In (name, cl) r.cluster_clients
      → (S.view w cl).namespaces ns.name ≡ some ns
      → has_label org_label ns.labels ≡ true
      → In role g.spec.roles
      → (S.view w cl).bindings ns.name (binding_name g.name role) ≡ some rb
      → (C.get_global_user r.client request w).0 ≡ ok g
      → (reconcile C r request w).0 ≢ ok tt
  unfolding reconcile
  reconcile-Taken r request g role name cl ns rb w distinct m there labelled given taken found h =
      let w' = (C.get_global_user r.client request w).1 in
      let same = ap (λ v. v cl) (sym (S.get_global_user_view r.client request w)) in
      let served : reconcile C r request w ≡ grant_everywhere C r.cluster_clients g w' =
        rw (found, reconcile) in
      grant_everywhere-Taken C field index S g role given r.cluster_clients name cl ns rb w'
        distinct m (subst (λ (k : Cluster). k.namespaces ns.name ≡ some ns) same there) labelled
        (subst (λ (k : Cluster). k.bindings ns.name (binding_name g.name role) ≡ some rb) same
          taken)
        (rw served at h)
