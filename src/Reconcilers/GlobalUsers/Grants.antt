-- ===== src/Reconcilers/GlobalUsers/Grants.antt =====
-- A global user that is found, in reconcilers/global_user.go: `Reconcile` gives the roles in every
-- namespace that carries the org label.
use mathlib.Core.Path.{subst}
use auth_explore.Base.{
  String, ◌≡◌, refl, sym, ap, ◌∙◌, ◌≢◌, true, some, List, [], ◌∷◌, In, All, All-at, In-map, inl,
  inr, map,
}
use auth_explore.Base.Exec.{Result, ok, pure, settle, >>=-eq-ok, pure-world, ok-injective}
use auth_explore.Api.{User, GlobalUser}
use auth_explore.Kube.{Client, Namespace, RoleBinding, Request, has_label}
use auth_explore.Kube.Server.{Cluster, ne-of_Apart, IsServer, Apart, Distinct}
use auth_explore.Reconcilers.{
  Error, from_api, from_api-eq-ok, wrap, wrap-eq-ok, get_cf_namespaces_failed,
  reconcile_global_user_failed, org_label, global_level,
}
use auth_explore.Reconcilers.Bindings.Granting.{Granted, Kept, Kept-Granted}
use auth_explore.Reconcilers.Bindings.Granting.Success.{
  create_role_bindings-grants, create_role_bindings-Kept,
}
use auth_explore.Reconcilers.Bindings.Granting.Frame.{create_role_bindings-frame}
use auth_explore.Reconcilers.GlobalUsers.{
  ns_name, GlobalUserReconciler, reconcile_global_user_in_namespace, get_cf_namespaces,
  grant_in_all, grant_everywhere, reconcile,
}

-- The user of a global user, as the role bindings take it.
abbrev pub user_of : GlobalUser → User
user_of g = record { name = g.name; roles = g.spec.roles }

abbrev HasRoles : GlobalUser → String → Cluster → Type 0
HasRoles g namespace = Granted (user_of g ∷ []) global_level namespace

-- What a run leaves in a cluster, of one namespace that carries the org label.
abbrev pub Served : GlobalUser → Namespace → Cluster → Cluster → Type 0
Served g ns k k' = HasRoles g ns.name k' × Kept k k'

module _ (C : Client) (field : String) (index : RoleBinding → List String)
    (S : IsServer C field index) (g : GlobalUser) where
  open C use {World, Conn}
  open S use {view}

  -- One turn of the loop over the namespaces.
  abbrev pub grant_one : Conn → String → World → Result Error Unit × World
  grant_one cl cf_ns =
      settle (wrap (reconcile_global_user_failed g.name cf_ns))
        (reconcile_global_user_in_namespace C cl cf_ns g)

  pub grant_one-ok :
      (cl : Conn) (cf_ns : String) (w : World)
      → (grant_one cl cf_ns w).0 ≡ ok tt
      → HasRoles g cf_ns (view (grant_one cl cf_ns w).1 cl)
        × Kept (view w cl) (view (grant_one cl cf_ns w).1 cl)
  unfolding reconcile_global_user_in_namespace
  grant_one-ok cl cf_ns w h =
      let e = wrap-eq-ok (reconcile_global_user_failed g.name cf_ns) _ h in
      (
        (create_role_bindings-grants C field index S cl (user_of g ∷ []) global_level cf_ns w "" ""
            e).0,
        create_role_bindings-Kept C field index S cl (user_of g ∷ []) global_level cf_ns w e,
      )

  grant_in_all-ok :
      (cl : Conn) (cf_namespaces : List String) (w : World)
      → (grant_in_all C cl cf_namespaces g w).0 ≡ ok tt
      → let k' = view (grant_in_all C cl cf_namespaces g w).1 cl in
        All (λ namespace. HasRoles g namespace k') cf_namespaces × Kept (view w cl) k'
  unfolding grant_in_all
  grant_in_all-ok cl [] w h = (tt, λ n j rb at. at)
  grant_in_all-ok cl (cf_ns ∷ cf_namespaces) w h =
      let (_, e, h', s) = >>=-eq-ok (grant_one cl cf_ns) _ w h in
      let (here, kept) = grant_one-ok cl cf_ns w e in
      let (there, kept') = grant_in_all-ok cl cf_namespaces (grant_one cl cf_ns w).1 h' in
      let k₁ = view (grant_one cl cf_ns w).1 cl in
      let k₂ = view (grant_in_all C cl cf_namespaces g (grant_one cl cf_ns w).1).1 cl in
      subst
        (λ k'.
          All (λ namespace. HasRoles g namespace k') (cf_ns ∷ cf_namespaces) × Kept (view w cl) k')
        (ap (λ (q : Result Error Unit × World). view q.1 cl) (sym s))
        (
          (Kept-Granted (user_of g ∷ []) global_level cf_ns k₁ k₂ kept' here, there),
          λ n j rb at. kept' n j rb (kept n j rb at),
        )

  grant_in_all-frame :
      (cl d : Conn) (cf_namespaces : List String) (w : World)
      → d ≢ cl
      → (grant_in_all C cl cf_namespaces g w).0 ≡ ok tt
      → view (grant_in_all C cl cf_namespaces g w).1 d ≡ view w d
  unfolding grant_in_all reconcile_global_user_in_namespace
  grant_in_all-frame cl d [] w apart h = refl
  grant_in_all-frame cl d (cf_ns ∷ cf_namespaces) w apart h =
      let (_, e, h', s) = >>=-eq-ok (grant_one cl cf_ns) _ w h in
      rw s (
        grant_in_all-frame cl d cf_namespaces _ apart h'
        ∙ create_role_bindings-frame C field index S cl d (user_of g ∷ []) global_level cf_ns w
            apart)

  abbrev pub list_one : Conn → World → Result Error (List String) × World
  list_one cl = settle (wrap get_cf_namespaces_failed) (get_cf_namespaces C cl)

  -- The names that are listed are those of the namespaces that carry the org label.
  pub list_one-ok :
      (cl : Conn) (w : World) (ns : Namespace) {names : List String}
      → (view w cl).namespaces ns.name ≡ some ns
      → has_label org_label ns.labels ≡ true
      → (list_one cl w).0 ≡ ok names
      → In ns.name names
  unfolding get_cf_namespaces
  list_one-ok cl w ns there labelled h =
      let h' = wrap-eq-ok get_cf_namespaces_failed _ h in
      let (items, e, e', _) =
        >>=-eq-ok (settle from_api (C.list_namespaces cl org_label))
          (λ items. pure (map ns_name items)) w h' in
      let m =
        ((S.list_namespaces_ok cl org_label w items (from_api-eq-ok _ e)) ns).1 (there, labelled) in
      subst (λ l. In ns.name l) (ok-injective e') (In-map ns_name ns items m)

  pub list_one-view : (cl : Conn) (w : World) → view (list_one cl w).1 ≡ view w
  unfolding get_cf_namespaces
  list_one-view cl w =
      ap view (
        pure-world (settle from_api (C.list_namespaces cl org_label)) (λ items. map ns_name items)
          w)
      ∙ S.list_namespaces_view cl org_label w

  -- A run of the loop with no error: every turn had none.
  pub turn :
      (c : Conn) (name : String) (clients : List (String × Conn)) (w : World)
      → (grant_everywhere C ((name, c) ∷ clients) g w).0 ≡ ok tt
      → (names : List String) × (w' : World) × ((list_one c w).0 ≡ ok names)
        × ((grant_in_all C c names g (list_one c w).1).0 ≡ ok tt)
        × (w' ≡ (grant_in_all C c names g (list_one c w).1).1)
        × ((grant_everywhere C clients g w').0 ≡ ok tt)
        × (grant_everywhere C ((name, c) ∷ clients) g w ≡ grant_everywhere C clients g w')
  unfolding grant_everywhere
  turn c name clients w h =
      let (names, e, h', s) = >>=-eq-ok (list_one c) _ w h in
      let (_, e', h'', s') = >>=-eq-ok (grant_in_all C c names g) _ (list_one c w).1 h' in
      (names, (grant_in_all C c names g (list_one c w).1).1, e, e', refl, h'', s ∙ s')

  pub turn-frame :
      (c d : Conn) (names : List String) (w : World)
      → d ≢ c
      → (grant_in_all C c names g (list_one c w).1).0 ≡ ok tt
      → view (grant_in_all C c names g (list_one c w).1).1 d ≡ view w d
  turn-frame c d names w apart e =
      grant_in_all-frame c d names (list_one c w).1 apart e ∙ ap (λ v. v d) (list_one-view c w)

  pub grant_everywhere-frame :
      (d : Conn) (clients : List (String × Conn)) (w : World)
      → Apart d clients
      → (grant_everywhere C clients g w).0 ≡ ok tt
      → view (grant_everywhere C clients g w).1 d ≡ view w d
  unfolding grant_everywhere
  grant_everywhere-frame d [] w apart h = refl
  grant_everywhere-frame d ((name, c) ∷ clients) w (differ, apart) h =
      let (names, w', _, e, same, h', s) = turn c name clients w h in
      ap (λ (q : Result Error Unit × World). view q.1 d) s
      ∙ grant_everywhere-frame d clients w' apart h'
      ∙ ap (λ v. view v d) same
      ∙ turn-frame c d names w differ e

  grant_everywhere-Served :
      (clients : List (String × Conn)) (name : String) (cl : Conn) (ns : Namespace) (w : World)
      → Distinct clients
      → In (name, cl) clients
      → (view w cl).namespaces ns.name ≡ some ns
      → has_label org_label ns.labels ≡ true
      → (grant_everywhere C clients g w).0 ≡ ok tt
      → Served g ns (view w cl) (view (grant_everywhere C clients g w).1 cl)
  grant_everywhere-Served [] name cl ns w _ m there labelled h = absurd m
  grant_everywhere-Served ((name', c) ∷ clients) name cl ns w (apart, distinct) (inl p) there
        labelled h =
      let (names, w', listed, e, same, h', s) = turn c name' clients w h in
      let is_c : c ≡ cl = ap (λ (q : String × Conn). q.1) (sym p) in
      let there' : (view w c).namespaces ns.name ≡ some ns =
        subst (λ d. (view w d).namespaces ns.name ≡ some ns) (sym is_c) there in
      let k₁ = view (grant_in_all C c names g (list_one c w).1).1 c in
      let (given, kept) = grant_in_all-ok c names (list_one c w).1 e in
      let after : view (grant_everywhere C ((name', c) ∷ clients) g w).1 c
          ≡ view (grant_in_all C c names g (list_one c w).1).1 c =
        ap (λ (q : Result Error Unit × World). view q.1 c) s
        ∙ grant_everywhere-frame c clients w' apart h'
        ∙ ap (λ v. view v c) same in
      let before : view (list_one c w).1 c ≡ view w c = ap (λ v. v c) (list_one-view c w) in
      subst (λ d. Served g ns (view w d) (view (grant_everywhere C ((name', c) ∷ clients) g w).1 d))
        is_c
        (subst (λ k'. Served g ns (view w c) k') (sym after)
          (
            All-at (λ n. HasRoles g n k₁) names ns.name given
                (list_one-ok c w ns there' labelled listed),
            subst (λ k. Kept k k₁) before kept,
          ))
  grant_everywhere-Served ((name', c) ∷ clients) name cl ns w (apart, distinct) (inr m) there
        labelled h =
      let (names, w', listed, e, same, h', s) = turn c name' clients w h in
      let k₂ = view (grant_everywhere C clients g w').1 cl in
      let differ = ne-of_Apart c name cl clients apart m in
      let before : view w' cl ≡ view w cl =
        ap (λ v. view v cl) same ∙ turn-frame c cl names w differ e in
      subst (λ (q : Result Error Unit × World). Served g ns (view w cl) (view q.1 cl)) (sym s)
        (subst (λ k. Served g ns k k₂) before
          (grant_everywhere-Served clients name cl ns w' distinct m (rw before there) labelled h'))

module _ (C : Client) (field : String) (index : RoleBinding → List String)
    (S : IsServer C field index) where
  -- When the global user of a request is found and `Reconcile` returns no error, then in every
  -- configured cluster every role of the user is given, at the global level, in every namespace that
  -- carries the org label, and no role binding that was there is lost.
  pub reconcile-Served :
      (r : GlobalUserReconciler C) (request : Request) (g : GlobalUser) (name : String)
      (cl : C.Conn) (ns : Namespace) (w : C.World)
      → Distinct r.cluster_clients
      → In (name, cl) r.cluster_clients
      → (S.view w cl).namespaces ns.name ≡ some ns
      → has_label org_label ns.labels ≡ true
      → (C.get_global_user r.client request w).0 ≡ ok g
      → (reconcile C r request w).0 ≡ ok tt
      → Served g ns (S.view w cl) (S.view (reconcile C r request w).1 cl)
  unfolding reconcile
  reconcile-Served r request g name cl ns w distinct m there labelled found h =
      let w' = (C.get_global_user r.client request w).1 in
      let same = S.get_global_user_view r.client request w in
      let served : reconcile C r request w ≡ grant_everywhere C r.cluster_clients g w' =
        rw (found, reconcile) in
      let k' = S.view (grant_everywhere C r.cluster_clients g w').1 cl in
      subst (λ (q : Result Error Unit × C.World). Served g ns (S.view w cl) (S.view q.1 cl))
        (sym served)
        (subst (λ v. Served g ns (v cl) k') same
          (grant_everywhere-Served C field index S g r.cluster_clients name cl ns w' distinct m
            (rw same there) labelled (rw served at h)))
