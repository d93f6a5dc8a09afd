-- ===== src/Reconcilers/GlobalUsers/Complete.antt =====
-- `Reconcile` of reconcilers/global_user.go on healthy servers: it returns no error.
use mathlib.Core.Path.{subst}
use auth_explore.Base.{
  String, ◌≡◌, refl, sym, ap, ◌∙◌, ◌≢◌, true, none, some, List, [], ◌∷◌, In, inl, inr, map,
}
use auth_explore.Base.Exec.{Result, ok}
use auth_explore.Api.{GlobalUser}
use auth_explore.Kube.{Client, Namespace, RoleBinding, Request, has_label}
use auth_explore.Kube.Server.{Cluster, live, IsServer, IsHealthy, Distinct, ne-of_Apart}
use auth_explore.Reconcilers.{Error, org_label, global_level}
use auth_explore.Reconcilers.Bindings.Granting.{requested, AllFresh}
use auth_explore.Reconcilers.Bindings.Granting.Success.{create_role_bindings-grants}
use auth_explore.Reconcilers.Bindings.Granting.Frame.{create_role_bindings-namespaces}
use auth_explore.Reconcilers.Bindings.Granting.Repeat.{
  create_role_bindings-ok_iff, requested-InNamespace,
}
use auth_explore.Reconcilers.Orgs.Elsewhere.{
  Unmoved, Unmoved-AllFresh, binding_at-elsewhere, or_else-none,
}
use auth_explore.Reconcilers.GlobalUsers.{
  ns_name, GlobalUserReconciler, reconcile_global_user_in_namespace, get_cf_namespaces,
  grant_in_all, grant_everywhere, reconcile,
}
use auth_explore.Reconcilers.GlobalUsers.Grants.{
  user_of, grant_one, list_one, list_one-view, turn-frame, Served, reconcile-Served,
}

-- No name is listed twice.
abbrev pub Once : List String → Type 0
Once [] = Unit
Once (n ∷ names) = ((m : String) → In m names → m ≢ n) × Once names

-- The namespace is there to stay, and none of the user's role bindings is there or asked for twice.
abbrev pub Ready : GlobalUser → Cluster → String → Type 0
Ready g k n = (live k n ≢ none) × AllFresh (requested (user_of g ∷ []) global_level n) k

Unmoved-Ready :
    (g : GlobalUser) (n : String) (k k' : Cluster) → Unmoved n k k' → Ready g k n → Ready g k' n
Unmoved-Ready g n k k' same (there, fresh) = (
  rw (same.its_end, same.here) there,
  Unmoved-AllFresh n _ k k' (requested-InNamespace (user_of g ∷ []) global_level n) same.inside
      fresh,
)

module _ (C : Client) (field : String) (index : RoleBinding → List String)
    (S : IsServer C field index) (H : IsHealthy C field index S) (g : GlobalUser) where
  open C use {World, Conn}
  open S use {view}

  abbrev one : Conn → String → World → Result Error Unit × World
  one = grant_one C field index S g

  grant_one_succeeds :
      (cl : Conn) (n : String) (w : World) → Ready g (view w cl) n → (one cl n w).0 ≡ ok tt
  unfolding reconcile_global_user_in_namespace
  grant_one_succeeds cl n w (there, fresh) =
      rw
        ((create_role_bindings-ok_iff C field index S H cl (user_of g ∷ []) global_level n w
            there).1
          fresh)
        refl

  grant_one-Unmoved :
      (cl : Conn) (n m : String) (w : World)
      → Ready g (view w cl) n
      → m ≢ n
      → Unmoved m (view w cl) (view (one cl n w).1 cl)
  unfolding reconcile_global_user_in_namespace
  grant_one-Unmoved cl n m w (there, fresh) apart =
      let users = user_of g ∷ [] in
      let e =
        (create_role_bindings-ok_iff C field index S H cl users global_level n w there).1 fresh in
      let (same, same') =
        create_role_bindings-namespaces C field index S cl users global_level n w in
      record {
        here = ap (λ (f : String → _). f m) same;
        its_end = ap (λ (f : String → _). f m) same';
        inside = λ j.
            (create_role_bindings-grants C field index S cl users global_level n w m j e).1
            ∙ rw (binding_at-elsewhere n m j _ (requested-InNamespace users global_level n) apart)
                (or_else-none _);
      }

  grant_in_all_succeeds :
      (cl : Conn) (names : List String) (w : World)
      → Once names
      → ((n : String) → In n names → Ready g (view w cl) n)
      → (grant_in_all C cl names g w).0 ≡ ok tt
  unfolding grant_in_all
  grant_in_all_succeeds cl [] w once ready = refl
  grant_in_all_succeeds cl (n ∷ names) w (apart, once) ready =
      let here = ready n (inl refl) in
      rw (grant_one_succeeds cl n w here) (
        grant_in_all_succeeds cl names (one cl n w).1 once (λ m i.
          Unmoved-Ready g m (view w cl) (view (one cl n w).1 cl)
            (grant_one-Unmoved cl n m w here (apart m i)) (ready m (inr i))))

  -- The namespaces of the cluster can be listed, each once, and those with the org label are ready.
  pub record Open (cl : Conn) (w : World) : Type 0 where
    pub listed :
        (w' : World)
        → view w' cl ≡ view w cl
        → (l : List Namespace) × ((C.list_namespaces cl org_label w').0 ≡ ok l)
          × Once (map ns_name l)
    pub ready :
        (ns : Namespace)
        → (view w cl).namespaces ns.name ≡ some ns
        → has_label org_label ns.labels ≡ true
        → Ready g (view w cl) ns.name

  Open-same : (cl : Conn) (w w' : World) → view w' cl ≡ view w cl → Open cl w → Open cl w'
  Open-same cl w w' e o = record {
    listed = λ v f. o.listed v (f ∙ e);
    ready = λ ns there labelled.
        subst (λ (k : Cluster). Ready g k ns.name) (sym e)
          (o.ready ns (subst (λ (k : Cluster). k.namespaces ns.name ≡ some ns) e there) labelled);
  }

  list_one_succeeds :
      (cl : Conn) (w : World) (l : List Namespace)
      → (C.list_namespaces cl org_label w).0 ≡ ok l
      → (list_one C field index S g cl w).0 ≡ ok (map ns_name l)
  unfolding get_cf_namespaces
  list_one_succeeds cl w l e = rw e refl

  names-ready :
      (P : String → Type 0) (l : List Namespace)
      → ((ns : Namespace) → In ns l → P ns.name)
      → (n : String) → In n (map ns_name l)
      → P n
  names-ready P [] h n m = absurd m
  names-ready P (ns ∷ l) h n (inl e) = subst P (sym e) (h ns (inl refl))
  names-ready P (ns ∷ l) h n (inr m) = names-ready P l (λ x i. h x (inr i)) n m

  -- One cluster is served without an error.
  turn_succeeds :
      (cl : Conn) (w : World)
      → Open cl w
      → (names : List String) × ((list_one C field index S g cl w).0 ≡ ok names)
        × ((grant_in_all C cl names g (list_one C field index S g cl w).1).0 ≡ ok tt)
  turn_succeeds cl w o =
      let (l, e, once) = o.listed w refl in
      let w₁ = (list_one C field index S g cl w).1 in
      let same : view w₁ cl ≡ view w cl = ap (λ v. v cl) (list_one-view C field index S g cl w) in
      (
        map ns_name l,
        list_one_succeeds cl w l e,
        grant_in_all_succeeds cl (map ns_name l) w₁ once (
            names-ready (Ready g (view w₁ cl)) l (λ ns i.
              let (there, labelled) = ((S.list_namespaces_ok cl org_label w l e) ns).0 i in
              subst (λ (k : Cluster). Ready g k ns.name) (sym same) (o.ready ns there labelled))),
      )

  grant_everywhere_succeeds :
      (clients : List (String × Conn)) (w : World)
      → Distinct clients
      → ((name : String) (cl : Conn) → In (name, cl) clients → Open cl w)
      → (grant_everywhere C clients g w).0 ≡ ok tt
  unfolding grant_everywhere
  grant_everywhere_succeeds [] w distinct open_all = refl
  grant_everywhere_succeeds ((name, c) ∷ clients) w (apart, distinct) open_all =
      let (names, listed, given) = turn_succeeds c w (open_all name c (inl refl)) in
      let w₂ = (grant_in_all C c names g (list_one C field index S g c w).1).1 in
      rw (listed, given)
        (grant_everywhere_succeeds clients w₂ distinct (λ n cl i.
          Open-same cl w w₂
            (turn-frame C field index S g c cl names w (ne-of_Apart c n cl clients apart i) given)
            (open_all n cl (inr i))))

module _ (C : Client) (field : String) (index : RoleBinding → List String)
    (S : IsServer C field index) (H : IsHealthy C field index S) where
  -- On healthy servers, with every configured cluster behind a client of its own, `Reconcile` on a
  -- global user that is found returns no error, and in every configured cluster every role of the user
  -- is given, at the global level, in every namespace that carries the org label, with no role binding
  -- lost. In each cluster, as long as it is as it was at the start, the labelled namespaces must be
  -- listed, each once, and none of them may be on its way out or hold a role binding that is to be
  -- made; nor may a role binding be asked for twice.
  pub reconcile_succeeds :
      (r : GlobalUserReconciler C) (request : Request) (g : GlobalUser) (w : C.World)
      → Distinct r.cluster_clients
      → (C.get_global_user r.client request w).0 ≡ ok g
      → ((name : String) (cl : C.Conn)
          → In (name, cl) r.cluster_clients
          → Open C field index S H g cl w)
      → ((reconcile C r request w).0 ≡ ok tt)
        × ((name : String) (cl : C.Conn) (ns : Namespace)
            → In (name, cl) r.cluster_clients
            → (S.view w cl).namespaces ns.name ≡ some ns
            → has_label org_label ns.labels ≡ true
            → Served g ns (S.view w cl) (S.view (reconcile C r request w).1 cl))
  unfolding reconcile
  reconcile_succeeds r request g w distinct found open_all =
      let w' = (C.get_global_user r.client request w).1 in
      let same = S.get_global_user_view r.client request w in
      let served : reconcile C r request w ≡ grant_everywhere C r.cluster_clients g w' =
        rw (found, reconcile) in
      let done : (reconcile C r request w).0 ≡ ok tt =
        ap (λ (q : Result Error Unit × C.World). q.0) served
        ∙ grant_everywhere_succeeds C field index S H g r.cluster_clients w' distinct (λ name cl i.
          Open-same C field index S H g cl w w' (ap (λ v. v cl) same) (open_all name cl i)) in
      (
        done,
        λ name cl ns i there labelled.
            reconcile-Served C field index S r request g name cl ns w distinct i there labelled
              found done,
      )
