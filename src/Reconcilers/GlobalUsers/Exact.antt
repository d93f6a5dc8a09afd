-- ===== src/Reconcilers/GlobalUsers/Exact.antt =====
-- The clusters that `Reconcile` of reconcilers/global_user.go makes of those that it finds, exactly.
use mathlib.Core.Path.{subst}
use auth_explore.Base.{
  String, ◌≡◌, refl, sym, ap, ◌∙◌, Option, none, some, true, List, [], ◌∷◌, In, In-map, inl, inr,
  map, if◌then◌else◌, Bool-cases, Option-cases, contains,
}
use auth_explore.Base.Exec.{Result, ok, settle, pure, >>=-eq-ok, ok-injective}
use auth_explore.Api.{GlobalUser}
use auth_explore.Kube.{Client, Namespace, RoleBinding, Request, has_label}
use auth_explore.Kube.Server.{Cluster, ne-of_Apart, IsServer, Distinct}
use auth_explore.Reconcilers.{
  Error, from_api, from_api-eq-ok, wrap-eq-ok, get_cf_namespaces_failed,
  reconcile_global_user_failed, org_label, global_level,
}
use auth_explore.Reconcilers.Bindings.Granting.{binding_at}
use auth_explore.Reconcilers.Bindings.Granting.Success.{create_role_bindings-grants}
use auth_explore.Reconcilers.Bindings.Granting.Frame.{create_role_bindings-namespaces}
use auth_explore.Reconcilers.Orgs.Spaces.{binding_at-append}
use auth_explore.Reconcilers.Orgs.Elsewhere.{or_else-none}
use auth_explore.Reconcilers.GlobalUsers.{
  ns_name, GlobalUserReconciler, reconcile_global_user_in_namespace, get_cf_namespaces,
  grant_in_all, grant_everywhere, reconcile,
}
use auth_explore.Reconcilers.GlobalUsers.Grants.{
  user_of, grant_one, list_one, list_one-view, turn, turn-frame, grant_everywhere-frame,
}
use auth_explore.Reconcilers.GlobalUsers.Asked.{
  asked, all_asked, all_asked-at, Given, Given-trans, Given-eq, In-contains, In-of_contains,
  org_labelled,
}

module _ (C : Client) (field : String) (index : RoleBinding → List String)
    (S : IsServer C field index) (g : GlobalUser) where
  open C use {World, Conn}
  open S use {view}

  abbrev one : Conn → String → World → Result Error Unit × World
  one = grant_one C field index S g

  abbrev list : Conn → World → Result Error (List String) × World
  list = list_one C field index S g

  grant_one-Given :
      (cl : Conn) (m : String) (w : World)
      → (one cl m w).0 ≡ ok tt
      → Given (λ n j. binding_at n j (asked g m)) (view w cl) (view (one cl m w).1 cl)
  unfolding reconcile_global_user_in_namespace
  grant_one-Given cl m w h =
      let e = wrap-eq-ok (reconcile_global_user_failed g.name m) _ h in
      let users = user_of g ∷ [] in
      let (same, same') =
        create_role_bindings-namespaces C field index S cl users global_level m w in
      record {
        namespaces = same;
        deleting = same';
        bindings =
            λ n j. (create_role_bindings-grants C field index S cl users global_level m w n j e).1;
      }

  grant_in_all-Given :
      (cl : Conn) (names : List String) (w : World)
      → (grant_in_all C cl names g w).0 ≡ ok tt
      → Given
          (λ n j. binding_at n j (all_asked g names))
          (view w cl)
          (view (grant_in_all C cl names g w).1 cl)
  unfolding grant_in_all all_asked
  grant_in_all-Given cl [] w h = record {
    namespaces = refl;
    deleting = refl;
    bindings = λ n j. sym (or_else-none _);
  }
  grant_in_all-Given cl (m ∷ names) w h =
      let (_, e, h', s) = >>=-eq-ok (one cl m) _ w h in
      let k = view w cl in
      let k₁ = view (one cl m w).1 cl in
      let k₂ = view (grant_in_all C cl names g (one cl m w).1).1 cl in
      let rest = grant_in_all-Given cl names (one cl m w).1 h' in
      rw s (
        Given-eq _ _ k k₂ (λ n j. sym (binding_at-append n j (asked g m) (all_asked g names)))
          (Given-trans _ _ k k₁ k₂ (grant_one-Given cl m w e) rest))

  list-items :
      (cl : Conn) (w : World) (names : List String)
      → (list cl w).0 ≡ ok names
      → (items : List Namespace) × ((C.list_namespaces cl org_label w).0 ≡ ok items)
        × (names ≡ map ns_name items)
  unfolding get_cf_namespaces
  list-items cl w names h =
      let (items, e, e', _) =
        >>=-eq-ok (settle from_api (C.list_namespaces cl org_label))
          (λ items. pure (map ns_name items)) w (wrap-eq-ok get_cf_namespaces_failed _ h) in
      (items, from_api-eq-ok _ e, sym (ok-injective e'))

  -- What is listed under a name is there under this name, with the label.
  listed-there :
      (cl : Conn) (w : World) (items : List Namespace) (n : String)
      → (C.list_namespaces cl org_label w).0 ≡ ok items
      → contains (map ns_name items) n ≡ true
      → (ns : Namespace) × ((view w cl).namespaces n ≡ some ns)
        × (has_label org_label ns.labels ≡ true)
  listed-there cl w items n e t =
      let (ns, i, p) = In-of_contains items n t in
      let (there, labelled) = ((S.list_namespaces_ok cl org_label w items e) ns).0 i in
      (ns, subst (λ m. (view w cl).namespaces m ≡ some ns) p there, labelled)

  -- The names that are listed are those of the namespaces with the org label.
  list-labelled :
      (cl : Conn) (w : World) (items : List Namespace) (n : String)
      → (C.list_namespaces cl org_label w).0 ≡ ok items
      → contains (map ns_name items) n ≡ org_labelled ((view w cl).namespaces n)
  list-labelled cl w items n e = elim (Bool-cases (contains (map ns_name items) n)) [
    | inl t ↦
        let (ns, there, labelled) = listed-there cl w items n e t in rw (t, there, labelled) refl
    | inr f ↦ elim (Option-cases ((view w cl).namespaces n)) [
      | inl absent ↦ rw (f, absent) refl
      | inr (ns, there) ↦ elim (Bool-cases (has_label org_label ns.labels)) [
        | inr bare ↦ rw (f, there, bare) refl
        | inl labelled ↦
            let its_name = S.namespace_key w cl n ns there in
            let m : In ns.name (map ns_name items) = In-map ns_name ns items (
              ((S.list_namespaces_ok cl org_label w items e) ns).1
                (subst (λ m. (view w cl).namespaces m ≡ some ns) (sym its_name) there, labelled)) in
            let t = In-contains _ _ m in
            absurd (cc (f, subst (λ m. contains (map ns_name items) m ≡ true) its_name t))
      ]
    ]
  ]

  -- What the user is given in a cluster.
  abbrev pub given_in : Cluster → String → String → Option RoleBinding
  given_in k n j = if org_labelled (k.namespaces n) then binding_at n j (asked g n) else none

  turn-Given :
      (cl : Conn) (names : List String) (w : World)
      → (list cl w).0 ≡ ok names
      → (grant_in_all C cl names g (list cl w).1).0 ≡ ok tt
      → Given
          (given_in (view w cl))
          (view w cl)
          (view (grant_in_all C cl names g (list cl w).1).1 cl)
  turn-Given cl names w listed h =
      let (items, e, same) = list-items cl w names listed in
      let before : view (list cl w).1 cl ≡ view w cl =
        ap (λ v. v cl) (list_one-view C field index S g cl w) in
      let k' = view (grant_in_all C cl names g (list cl w).1).1 cl in
      Given-eq _ _ (view w cl) k'
        (λ n j.
          all_asked-at g names n j
          ∙ rw same (
              ap (λ b. if b then binding_at n j (asked g n) else none)
                (list-labelled cl w items n e)))
        (subst (λ k. Given (λ n j. binding_at n j (all_asked g names)) k k') before
          (grant_in_all-Given cl names (list cl w).1 h))

  grant_everywhere-Given :
      (clients : List (String × Conn)) (name : String) (cl : Conn) (w : World)
      → Distinct clients
      → In (name, cl) clients
      → (grant_everywhere C clients g w).0 ≡ ok tt
      → Given (given_in (view w cl)) (view w cl) (view (grant_everywhere C clients g w).1 cl)
  grant_everywhere-Given [] name cl w _ m h = absurd m
  grant_everywhere-Given ((name', c) ∷ clients) name cl w (apart, distinct) m h =
      let (names, w', listed, e, same, h', s) = turn C field index S g c name' clients w h in
      let last = view (grant_everywhere C ((name', c) ∷ clients) g w).1 in
      elim m [
        | inl p ↦
            let is_c : c ≡ cl = ap (λ (q : String × Conn). q.1) (sym p) in
            let after : last c ≡ view (grant_in_all C c names g (list c w).1).1 c =
              ap (λ (q : Result Error Unit × World). view q.1 c) s
              ∙ grant_everywhere-frame C field index S g c clients w' apart h'
              ∙ ap (λ v. view v c) same in
            subst (λ d. Given (given_in (view w d)) (view w d) (last d)) is_c
              (subst (λ k'. Given (given_in (view w c)) (view w c) k') (sym after)
                (turn-Given c names w listed e))
        | inr i ↦
            let before : view w' cl ≡ view w cl =
              ap (λ v. view v cl) same
              ∙ turn-frame C field index S g c cl names w (ne-of_Apart c name cl clients apart i)
                  e in
            subst (λ k'. Given (given_in (view w cl)) (view w cl) k')
              (ap (λ (q : Result Error Unit × World). view q.1 cl) (sym s))
              (subst (λ k. Given (given_in k) k (view (grant_everywhere C clients g w').1 cl))
                before (grant_everywhere-Given clients name cl w' distinct i h'))
      ]

module _ (C : Client) (field : String) (index : RoleBinding → List String)
    (S : IsServer C field index) where
  open S use {view}

  -- When the global user of a request is found and `Reconcile` returns no error, each configured
  -- cluster is as it was, but for the role bindings that the user's roles ask for, at the global level,
  -- in the namespaces with the org label, which are there where no role binding of their key was.
  -- Nothing that stood there is changed or removed, in whatever order the clusters were visited.
  pub reconcile-Given :
      (r : GlobalUserReconciler C) (request : Request) (g : GlobalUser) (name : String)
      (cl : C.Conn) (w : C.World)
      → Distinct r.cluster_clients
      → In (name, cl) r.cluster_clients
      → (C.get_global_user r.client request w).0 ≡ ok g
      → (reconcile C r request w).0 ≡ ok tt
      → Given
          (given_in C field index S g (view w cl))
          (view w cl)
          (view (reconcile C r request w).1 cl)
  unfolding reconcile
  reconcile-Given r request g name cl w distinct m found h =
      let w' = (C.get_global_user r.client request w).1 in
      let same : view w' cl ≡ view w cl =
        ap (λ v. v cl) (S.get_global_user_view r.client request w) in
      let served : reconcile C r request w ≡ grant_everywhere C r.cluster_clients g w' =
        rw (found, reconcile) in
      let given = given_in C field index S g in
      let last = view (grant_everywhere C r.cluster_clients g w').1 cl in
      subst
        (λ (q : Result Error Unit × C.World). Given (given (view w cl)) (view w cl) (view q.1 cl))
        (sym served)
        (subst (λ k. Given (given k) k last) same
          (grant_everywhere-Given C field index S g r.cluster_clients name cl w' distinct m
            (rw served at h)))
