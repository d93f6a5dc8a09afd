-- ===== src/Reconcilers/GlobalUsers/Revocation.antt =====
-- The deletion of a global user, in reconcilers/global_user.go: `Reconcile` on a user that is not
-- found.
use mathlib.Core.Option.{some-injective}
use auth_explore.Base.{
  String, ◌≡◌, refl, sym, ap, ◌∙◌, ◌≢◌, Bool, true, false, ◌&&◌, ◌||◌, none, some, Option, List, [],
  ◌∷◌, In, inl, inr, arith, if◌then◌else◌, ◌==◌, eq_iff, Bool-cases,
}
use auth_explore.Base.Exec.{Result, ok, err, settle, >>=-eq-ok}
use auth_explore.Kube.{Client, RoleBinding, Request, ApiError, not_found}
use auth_explore.Kube.Server.{
  Cluster, ne-of_Apart, drop_binding, matches, IsServer, Apart, Distinct,
}
use auth_explore.Reconcilers.{
  Error, from_api, wrap, wrap-eq-ok, deleted_global_user_failed, list_role_bindings_failed,
  delete_role_binding_failed, role_level_label, global_level, subject_name_index,
}
use auth_explore.Reconcilers.GlobalUsers.{
  GlobalUserReconciler, delete_bindings, revoke, revoke_all, reconcile,
}

-- A place of a cluster without the role bindings that a test selects.
abbrev pub without : (RoleBinding → Bool) → Option RoleBinding → Option RoleBinding
without p none = none
without p (some rb) = if p rb then none else some rb

drop_all : List RoleBinding → Cluster → Cluster
drop_all [] k = k
drop_all (rb ∷ rbs) k = drop_all rbs (drop_binding rb.namespace rb.name k)

has_key : String → String → List RoleBinding → Bool
has_key n j [] = false
has_key n j (rb ∷ rbs) = (n == rb.namespace && j == rb.name) || has_key n j rbs

drop_all-at :
    (n j : String) (rbs : List RoleBinding) (k : Cluster)
    → (drop_all rbs k).bindings n j ≡ (if has_key n j rbs then none else k.bindings n j)
unfolding drop_all has_key
drop_all-at n j [] k = refl
drop_all-at n j (rb ∷ rbs) k =
    ground (arith, drop_all-at n j rbs (drop_binding rb.namespace rb.name k))

has_key-In :
    (rb : RoleBinding) (rbs : List RoleBinding)
    → In rb rbs
    → has_key rb.namespace rb.name rbs ≡ true
unfolding has_key
has_key-In rb [] m = absurd m
has_key-In rb (x ∷ rbs) (inl e) =
    ground (arith, eq_iff rb.namespace x.namespace, eq_iff rb.name x.name)
has_key-In rb (x ∷ rbs) (inr m) = ground (arith, has_key-In rb rbs m)

In-of_has_key :
    (n j : String) (rbs : List RoleBinding)
    → has_key n j rbs ≡ true
    → (rb : RoleBinding) × In rb rbs × (rb.namespace ≡ n) × (rb.name ≡ j)
unfolding has_key
In-of_has_key n j [] h = absurd (cc h)
In-of_has_key n j (x ∷ rbs) h = elim (Bool-cases (n == x.namespace && j == x.name)) [
  | inl e ↦ (x, inl refl, ground (arith, eq_iff n x.namespace), ground (arith, eq_iff j x.name))
  | inr e ↦ let (rb, m, p, q) = In-of_has_key n j rbs (ground arith) in (rb, inr m, p, q)
]

-- The role bindings at the global level whose indexed subject is the user.
abbrev pub is_global_of : (RoleBinding → List String) → String → RoleBinding → Bool
is_global_of index user = matches index role_level_label global_level user

module _ (C : Client) (index : RoleBinding → List String)
    (S : IsServer C subject_name_index index) where
  open C use {World, Conn}
  open S use {view}

  abbrev delete_one : Conn → RoleBinding → World → Result Error Unit × World
  delete_one cl rb =
      settle (λ r. wrap (delete_role_binding_failed rb.namespace rb.name) (from_api r))
        (C.delete_role_binding cl rb)

  delete_one-ok :
      (cl : Conn) (rb : RoleBinding) (w : World) (r : Result ApiError Unit)
      → (C.delete_role_binding cl rb w).0 ≡ r
      → (delete_one cl rb w).0 ≡ ok tt
      → (C.delete_role_binding cl rb w).0 ≡ ok tt
  delete_one-ok cl rb w (ok a) e h = e
  delete_one-ok cl rb w (err x) e h = absurd (cc (h, e))

  delete_bindings-eq :
      (cl : Conn) (rbs : List RoleBinding) (w : World)
      → (delete_bindings C cl rbs w).0 ≡ ok tt
      → view (delete_bindings C cl rbs w).1 cl ≡ drop_all rbs (view w cl)
  unfolding delete_bindings drop_all
  delete_bindings-eq cl [] w h = refl
  delete_bindings-eq cl (rb ∷ rbs) w h =
      let (_, e, h', s) = >>=-eq-ok (delete_one cl rb) _ w h in
      rw s (
        delete_bindings-eq cl rbs _ h'
        ∙ rw (S.delete_role_binding_ok cl rb w (delete_one-ok cl rb w _ refl e)))

  delete_bindings-frame :
      (cl d : Conn) (rbs : List RoleBinding) (w : World)
      → d ≢ cl
      → (delete_bindings C cl rbs w).0 ≡ ok tt
      → view (delete_bindings C cl rbs w).1 d ≡ view w d
  unfolding delete_bindings
  delete_bindings-frame cl d [] w apart h = refl
  delete_bindings-frame cl d (rb ∷ rbs) w apart h =
      let (_, e, h', s) = >>=-eq-ok (delete_one cl rb) _ w h in
      rw s (delete_bindings-frame cl d rbs _ apart h' ∙ S.delete_role_binding_frame cl rb w d apart)

  module _ (cl : Conn) (user : String) (w : World) (l : List RoleBinding)
      (listed : (C.list_role_bindings cl role_level_label global_level subject_name_index user w).0
        ≡ ok l) where
    -- What stands under a key is in the list if and only if it is one of the user's.
    has_key-listed :
        (n j : String) (rb : RoleBinding)
        → (view w cl).bindings n j ≡ some rb
        → has_key n j l ≡ is_global_of index user rb
    has_key-listed n j rb at =
        let law = S.list_role_bindings_ok cl role_level_label global_level user w l listed in
        let (in_n, in_j) = S.binding_key w cl n j rb at in
        elim (Bool-cases (is_global_of index user rb)) [
          | inl mine ↦
              let m : In rb l = (law rb).1 (cc (in_n, in_j, at), mine) in
              rw mine (cc (in_n, in_j, has_key-In rb l m))
          | inr not_mine ↦ rw not_mine (elim (Bool-cases (has_key n j l)) [
            | inr e ↦ e
            | inl e ↦
                let (x, m, p, q) = In-of_has_key n j l e in
                let (stored, mine) = (law x).0 m in
                let same : rb ≡ x = some-injective rb x (sym at ∙ rw (p, q) at stored) in
                absurd (cc (mine, not_mine, ap (is_global_of index user) same))
          ])
        ]

    listed_at :
        (n j : String) (o : Option RoleBinding)
        → (view w cl).bindings n j ≡ o
        → (if has_key n j l then none else o) ≡ without (is_global_of index user) o
    listed_at n j none at = elim (Bool-cases (has_key n j l)) [ inl e ↦ rw e | inr e ↦ rw e ]
    listed_at n j (some rb) at = rw (has_key-listed n j rb at)

  abbrev list_mine : Conn → String → World → Result Error (List RoleBinding) × World
  list_mine cl user =
      settle (λ r. wrap list_role_bindings_failed (from_api r))
        (C.list_role_bindings cl role_level_label global_level subject_name_index user)

  list_mine-ok :
      (cl : Conn) (user : String) (w : World) {l : List RoleBinding}
      (r : Result ApiError (List RoleBinding))
      → (C.list_role_bindings cl role_level_label global_level subject_name_index user w).0 ≡ r
      → (list_mine cl user w).0 ≡ ok l
      → (C.list_role_bindings cl role_level_label global_level subject_name_index user w).0 ≡ ok l
  list_mine-ok cl user w (ok a) e h = cc (h, e)
  list_mine-ok cl user w (err x) e h = absurd (cc (h, e))

  revoke-at :
      (cl : Conn) (user : String) (w : World) (n j : String)
      → (revoke C cl user w).0 ≡ ok tt
      → (view (revoke C cl user w).1 cl).bindings n j
        ≡ without (is_global_of index user) ((view w cl).bindings n j)
  unfolding revoke
  revoke-at cl user w n j h =
      let (l, e, h', s) = >>=-eq-ok (list_mine cl user) _ w h in
      let same =
        S.list_role_bindings_view cl role_level_label global_level subject_name_index user w in
      rw (s, delete_bindings-eq cl l _ h', drop_all-at, same)
        (listed_at cl user w l (list_mine-ok cl user w _ refl e) n j _ refl)

  revoke-frame :
      (cl d : Conn) (user : String) (w : World)
      → d ≢ cl
      → (revoke C cl user w).0 ≡ ok tt
      → view (revoke C cl user w).1 d ≡ view w d
  unfolding revoke
  revoke-frame cl d user w apart h =
      let (l, e, h', s) = >>=-eq-ok (list_mine cl user) _ w h in
      let same =
        S.list_role_bindings_view cl role_level_label global_level subject_name_index user w in
      rw (s, delete_bindings-frame cl d l _ apart h') (ap (λ v. v d) same)

  revoke_all-frame :
      (d : Conn) (user : String) (clients : List (String × Conn)) (w : World)
      → Apart d clients
      → (revoke_all C clients user w).0 ≡ ok tt
      → view (revoke_all C clients user w).1 d ≡ view w d
  unfolding revoke_all
  revoke_all-frame d user [] w apart h = refl
  revoke_all-frame d user ((_, cl) ∷ clients) w (differ, apart) h =
      let (_, e, h', s) = >>=-eq-ok (revoke C cl user) _ w h in
      rw s (revoke_all-frame d user clients _ apart h' ∙ revoke-frame cl d user w differ e)

  revoke_all-at :
      (clients : List (String × Conn)) (user name : String) (cl : Conn) (w : World) (n j : String)
      → Distinct clients
      → In (name, cl) clients
      → (revoke_all C clients user w).0 ≡ ok tt
      → (view (revoke_all C clients user w).1 cl).bindings n j
        ≡ without (is_global_of index user) ((view w cl).bindings n j)
  unfolding revoke_all
  revoke_all-at [] user name cl w n j _ m h = absurd m
  revoke_all-at ((_, c) ∷ clients) user name cl w n j (apart, distinct) (inl p) h =
      let same : cl ≡ c = ap (λ (q : String × Conn). q.1) p in
      let (_, e, h', s) = >>=-eq-ok (revoke C c user) _ w h in
      rw (s, same, revoke_all-frame c user clients (revoke C c user w).1 apart h')
        (revoke-at c user w n j e)
  revoke_all-at ((_, c) ∷ clients) user name cl w n j (apart, distinct) (inr m) h =
      let (_, e, h', s) = >>=-eq-ok (revoke C c user) _ w h in
      let before = revoke-frame c cl user w (ne-of_Apart c name cl clients apart m) e in
      rw s
        (rw before at (revoke_all-at clients user name cl (revoke C c user w).1 n j distinct m h'))

  -- When the global user of a request is not found and `Reconcile` returns no error, then in every
  -- configured cluster exactly the role bindings at the global level whose indexed subject is the
  -- user are gone; every other one is there as it was.
  pub reconcile-revokes :
      (r : GlobalUserReconciler C) (request : Request) (name : String) (cl : Conn) (w : World)
      (n j : String)
      → Distinct r.cluster_clients
      → In (name, cl) r.cluster_clients
      → (C.get_global_user r.client request w).0 ≡ err not_found
      → (reconcile C r request w).0 ≡ ok tt
      → (view (reconcile C r request w).1 cl).bindings n j
        ≡ without (is_global_of index request.name) ((view w cl).bindings n j)
  unfolding reconcile
  reconcile-revokes r request name cl w n j distinct m missing h =
      let w' = (C.get_global_user r.client request w).1 in
      let same = S.get_global_user_view r.client request w in
      let revoked : reconcile C r request w
          ≡ settle (wrap deleted_global_user_failed) (revoke_all C r.cluster_clients request.name)
              w' =
        rw (missing, reconcile) in
      let h' = wrap-eq-ok deleted_global_user_failed _ (rw revoked at h) in
      rw revoked
        (rw same at (revoke_all-at r.cluster_clients request.name name cl w' n j distinct m h'))
