-- ===== src/Reconcilers/Orgs/Exact.antt =====
-- The clusters that `Reconcile` of reconcilers/org.go makes of those that it finds, exactly.
use mathlib.Core.Option.{or_else, some-injective}
use mathlib.Core.Path.{subst}
use auth_explore.Base.{
  String, Bool, ◌≡◌, refl, sym, ap, ◌∙◌, ◌≢◌, ◌&&◌, Option, none, some, true, false, List, [], ◌∷◌,
  ◌++◌, In, inl, inr, lookup, map, arith, eq_iff, ◌==◌, if◌then◌else◌, Bool-cases,
}
use auth_explore.Base.Exec.{Result, ok}
use auth_explore.Api.{User, Space, Org, GlobalUser}
use auth_explore.Kube.{Namespace, RoleBinding, Client, Request}
use auth_explore.Kube.Server.{Cluster, Distinct, IsServer, IsHealthy}
use auth_explore.Reconcilers.{Error}
use auth_explore.Reconcilers.Bindings.Granting.{binding_at}
use auth_explore.Reconcilers.Namespaces.{org_namespace}
use auth_explore.Reconcilers.Orgs.{
  OrgReconciler, namespace_name, as_user, reconcile_space, reconcile_spaces, reconcile,
}
use auth_explore.Reconcilers.Orgs.Spaces.{
  space_bindings, reconcile_space-ready, binding_at-append, or_else_assoc,
}
use auth_explore.Reconcilers.Orgs.Elsewhere.{
  or_else-none, lookup-Apart, reconcile_space-frame, reconcile_space-deleting,
}
use auth_explore.Reconcilers.Orgs.Complete.{
  Separate, Waiting, Smooth, done, turn, before_loop, before_loop-view, reconcile-loop,
  loop_complete,
}

-- What the spaces of one cluster come to: the role bindings in their order, and the namespace of a
-- name.
abbrev pub wanted_bindings : Org → List User → String → List Space → List RoleBinding
wanted_bindings org global_users cluster_name [] = []
wanted_bindings org global_users cluster_name (s ∷ spaces) =
    let rest = wanted_bindings org global_users cluster_name spaces in
    if s.cluster_name == cluster_name then space_bindings org s global_users ++ rest else rest

abbrev pub wanted_namespace : Org → String → String → List Space → Option Namespace
wanted_namespace org cluster_name n [] = none
wanted_namespace org cluster_name n (s ∷ spaces) =
    let rest = wanted_namespace org cluster_name n spaces in
    if s.cluster_name == cluster_name && n == namespace_name org s
    then some (org_namespace org.name (namespace_name org s))
    else rest

-- The cluster is as it was, with what its spaces come to where there was nothing.
pub record Filled (org : Org) (global_users : List User) (cluster_name : String)
    (spaces : List Space) (k k' : Cluster) : Type 0 where
  pub namespaces :
      (n : String)
      → k'.namespaces n ≡ or_else (k.namespaces n) (wanted_namespace org cluster_name n spaces)
  pub deleting : k'.deleting ≡ k.deleting
  pub bindings :
      (n j : String)
      → k'.bindings n j
        ≡ or_else
            (k.bindings n j)
            (binding_at n j (wanted_bindings org global_users cluster_name spaces))

lookup_apart :
    {A : Type 0} (clients : List (String × A)) (a b : String) (c d : A)
    → Distinct clients
    → lookup a clients ≡ some c
    → lookup b clients ≡ some d
    → (a == b) ≡ false
    → d ≢ c
lookup_apart [] a b c d distinct e f differ = absurd (cc e)
lookup_apart ((n, x) ∷ clients) a b c d (apart, distinct) e f differ = elim (Bool-cases (n == a)) [
  | inl t ↦ elim (Bool-cases (n == b)) [
    | inl u ↦ absurd (ground (arith, eq_iff n a, eq_iff n b, eq_iff a b))
    | inr u ↦
        subst (λ y. d ≢ y) (some-injective _ _ (rw t at e))
          (lookup-Apart x clients b d apart (rw u at f))
  ]
  | inr t ↦ elim (Bool-cases (n == b)) [
    | inl u ↦ λ p.
        lookup-Apart x clients a c apart (rw t at e) (sym p ∙ sym (some-injective _ _ (rw u at f)))
    | inr u ↦ lookup_apart clients a b c d distinct (rw t at e) (rw u at f) differ
  ]
]

Filled-nil :
    (org : Org) (global_users : List User) (cluster_name : String) (k : Cluster)
    → Filled org global_users cluster_name [] k k
Filled-nil org global_users cluster_name k = record {
  namespaces = λ n. sym (or_else-none _);
  deleting = refl;
  bindings = λ n j. sym (or_else-none _);
}

-- A space of another cluster changes nothing in this one.
Filled-skip :
    (org : Org) (global_users : List User) (cluster_name : String) (s : Space) (spaces : List Space)
    (k k₁ k' : Cluster)
    → (s.cluster_name == cluster_name) ≡ false
    → k₁ ≡ k
    → Filled org global_users cluster_name spaces k₁ k'
    → Filled org global_users cluster_name (s ∷ spaces) k k'
Filled-skip org global_users cluster_name s spaces k k₁ k' other same f =
    subst (λ c. Filled org global_users cluster_name (s ∷ spaces) c k') same
      (record {
        namespaces = λ n. rw other (f.namespaces n);
        deleting = f.deleting;
        bindings = λ n j. rw other (f.bindings n j);
      })

or_else-if :
    {A : Type 0} (t : Bool) (x : A) (o : Option A)
    → or_else (if t then some x else none) o ≡ (if t then some x else o)
unfolding or_else
or_else-if true x o = refl
or_else-if false x o = refl

module _ (C : Client) (field : String) (index : RoleBinding → List String)
    (S : IsServer C field index) (r : OrgReconciler C) (org : Org) (global_users : List User) where
  open C use {World, Conn}
  open S use {view}

  reconcile_space-Filled :
      (cl : Conn) (s : Space) (cluster_name : String) (spaces : List Space) (w : World)
      (k' : Cluster)
      → (s.cluster_name == cluster_name) ≡ true
      → (reconcile_space C cl org s global_users w).0 ≡ ok tt
      → Filled org global_users cluster_name spaces
          (view (reconcile_space C cl org s global_users w).1 cl)
          k'
      → Filled org global_users cluster_name (s ∷ spaces) (view w cl) k'
  reconcile_space-Filled cl s cluster_name spaces w k' own h f =
      let ready =
        λ (n j : String). reconcile_space-ready C field index S cl org s global_users w n n j h in
      record {
        namespaces = λ n. rw own (
            f.namespaces n
            ∙ rw (ready n n).0 (or_else_assoc _ _ _)
            ∙ ap (or_else _) (or_else-if (n == namespace_name org s) _ _));
        deleting = f.deleting ∙ reconcile_space-deleting C field index S cl org s global_users w h;
        bindings = λ n j.
            rw (own, binding_at-append) (f.bindings n j ∙ rw (ready n j).3 (or_else_assoc _ _ _));
      }

  reconcile_spaces-Filled :
      (spaces : List Space) (w : World) (cluster_name : String) (d : Conn)
      → Distinct r.cluster_clients
      → lookup cluster_name r.cluster_clients ≡ some d
      → Smooth C field index S r org global_users spaces w
      → Filled org global_users cluster_name spaces
          (view w d)
          (view (reconcile_spaces C r org global_users spaces (ok tt) w).1 d)
  unfolding reconcile_spaces
  reconcile_spaces-Filled [] w cluster_name d distinct f done =
      Filled-nil org global_users cluster_name (view w d)
  reconcile_spaces-Filled (s ∷ spaces) w cluster_name d distinct f (turn cl e h smooth) =
      let w₁ = (reconcile_space C cl org s global_users w).1 in
      let rest = reconcile_spaces-Filled spaces w₁ cluster_name d distinct f smooth in
      rw (e, h, reconcile_spaces)
        (elim (Bool-cases (s.cluster_name == cluster_name)) [
          | inl own ↦
              let is_cl : d ≡ cl =
                some-injective _ _
                  (sym f ∙ rw (sym ((eq_iff s.cluster_name cluster_name).0 own)) e) in
              subst
                (λ k.
                  Filled org global_users cluster_name (s ∷ spaces) k
                    (view (reconcile_spaces C r org global_users spaces (ok tt) w₁).1 d))
                (ap (view w) (sym is_cl))
                (reconcile_space-Filled cl s cluster_name spaces w _ own h (
                  subst
                    (λ c.
                      Filled org global_users cluster_name spaces (view w₁ c)
                        (view (reconcile_spaces C r org global_users spaces (ok tt) w₁).1 d))
                    is_cl rest))
          | inr other ↦
              let apart =
                lookup_apart r.cluster_clients s.cluster_name cluster_name cl d distinct e f
                  other in
              Filled-skip org global_users cluster_name s spaces (view w d) (view w₁ d) _ other
                (reconcile_space-frame C field index S cl d org s global_users w apart h) rest
        ])

module _ (C : Client) (field : String) (index : RoleBinding → List String)
    (S : IsServer C field index) (H : IsHealthy C field index S) (r : OrgReconciler C) where
  open C use {World, Conn}
  open S use {view}

  -- On healthy servers, with every configured cluster behind a client of its own, `Reconcile` on an
  -- org that is found, with the global users listed, returns no error and leaves each configured
  -- cluster as it was, but for what the spaces of the org with this cluster's name come to: where no
  -- namespace stood, the labelled namespace of the space of that name, and where no role binding
  -- stood, the one that is asked for under its key. Nothing that stood there is changed or removed.
  -- The conditions are that the namespace names of the spaces differ, and that for each space the
  -- cluster is configured, the namespace not being deleted, and none of its role bindings there
  -- already or asked for twice.
  pub reconcile-Filled :
      (request : Request) (org : Org) (items : List GlobalUser) (w : World)
      → (C.get_org r.client request w).0 ≡ ok org
      → (C.list_global_users r.client (C.get_org r.client request w).1).0 ≡ ok items
      → Distinct r.cluster_clients
      → Separate org org.spec.spaces
      → ((space : Space)
          → In space org.spec.spaces
          → Waiting C field index S r org (map as_user items) space w)
      → ((reconcile C r request w).0 ≡ ok tt)
        × ((cluster_name : String) (cl : Conn)
            → lookup cluster_name r.cluster_clients ≡ some cl
            → Filled org
                (map as_user items)
                cluster_name
                org.spec.spaces
                (view w cl)
                (view (reconcile C r request w).1 cl))
  reconcile-Filled request org items w found listed distinct separate waits =
      let users = map as_user items in
      let entered = reconcile-loop C field index S H r request org items w found listed in
      let (e, out, smooth) =
        loop_complete C field index S H r request org users w distinct separate waits in
      let w₁ = before_loop C field index S H r request w in
      (
        ap (λ (p : Result Error Unit × World). p.0) entered ∙ e,
        λ cluster_name cl f.
            subst
              (λ (p : Result Error Unit × World).
                Filled org users cluster_name org.spec.spaces (view w cl) (view p.1 cl))
              (sym entered)
              (subst
                (λ (v : Conn → Cluster).
                  Filled org users cluster_name org.spec.spaces (v cl)
                    (view (reconcile_spaces C r org users org.spec.spaces (ok tt) w₁).1 cl))
                (before_loop-view C field index S H r request w)
                (reconcile_spaces-Filled C field index S r org users org.spec.spaces w₁ cluster_name
                  cl distinct f smooth)),
      )
