-- ===== src/Reconcilers/Orgs/Elsewhere.antt =====
-- What `reconcileSpace` of reconcilers/org.go leaves alone: the other namespaces of every cluster.
use mathlib.Core.Option.{or_else, some-injective}
use mathlib.Core.Path.{subst}
use auth_explore.Base.{
  String, Bool, ◌≡◌, refl, sym, ap, ◌∙◌, ◌≢◌, ◌⊎◌, inl, inr, Option, none, some, List, [], ◌∷◌,
  ◌++◌, ◌==◌, ◌&&◌, if◌then◌else◌, eq-of-ne, lookup, Bool-cases,
}
use auth_explore.Base.Exec.{ok, >>=-eq-ok}
use auth_explore.Api.{User, Space, Org}
use auth_explore.Kube.{RoleBinding, Client}
use auth_explore.Kube.Server.{Cluster, Distinct, Apart, put_binding, IsServer}
use auth_explore.Reconcilers.{global_level, other_level}
use auth_explore.Reconcilers.Bindings.{create_role_bindings}
use auth_explore.Reconcilers.Bindings.Granting.{binding_at, AllFresh, nil, cons}
use auth_explore.Reconcilers.Bindings.Granting.Frame.{
  create_role_bindings-frame, create_role_bindings-namespaces,
}
use auth_explore.Reconcilers.Bindings.Granting.Repeat.{
  InNamespace, InNamespace-append, requested-InNamespace,
}
use auth_explore.Reconcilers.Namespaces.{org_namespace, create_namespace}
use auth_explore.Reconcilers.Namespaces.Creation.{Created, create_namespace-Created}
use auth_explore.Reconcilers.Orgs.{namespace_name, reconcile_space}
use auth_explore.Reconcilers.Orgs.Spaces.{space_bindings, reconcile_space-ready}

-- A namespace of the cluster, its end and its role bindings are as they were.
pub record Unmoved (n : String) (k k' : Cluster) : Type 0 where
  pub here : k'.namespaces n ≡ k.namespaces n
  pub its_end : k'.deleting n ≡ k.deleting n
  pub inside : (j : String) → k'.bindings n j ≡ k.bindings n j

pub Unmoved-same : (n : String) (k k' : Cluster) → k' ≡ k → Unmoved n k k'
Unmoved-same n k k' e = record {
  here = ap (λ (c : Cluster). c.namespaces n) e;
  its_end = ap (λ (c : Cluster). c.deleting n) e;
  inside = λ j. ap (λ (c : Cluster). c.bindings n j) e;
}

pub Unmoved-trans :
    (n : String) (k k' k'' : Cluster) → Unmoved n k k' → Unmoved n k' k'' → Unmoved n k k''
Unmoved-trans n k k' k'' a b = record {
  here = b.here ∙ a.here;
  its_end = b.its_end ∙ a.its_end;
  inside = λ j. b.inside j ∙ a.inside j;
}

pub space_bindings-InNamespace :
    (org : Org) (space : Space) (global_users : List User)
    → InNamespace (namespace_name org space) (space_bindings org space global_users)
space_bindings-InNamespace org space global_users =
    InNamespace-append (namespace_name org space) _ _
      (requested-InNamespace global_users global_level (namespace_name org space))
      (requested-InNamespace (org.spec.users ++ space.users) other_level (namespace_name org space))

pub binding_at-elsewhere :
    (n m j : String) (rbs : List RoleBinding)
    → InNamespace n rbs
    → m ≢ n
    → binding_at m j rbs ≡ none
binding_at-elsewhere n m j [] same apart = refl
binding_at-elsewhere n m j (rb ∷ rbs) (e, same) apart =
    rw (e, eq-of-ne m n apart) (binding_at-elsewhere n m j rbs same apart)

put_binding-inside :
    (n : String) (rb : RoleBinding) (k k' : Cluster)
    → ((j : String) → k'.bindings n j ≡ k.bindings n j)
    → (j : String) → (put_binding rb k').bindings n j ≡ (put_binding rb k).bindings n j
put_binding-inside n rb k k' e j =
    ap (λ o. if n == rb.namespace && j == rb.name then some rb else o) (e j)

pub Unmoved-AllFresh :
    (n : String) (rbs : List RoleBinding) (k k' : Cluster)
    → InNamespace n rbs
    → ((j : String) → k'.bindings n j ≡ k.bindings n j)
    → AllFresh rbs k
    → AllFresh rbs k'
Unmoved-AllFresh n [] k k' same e fresh = nil
Unmoved-AllFresh n (rb ∷ rbs) k k' (here, same) e (cons absent fresh) =
    cons (rw here (e rb.name) ∙ absent) (
      Unmoved-AllFresh n rbs (put_binding rb k) (put_binding rb k') same
        (put_binding-inside n rb k k' e) fresh)

pub lookup-Apart :
    {A : Type 0} (x : A) (clients : List (String × A)) (b : String) (d : A)
    → Apart x clients
    → lookup b clients ≡ some d
    → d ≢ x
lookup-Apart x [] b d apart f = absurd (cc f)
lookup-Apart x ((n, y) ∷ clients) b d (differ, apart) f = elim (Bool-cases (n == b)) [
  | inl t ↦ λ p. differ (sym p ∙ some-injective _ _ (sym (rw t at f)))
  | inr t ↦ lookup-Apart x clients b d apart (rw t at f)
]

-- The clients that two names are configured with are one client, or they are apart.
pub same_or_apart :
    {A : Type 0} (clients : List (String × A)) (a b : String) (c d : A)
    → Distinct clients
    → lookup a clients ≡ some c
    → lookup b clients ≡ some d
    → (d ≡ c) ⊎ (d ≢ c)
same_or_apart [] a b c d apart e f = absurd (cc e)
same_or_apart ((n, x) ∷ clients) a b c d (apart, distinct) e f = elim (Bool-cases (n == a)) [
  | inl t ↦ elim (Bool-cases (n == b)) [
    | inl u ↦ inl (sym (some-injective _ _ (rw u at f)) ∙ some-injective _ _ (rw t at e))
    | inr u ↦ inr (
        subst (λ (y : _). d ≢ y) (some-injective _ _ (rw t at e))
          (lookup-Apart x clients b d apart (rw u at f)))
  ]
  | inr t ↦ elim (Bool-cases (n == b)) [
    | inl u ↦ inr λ p.
        lookup-Apart x clients a c apart (rw t at e) (sym p ∙ sym (some-injective _ _ (rw u at f)))
    | inr u ↦ same_or_apart clients a b c d distinct (rw t at e) (rw u at f)
  ]
]

Created-deleting : (org n : String) {k k' : Cluster} → Created org n k k' → k'.deleting ≡ k.deleting
unfolding org_namespace
Created-deleting org n (inl (absent, e)) = rw e refl
Created-deleting org n (inr (there, e)) = rw e refl

pub or_else-none : {A : Type 0} (o : Option A) → or_else o none ≡ o
unfolding or_else
or_else-none none = refl
or_else-none (some x) = refl

Created-Unmoved : (org n m : String) (k k' : Cluster) → m ≢ n → Created org n k k' → Unmoved m k k'
unfolding org_namespace
Created-Unmoved org n m k k' apart (inl (absent, e)) = record {
  here = rw (e, eq-of-ne m n apart) refl;
  its_end = rw e refl;
  inside = λ j. rw e refl;
}
Created-Unmoved org n m k k' apart (inr (there, e)) = Unmoved-same m k k' e

module _ (C : Client) (field : String) (index : RoleBinding → List String)
    (S : IsServer C field index) where
  open C use {World, Conn}
  open S use {view}

  pub reconcile_space-frame :
      (cl d : Conn) (org : Org) (space : Space) (global_users : List User) (w : World)
      → d ≢ cl
      → (reconcile_space C cl org space global_users w).0 ≡ ok tt
      → view (reconcile_space C cl org space global_users w).1 d ≡ view w d
  unfolding reconcile_space create_namespace
  reconcile_space-frame cl d org space global_users w apart h =
      let namespace = namespace_name org space in
      let users = org.spec.users ++ space.users in
      let (_, e₁, h₁, s₁) = >>=-eq-ok (create_namespace C cl org namespace) _ w h in
      let (_, e₂, h₂, s₂) =
        >>=-eq-ok (create_role_bindings C cl global_users global_level namespace) _ _ h₁ in
      let w₁ = (create_namespace C cl org namespace w).1 in
      let w₂ = (create_role_bindings C cl global_users global_level namespace w₁).1 in
      rw (s₁, s₂)
        (create_role_bindings-frame C field index S cl d users other_level namespace w₂ apart
          ∙ create_role_bindings-frame C field index S cl d global_users global_level namespace w₁
              apart
          ∙ S.create_namespace_frame cl (org_namespace org.name namespace) w d apart)

  pub reconcile_space-deleting :
      (cl : Conn) (org : Org) (space : Space) (global_users : List User) (w : World)
      → (reconcile_space C cl org space global_users w).0 ≡ ok tt
      → (view (reconcile_space C cl org space global_users w).1 cl).deleting ≡ (view w cl).deleting
  unfolding reconcile_space
  reconcile_space-deleting cl org space global_users w h =
      let namespace = namespace_name org space in
      let users = org.spec.users ++ space.users in
      let (_, e₁, h₁, s₁) = >>=-eq-ok (create_namespace C cl org namespace) _ w h in
      let (_, e₂, h₂, s₂) =
        >>=-eq-ok (create_role_bindings C cl global_users global_level namespace) _ _ h₁ in
      let w₁ = (create_namespace C cl org namespace w).1 in
      let w₂ = (create_role_bindings C cl global_users global_level namespace w₁).1 in
      rw (s₁, s₂)
        ((create_role_bindings-namespaces C field index S cl users other_level namespace w₂).1
          ∙ (create_role_bindings-namespaces C field index S cl global_users global_level namespace
              w₁).1
          ∙ Created-deleting org.name namespace
              (create_namespace-Created C field index S cl org namespace w e₁))

  -- When `reconcileSpace` succeeds, every other namespace is as it was, in the cluster of the space
  -- and in every other.
  pub reconcile_space-Unmoved :
      (cl d : Conn) (org : Org) (space : Space) (global_users : List User) (w : World) (m : String)
      → (d ≡ cl) ⊎ (d ≢ cl)
      → m ≢ namespace_name org space
      → (reconcile_space C cl org space global_users w).0 ≡ ok tt
      → Unmoved m (view w d) (view (reconcile_space C cl org space global_users w).1 d)
  reconcile_space-Unmoved cl d org space global_users w m (inr differ) apart h =
      Unmoved-same m _ _ (reconcile_space-frame cl d org space global_users w differ h)
  reconcile_space-Unmoved cl d org space global_users w m (inl e) apart h =
      let w' = (reconcile_space C cl org space global_users w).1 in
      let ready =
        λ (j : String). reconcile_space-ready C field index S cl org space global_users w m m j h in
      subst (λ c. Unmoved m (view w c) (view w' c)) (sym e)
        (record {
          here = rw ((ready m).0, eq-of-ne m (namespace_name org space) apart) (or_else-none _);
          its_end =
              ap (λ (f : String → Bool). f m)
                (reconcile_space-deleting cl org space global_users w h);
          inside = λ j.
              (ready j).3
              ∙ rw
                  (binding_at-elsewhere (namespace_name org space) m j _
                    (space_bindings-InNamespace org space global_users) apart)
                  (or_else-none _);
        })
