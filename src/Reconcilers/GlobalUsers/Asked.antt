-- ===== src/Reconcilers/GlobalUsers/Asked.antt =====
-- The role bindings that a global user asks for in reconcilers/global_user.go, and clusters with more of them.
use mathlib.Core.Option.{or_else}
use auth_explore.Base.{
  String, Bool, ◌≡◌, refl, sym, ◌∙◌, Option, none, some, true, false, List, [], ◌∷◌, ◌++◌, In, inl,
  inr, map, arith, eq_iff, ne-of_test, eq_self, ◌==◌, if◌then◌else◌, Bool-cases, contains,
}
use auth_explore.Api.{GlobalUser}
use auth_explore.Kube.{Namespace, RoleBinding, has_label}
use auth_explore.Kube.Server.{Cluster}
use auth_explore.Reconcilers.{org_label, global_level}
use auth_explore.Reconcilers.Bindings.Granting.{requested, binding_at}
use auth_explore.Reconcilers.Bindings.Granting.Repeat.{requested-InNamespace}
use auth_explore.Reconcilers.Orgs.Spaces.{binding_at-append, or_else_assoc}
use auth_explore.Reconcilers.Orgs.Elsewhere.{binding_at-elsewhere}
use auth_explore.Reconcilers.GlobalUsers.{ns_name}
use auth_explore.Reconcilers.GlobalUsers.Grants.{user_of}

-- The role bindings of the user in one namespace, and in all of a list.
abbrev pub asked : GlobalUser → String → List RoleBinding
asked g n = requested (user_of g ∷ []) global_level n

unfoldable pub all_asked : GlobalUser → List String → List RoleBinding
all_asked g [] = []
all_asked g (n ∷ names) = asked g n ++ all_asked g names

-- The cluster is as it was, with these role bindings where there was none.
pub record Given (added : String → String → Option RoleBinding) (k k' : Cluster) : Type 0 where
  pub namespaces : k'.namespaces ≡ k.namespaces
  pub deleting : k'.deleting ≡ k.deleting
  pub bindings : (n j : String) → k'.bindings n j ≡ or_else (k.bindings n j) (added n j)

or_else-again : {A : Type 0} (c : Bool) (o : Option A) → or_else o (if c then o else none) ≡ o
unfolding or_else
or_else-again c (some x) = refl
or_else-again true none = refl
or_else-again false none = refl

pub all_asked-at :
    (g : GlobalUser) (names : List String) (n j : String)
    → binding_at n j (all_asked g names)
      ≡ (if contains names n then binding_at n j (asked g n) else none)
unfolding all_asked or_else
all_asked-at g [] n j = refl
all_asked-at g (m ∷ names) n j =
    let ih = all_asked-at g names n j in
    elim (Bool-cases (m == n)) [
      | inl t ↦
          rw (t, binding_at-append, ih, (eq_iff m n).0 t)
            (or_else-again (contains names n) (binding_at n j (asked g n)))
      | inr f ↦
          let none_here =
            binding_at-elsewhere m n j (asked g m)
              (requested-InNamespace (user_of g ∷ []) global_level m)
              (λ p. ne-of_test m n f (sym p)) in
          rw (f, binding_at-append, none_here) ih
    ]

pub Given-trans :
    (a b : String → String → Option RoleBinding) (k k' k'' : Cluster)
    → Given a k k'
    → Given b k' k''
    → Given (λ n j. or_else (a n j) (b n j)) k k''
Given-trans a b k k' k'' g h = record {
  namespaces = h.namespaces ∙ g.namespaces;
  deleting = h.deleting ∙ g.deleting;
  bindings = λ n j. h.bindings n j ∙ rw (g.bindings n j) (or_else_assoc _ _ _);
}

pub Given-eq :
    (a b : String → String → Option RoleBinding) (k k' : Cluster)
    → ((n j : String) → a n j ≡ b n j)
    → Given a k k'
    → Given b k k'
Given-eq a b k k' e g = record {
  namespaces = g.namespaces;
  deleting = g.deleting;
  bindings = λ n j. g.bindings n j ∙ rw (e n j) refl;
}

-- Does the namespace carry the org label?
abbrev pub org_labelled : Option Namespace → Bool
org_labelled none = false
org_labelled (some ns) = has_label org_label ns.labels

pub In-contains : (names : List String) (n : String) → In n names → contains names n ≡ true
In-contains [] n m = absurd m
In-contains (x ∷ names) n (inl e) = rw (sym e, eq_self n) refl
In-contains (x ∷ names) n (inr m) = ground (arith, In-contains names n m)

pub In-of_contains :
    (l : List Namespace) (n : String)
    → contains (map ns_name l) n ≡ true
    → (ns : Namespace) × In ns l × (ns.name ≡ n)
In-of_contains [] n h = absurd (cc h)
In-of_contains (ns ∷ l) n h = elim (Bool-cases (ns.name == n)) [
  | inl t ↦ (ns, inl refl, (eq_iff ns.name n).0 t)
  | inr f ↦ let (x, i, e) = In-of_contains l n (rw f at h) in (x, inr i, e)
]
