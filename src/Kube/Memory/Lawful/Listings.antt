-- ===== src/Kube/Memory/Lawful/Listings.antt =====
-- The keys and the lists of the server in memory.
use mathlib.Core.Path.{subst}
use auth_explore.Base.{String, ◌≡◌, ap, ◌↔◌, true, some, List, In, ◌==◌, eq_iff}
use auth_explore.Base.Exec.{Result, ok}
use auth_explore.Kube.{Namespace, RoleBinding, ApiError, has_label}
use auth_explore.Kube.Server.{matches}
use auth_explore.Kube.Memory.{
  Machine, Key, key_eq, binding_key, namespace_key, find_namespace, find_binding, memory,
}
use auth_explore.Kube.Memory.Table.{find-key, In-listing}
use auth_explore.Kube.Memory.Lawful.Views.{key_eq_iff, cluster, view}

pub ok-eq : {A : Type 0} {a b : A} → ◌≡◌ {A = Result ApiError A} (ok a) (ok b) → a ≡ b
ok-eq h = cc

pub namespace_key_lem :
    (w : Machine) (c j : String) (ns : Namespace) → (view w c).namespaces j ≡ some ns → ns.name ≡ j
unfolding cluster find_namespace
namespace_key_lem w c j ns h = find-key ◌==◌ namespace_key eq_iff j (w.clusters c).namespaces ns h

pub binding_key_lem :
    (w : Machine) (c n j : String) (rb : RoleBinding)
    → (view w c).bindings n j ≡ some rb
    → (rb.namespace ≡ n) × (rb.name ≡ j)
unfolding cluster find_binding
binding_key_lem w c n j rb h =
    let e : ◌≡◌ {A = Key} (binding_key rb) (n, j) =
      find-key key_eq binding_key key_eq_iff (n, j) (w.clusters c).bindings rb h in
    (ap (λ (k : Key). k.0) e, ap (λ (k : Key). k.1) e)

pub list_namespaces_lem :
    (index : RoleBinding → List String) (c key : String) (w : Machine) (l : List Namespace)
    → ((memory index).list_namespaces c key w).0 ≡ ok l
    → (ns : Namespace)
    → In ns l ↔ (((view w c).namespaces ns.name ≡ some ns) × (has_label key ns.labels ≡ true))
unfolding cluster find_namespace
list_namespaces_lem index c key w l h ns =
    subst
      (λ (t : List Namespace).
        In ns t ↔ (((view w c).namespaces ns.name ≡ some ns) × (has_label key ns.labels ≡ true)))
      (ok-eq h)
      (In-listing ◌==◌ namespace_key eq_iff (λ x. has_label key x.labels) ns
        (w.clusters c).namespaces)

pub list_role_bindings_lem :
    (index : RoleBinding → List String) (c key value f x : String) (w : Machine)
    (l : List RoleBinding)
    → ((memory index).list_role_bindings c key value f x w).0 ≡ ok l
    → (rb : RoleBinding)
    → In rb l ↔ (
        ((view w c).bindings rb.namespace rb.name ≡ some rb)
        × (matches index key value x rb ≡ true))
unfolding cluster find_binding
list_role_bindings_lem index c key value f x w l h rb =
    subst
      (λ (t : List RoleBinding). In rb t ↔ (
        ((view w c).bindings rb.namespace rb.name ≡ some rb)
        × (matches index key value x rb ≡ true)))
      (ok-eq h)
      (In-listing key_eq binding_key key_eq_iff (matches index key value x) rb
        (w.clusters c).bindings)
