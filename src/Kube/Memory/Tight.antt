-- ===== src/Kube/Memory/Tight.antt =====
-- A call of the server in memory brings in the object that it is given and nothing else.
use mathlib.Core.Path.{subst}
use auth_explore.Base.{
  String, ◌≡◌, refl, sym, ◌∙◌, ◌⊎◌, inl, inr, Bool, true, false, ◌&&◌, Option, none, some, List,
  ◌∷◌, ◌==◌, eq_iff, Bool-cases, Option-cases, if◌then◌else◌,
}
use auth_explore.Kube.{Namespace, RoleBinding}
use auth_explore.Kube.Server.{Cluster}
use auth_explore.Kube.Tight.{IsTight}
use auth_explore.Kube.Memory.{
  Store, Machine, binding_key, find_namespace, find_binding, put_store, create_namespace,
  create_role_binding, delete_role_binding, delete_namespaces, memory,
}
use auth_explore.Kube.Memory.Lawful.{memory-IsServer}
use auth_explore.Kube.Memory.Lawful.Views.{
  cluster, view, cluster-add_namespace, cluster-add_binding, cluster-erase,
}

-- What a store brings into a view.
put_store-view :
    (d c : String) (s : Store) (w : Machine)
    → view (put_store d s w) c ≡ (if c == d then cluster s else view w c)
unfolding put_store
put_store-view d c s w = elim (Bool-cases (c == d)) [ inl e ↦ rw e | inr e ↦ rw e ]

abbrev HasBinding : Cluster → String → String → RoleBinding → Type 0
HasBinding k n j x = k.bindings n j ≡ some x

abbrev HasNamespace : Cluster → String → Namespace → Type 0
HasNamespace k j x = k.namespaces j ≡ some x

-- What a store of a changed cluster holds was there before, or it is new in this cluster.
stored :
    (P : Cluster → Type 0) (Q : Type 0) (d c : String) (s : Store) (w : Machine)
    → (P (cluster s) → P (view w d) ⊎ Q)
    → P (view (put_store d s w) c)
    → P (view w c) ⊎ ((c ≡ d) × Q)
stored P Q d c s w new h = elim (Bool-cases (c == d)) [
  | inl e ↦
      let same : c ≡ d = (eq_iff c d).0 e in
      let here : P (cluster s) = subst P (put_store-view d c s w ∙ rw e refl) h in
      elim (new here) [
        | inl old ↦ inl (subst (λ (x : String). P (view w x)) (sym same) old)
        | inr q ↦ inr (same, q)
      ]
  | inr e ↦ inl (subst P (put_store-view d c s w ∙ rw e refl) h)
]

-- The same for a store that takes away.
kept :
    (P : Cluster → Type 0) (d c : String) (s : Store) (w : Machine)
    → (P (cluster s) → P (view w d))
    → P (view (put_store d s w) c)
    → P (view w c)
kept P d c s w old h = elim (stored P ⊥ d c s w (λ p. inl (old p)) h) [
  | inl before ↦ before
  | inr never ↦ absurd never.1
]

if_some :
    {A : Type 0} (b : Bool) (x y : A) (o : Option A)
    → (if b then some y else o) ≡ some x
    → (o ≡ some x) ⊎ (x ≡ y)
if_some true x y o h = inr (cc h)
if_some false x y o h = inl h

if_none :
    {A : Type 0} (b : Bool) (x : A) (o : Option A) → (if b then none else o) ≡ some x → o ≡ some x
if_none true x o h = absurd (cc h)
if_none false x o h = h

put_binding-adds :
    (rb : RoleBinding) (s : Store) (n j : String) (x : RoleBinding)
    → HasBinding (cluster (record s { bindings = rb ∷ s.bindings })) n j x
    → HasBinding (cluster s) n j x ⊎ (x ≡ rb)
put_binding-adds rb s n j x p =
    if_some (n == rb.namespace && j == rb.name) x rb ((cluster s).bindings n j)
      (subst (λ (k : Cluster). HasBinding k n j x) (cluster-add_binding rb s) p)

create_role_binding_adds :
    (d c : String) (rb : RoleBinding) (w : Machine) (n j : String) (x : RoleBinding)
    → HasBinding (view (create_role_binding d rb w).1 c) n j x
    → HasBinding (view w c) n j x ⊎ ((c ≡ d) × (x ≡ rb))
unfolding create_role_binding
create_role_binding_adds d c rb w n j x h =
    elim (Option-cases (find_namespace rb.namespace (w.clusters d).namespaces)) [
      | inl e ↦ inl (rw (e, create_role_binding) at h)
      | inr (_, e) ↦ elim (Option-cases (find_binding (binding_key rb) (w.clusters d).bindings)) [
        | inr (_, e') ↦ inl (rw (e, e', create_role_binding) at h)
        | inl e' ↦
            stored (λ k. HasBinding k n j x) (x ≡ rb) d c _ w
              (put_binding-adds rb (w.clusters d) n j x) (rw (e, e', create_role_binding) at h)
      ]
    ]

create_role_binding_keeps :
    (d c : String) (rb : RoleBinding) (w : Machine) (j : String) (x : Namespace)
    → HasNamespace (view (create_role_binding d rb w).1 c) j x
    → HasNamespace (view w c) j x
unfolding create_role_binding cluster
create_role_binding_keeps d c rb w j x h =
    elim (Option-cases (find_namespace rb.namespace (w.clusters d).namespaces)) [
      | inl e ↦ rw (e, create_role_binding) at h
      | inr (_, e) ↦ elim (Option-cases (find_binding (binding_key rb) (w.clusters d).bindings)) [
        | inr (_, e') ↦ rw (e, e', create_role_binding) at h
        | inl e' ↦
            kept (λ k. HasNamespace k j x) d c _ w (λ p. p) (rw (e, e', create_role_binding) at h)
      ]
    ]

create_namespace_adds :
    (d c : String) (ns : Namespace) (w : Machine) (j : String) (x : Namespace)
    → HasNamespace (view (create_namespace d ns w).1 c) j x
    → HasNamespace (view w c) j x ⊎ ((c ≡ d) × (x ≡ ns))
unfolding create_namespace
create_namespace_adds d c ns w j x h =
    elim (Option-cases (find_namespace ns.name (w.clusters d).namespaces)) [
      | inr (_, e) ↦ inl (rw (e, create_namespace) at h)
      | inl e ↦
          stored (λ k. HasNamespace k j x) (x ≡ ns) d c _ w
            (λ p. if_some (j == ns.name) x ns ((view w d).namespaces j) (
              subst (λ (k : Cluster). HasNamespace k j x) (cluster-add_namespace ns (w.clusters d))
                p))
            (rw (e, create_namespace) at h)
    ]

create_namespace_keeps :
    (d c : String) (ns : Namespace) (w : Machine) (n j : String) (x : RoleBinding)
    → HasBinding (view (create_namespace d ns w).1 c) n j x
    → HasBinding (view w c) n j x
unfolding create_namespace cluster
create_namespace_keeps d c ns w n j x h =
    elim (Option-cases (find_namespace ns.name (w.clusters d).namespaces)) [
      | inr (_, e) ↦ rw (e, create_namespace) at h
      | inl e ↦ kept (λ k. HasBinding k n j x) d c _ w (λ p. p) (rw (e, create_namespace) at h)
    ]

delete_role_binding_bindings :
    (d c : String) (rb : RoleBinding) (w : Machine) (n j : String) (x : RoleBinding)
    → HasBinding (view (delete_role_binding d rb w).1 c) n j x
    → HasBinding (view w c) n j x
unfolding delete_role_binding
delete_role_binding_bindings d c rb w n j x h =
    elim (Option-cases (find_binding (binding_key rb) (w.clusters d).bindings)) [
      | inl e ↦ rw (e, delete_role_binding) at h
      | inr (_, e) ↦
          kept (λ k. HasBinding k n j x) d c _ w
            (λ p.
              if_none (n == rb.namespace && j == rb.name) x ((view w d).bindings n j)
                (subst (λ (k : Cluster). HasBinding k n j x) (cluster-erase rb (w.clusters d)) p))
            (rw (e, delete_role_binding) at h)
    ]

delete_role_binding_namespaces :
    (d c : String) (rb : RoleBinding) (w : Machine) (j : String) (x : Namespace)
    → HasNamespace (view (delete_role_binding d rb w).1 c) j x
    → HasNamespace (view w c) j x
unfolding delete_role_binding cluster
delete_role_binding_namespaces d c rb w j x h =
    elim (Option-cases (find_binding (binding_key rb) (w.clusters d).bindings)) [
      | inl e ↦ rw (e, delete_role_binding) at h
      | inr (_, e) ↦
          kept (λ k. HasNamespace k j x) d c _ w (λ p. p) (rw (e, delete_role_binding) at h)
    ]

delete_namespaces_left :
    (d c key value : String) (w : Machine) (n j : String) (x : RoleBinding)
    → HasBinding (view (delete_namespaces d key value w).1 c) n j x
    → HasBinding (view w c) n j x
unfolding delete_namespaces
delete_namespaces_left d c key value w n j x h = h

delete_namespaces_namespaces :
    (d c key value : String) (w : Machine) (j : String) (x : Namespace)
    → HasNamespace (view (delete_namespaces d key value w).1 c) j x
    → HasNamespace (view w c) j x
unfolding delete_namespaces
delete_namespaces_namespaces d c key value w j x h = h

pub memory-IsTight :
    (field : String) (index : RoleBinding → List String)
    → IsTight (memory index) field index (memory-IsServer field index)
memory-IsTight field index = record {
  create_role_binding_adds = create_role_binding_adds;
  create_role_binding_keeps = create_role_binding_keeps;
  create_namespace_adds = create_namespace_adds;
  create_namespace_keeps = create_namespace_keeps;
  delete_role_binding_bindings = delete_role_binding_bindings;
  delete_role_binding_namespaces = delete_role_binding_namespaces;
  delete_namespaces_left = delete_namespaces_left;
  delete_namespaces_namespaces = delete_namespaces_namespaces;
}
