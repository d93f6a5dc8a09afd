-- ===== src/Kube/Memory/Lawful/Views.antt =====
-- A cluster of the server in memory as the assumptions see it.
use auth_explore.Base.{
  String, ◌≡◌, refl, ap, ◌≢◌, ◌↔◌, fun_ext, true, false, Option, ◌∷◌, arith, eq_iff, eq_self,
  eq-of-ne,
}
use auth_explore.Kube.{Namespace, RoleBinding}
use auth_explore.Kube.Server.{Cluster, put_namespace, put_binding, drop_binding}
use auth_explore.Kube.Memory.{
  Store, Machine, Key, key_eq, binding_key, find_namespace, find_binding, put_store,
}
use auth_explore.Kube.Memory.Table.{find, erase, find-erase}

pub key_eq_iff : (a b : Key) → (key_eq a b ≡ true) ↔ (a ≡ b)
key_eq_iff (n, j) (n', j') = ground (arith, eq_iff n n', eq_iff j j')

unfoldable pub cluster : Store → Cluster
cluster s = record {
  namespaces = λ j. find_namespace j s.namespaces;
  deleting = λ j. false;
  bindings = λ n j. find_binding (n, j) s.bindings;
}

abbrev pub view : Machine → String → Cluster
view w c = cluster (w.clusters c)

pub put_store_self : (c : String) (s : Store) (w : Machine) → (put_store c s w).clusters c ≡ s
unfolding put_store
put_store_self c s w = rw (eq_self c)

pub put_store-frame :
    (c : String) (s : Store) (w : Machine) (d : String)
    → d ≢ c
    → (put_store c s w).clusters d ≡ w.clusters d
unfolding put_store
put_store-frame c s w d h = rw (eq-of-ne d c h)

pub cluster-add_namespace :
    (ns : Namespace) (s : Store)
    → cluster (record s { namespaces = ns ∷ s.namespaces }) ≡ put_namespace ns (cluster s)
unfolding cluster find_namespace find
cluster-add_namespace ns s = refl

pub cluster-add_binding :
    (rb : RoleBinding) (s : Store)
    → cluster (record s { bindings = rb ∷ s.bindings }) ≡ put_binding rb (cluster s)
unfolding cluster find_binding find
cluster-add_binding rb s = refl

pub cluster-erase :
    (rb : RoleBinding) (s : Store)
    → cluster (record s { bindings = erase key_eq binding_key (binding_key rb) s.bindings })
      ≡ drop_binding rb.namespace rb.name (cluster s)
unfolding cluster find_binding
cluster-erase rb s =
    ap (λ (b : String → String → Option RoleBinding). record (cluster s) { bindings = b })
      (fun_ext λ n.
        fun_ext λ j. find-erase key_eq binding_key key_eq_iff (n, j) (binding_key rb) s.bindings)
