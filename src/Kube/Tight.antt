-- ===== src/Kube/Tight.antt =====
-- What a call can bring into a cluster: the object that it is given, in the cluster of its client,
-- and nothing else. This holds of calls that fail, too.
use auth_explore.Base.{String, ◌≡◌, ◌⊎◌, some, List}
use auth_explore.Kube.{Namespace, RoleBinding, Client}
use auth_explore.Kube.Server.{IsServer}

module _ (C : Client) (field : String) (index : RoleBinding → List String)
    (S : IsServer C field index) where
  open C use {World, Conn}
  open S use {view}

  pub record IsTight : Type 0 where
    pub create_role_binding_adds :
        (d c : Conn) (rb : RoleBinding) (w : World) (n j : String) (x : RoleBinding)
        → (view (C.create_role_binding d rb w).1 c).bindings n j ≡ some x
        → ((view w c).bindings n j ≡ some x) ⊎ ((c ≡ d) × (x ≡ rb))
    pub create_role_binding_keeps :
        (d c : Conn) (rb : RoleBinding) (w : World) (j : String) (x : Namespace)
        → (view (C.create_role_binding d rb w).1 c).namespaces j ≡ some x
        → (view w c).namespaces j ≡ some x
    pub create_namespace_adds :
        (d c : Conn) (ns : Namespace) (w : World) (j : String) (x : Namespace)
        → (view (C.create_namespace d ns w).1 c).namespaces j ≡ some x
        → ((view w c).namespaces j ≡ some x) ⊎ ((c ≡ d) × (x ≡ ns))
    pub create_namespace_keeps :
        (d c : Conn) (ns : Namespace) (w : World) (n j : String) (x : RoleBinding)
        → (view (C.create_namespace d ns w).1 c).bindings n j ≡ some x
        → (view w c).bindings n j ≡ some x
    pub delete_role_binding_bindings :
        (d c : Conn) (rb : RoleBinding) (w : World) (n j : String) (x : RoleBinding)
        → (view (C.delete_role_binding d rb w).1 c).bindings n j ≡ some x
        → (view w c).bindings n j ≡ some x
    pub delete_role_binding_namespaces :
        (d c : Conn) (rb : RoleBinding) (w : World) (j : String) (x : Namespace)
        → (view (C.delete_role_binding d rb w).1 c).namespaces j ≡ some x
        → (view w c).namespaces j ≡ some x
    pub delete_namespaces_left :
        (d c : Conn) (key value : String) (w : World) (n j : String) (x : RoleBinding)
        → (view (C.delete_namespaces d key value w).1 c).bindings n j ≡ some x
        → (view w c).bindings n j ≡ some x
    pub delete_namespaces_namespaces :
        (d c : Conn) (key value : String) (w : World) (j : String) (x : Namespace)
        → (view (C.delete_namespaces d key value w).1 c).namespaces j ≡ some x
        → (view w c).namespaces j ≡ some x
