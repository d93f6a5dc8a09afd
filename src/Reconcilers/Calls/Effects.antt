-- ===== src/Reconcilers/Calls/Effects.antt =====
-- What a sequence of calls can bring into a cluster: what its rights allow.
use auth_explore.Base.{String, ◌≡◌, ◌⊎◌, inl, inr, some, List}
use mathlib.Core.Path.{subst}
use auth_explore.Kube.{Namespace, RoleBinding, Client}
use auth_explore.Kube.Server.{Cluster, IsServer}
use auth_explore.Kube.Tight.{IsTight}
use auth_explore.Reconcilers.Calls.{
  Rights, Call, get_org, get_global_user, list_global_users, list_namespaces, list_role_bindings,
  create_role_binding, create_namespace, delete_role_binding, delete_namespaces, Calls, done, next,
}

module _ (C : Client) (field : String) (index : RoleBinding → List String)
    (S : IsServer C field index) (T : IsTight C field index S) (R : Rights C) where
  open C use {World, Conn}
  open S use {view}

  -- A role binding, or a namespace, of a cluster is allowed to have come since the cluster was `k`.
  abbrev pub BindingFrom : Conn → Cluster → RoleBinding → String → String → Type 0
  BindingFrom c k x n j = (k.bindings n j ≡ some x) ⊎ R.bind c x

  abbrev pub NamespaceFrom : Conn → Cluster → Namespace → String → Type 0
  NamespaceFrom c k x j = (k.namespaces j ≡ some x) ⊎ R.create c x

  same_binding :
      {w u : World} (c : Conn) (n j : String) (x : RoleBinding)
      → view u ≡ view w
      → (view u c).bindings n j ≡ some x
      → BindingFrom c (view w c) x n j
  same_binding c n j x e h = inl (subst (λ v. (v c).bindings n j ≡ some x) e h)

  Call-binding :
      {w u : World} (c : Conn) (n j : String) (x : RoleBinding)
      → Call C R w u
      → (view u c).bindings n j ≡ some x
      → BindingFrom c (view w c) x n j
  Call-binding {w} c n j x (get_org d q) h = same_binding c n j x (S.get_org_view d q w) h
  Call-binding {w} c n j x (get_global_user d q) h =
      same_binding c n j x (S.get_global_user_view d q w) h
  Call-binding {w} c n j x (list_global_users d) h =
      same_binding c n j x (S.list_global_users_view d w) h
  Call-binding {w} c n j x (list_namespaces d key) h =
      same_binding c n j x (S.list_namespaces_view d key w) h
  Call-binding {w} c n j x (list_role_bindings d key value f y) h =
      same_binding c n j x (S.list_role_bindings_view d key value f y w) h
  Call-binding {w} c n j x (create_role_binding d rb allowed) h =
      elim (T.create_role_binding_adds d c rb w n j x h) [
        | inl old ↦ inl old
        | inr new ↦ inr (rw (new.0, new.1) allowed)
      ]
  Call-binding {w} c n j x (create_namespace d ns allowed) h =
      inl (T.create_namespace_keeps d c ns w n j x h)
  Call-binding {w} c n j x (delete_role_binding d rb) h =
      inl (T.delete_role_binding_bindings d c rb w n j x h)
  Call-binding {w} c n j x (delete_namespaces d key value) h =
      inl (T.delete_namespaces_left d c key value w n j x h)

  -- Every role binding after a sequence of calls was there before or is one that the rights allow.
  pub Calls-binding :
      {w u : World} (c : Conn) (n j : String) (x : RoleBinding)
      → Calls C R w u
      → (view u c).bindings n j ≡ some x
      → BindingFrom c (view w c) x n j
  Calls-binding c n j x done h = inl h
  Calls-binding c n j x (next s one) h = elim (Call-binding c n j x one h) [
    | inl before ↦ Calls-binding c n j x s before
    | inr allowed ↦ inr allowed
  ]

  same_namespace :
      {w u : World} (c : Conn) (j : String) (x : Namespace)
      → view u ≡ view w
      → (view u c).namespaces j ≡ some x
      → NamespaceFrom c (view w c) x j
  same_namespace c j x e h = inl (subst (λ v. (v c).namespaces j ≡ some x) e h)

  Call-namespace :
      {w u : World} (c : Conn) (j : String) (x : Namespace)
      → Call C R w u
      → (view u c).namespaces j ≡ some x
      → NamespaceFrom c (view w c) x j
  Call-namespace {w} c j x (get_org d q) h = same_namespace c j x (S.get_org_view d q w) h
  Call-namespace {w} c j x (get_global_user d q) h =
      same_namespace c j x (S.get_global_user_view d q w) h
  Call-namespace {w} c j x (list_global_users d) h =
      same_namespace c j x (S.list_global_users_view d w) h
  Call-namespace {w} c j x (list_namespaces d key) h =
      same_namespace c j x (S.list_namespaces_view d key w) h
  Call-namespace {w} c j x (list_role_bindings d key value f y) h =
      same_namespace c j x (S.list_role_bindings_view d key value f y w) h
  Call-namespace {w} c j x (create_role_binding d rb allowed) h =
      inl (T.create_role_binding_keeps d c rb w j x h)
  Call-namespace {w} c j x (create_namespace d ns allowed) h =
      elim (T.create_namespace_adds d c ns w j x h) [
        | inl old ↦ inl old
        | inr new ↦ inr (rw (new.0, new.1) allowed)
      ]
  Call-namespace {w} c j x (delete_role_binding d rb) h =
      inl (T.delete_role_binding_namespaces d c rb w j x h)
  Call-namespace {w} c j x (delete_namespaces d key value) h =
      inl (T.delete_namespaces_namespaces d c key value w j x h)

  -- Every namespace after a sequence of calls was there before or is one that the rights allow.
  pub Calls-namespace :
      {w u : World} (c : Conn) (j : String) (x : Namespace)
      → Calls C R w u
      → (view u c).namespaces j ≡ some x
      → NamespaceFrom c (view w c) x j
  Calls-namespace c j x done h = inl h
  Calls-namespace c j x (next s one) h = elim (Call-namespace c j x one h) [
    | inl before ↦ Calls-namespace c j x s before
    | inr allowed ↦ inr allowed
  ]
