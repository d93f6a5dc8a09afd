-- ===== src/Kube/Memory/Lawful/Deletes.antt =====
-- The deletes of the server in memory.
use auth_explore.Base.{String, ◌≡◌, ap, ◌∙◌, ◌≢◌, Option-cases, inl, inr}
use auth_explore.Base.Exec.{ok}
use auth_explore.Kube.{RoleBinding}
use auth_explore.Kube.Server.{drop_binding}
use auth_explore.Kube.Memory.{Machine, binding_key, find_binding, delete_role_binding}
use auth_explore.Kube.Memory.Lawful.Views.{
  cluster, view, put_store_self, put_store-frame, cluster-erase,
}

pub delete_role_binding_lem :
    (c : String) (rb : RoleBinding) (w : Machine)
    → (delete_role_binding c rb w).0 ≡ ok tt
    → view (delete_role_binding c rb w).1 c ≡ drop_binding rb.namespace rb.name (view w c)
unfolding delete_role_binding
delete_role_binding_lem c rb w h =
    elim (Option-cases (find_binding (binding_key rb) (w.clusters c).bindings)) [
      | inl e ↦ absurd (cc (rw (e, delete_role_binding) at h))
      | inr (x, e) ↦
          rw (e, delete_role_binding)
            (ap cluster (put_store_self c _ w) ∙ cluster-erase rb (w.clusters c))
    ]

pub delete_role_binding-frame :
    (c : String) (rb : RoleBinding) (w : Machine) (d : String)
    → d ≢ c
    → view (delete_role_binding c rb w).1 d ≡ view w d
unfolding delete_role_binding
delete_role_binding-frame c rb w d h =
    elim (Option-cases (find_binding (binding_key rb) (w.clusters c).bindings)) [
      | inl e ↦ rw (e, delete_role_binding)
      | inr (x, e) ↦ rw (e, delete_role_binding) (ap cluster (put_store-frame c _ w d h))
    ]
