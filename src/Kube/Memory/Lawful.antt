-- ===== src/Kube/Memory/Lawful.antt =====
-- The server in memory meets the assumptions on a server.
pub mod Views
mod Creates
mod Deletes
mod Listings
use mathlib.Core.Option.{some-ne-none}
use mathlib.Core.Path.{subst}
use auth_explore.Base.{
  String, ◌≡◌, refl, ap, ◌∙◌, ◌≢◌, ◌↔◌, fun_ext, true, false, not, Option, none, some, List, ◌∷◌,
  In, arith, ◌==◌, eq_iff, if◌then◌else◌, eq_self, eq-of-ne, Bool-cases, Option-cases, inl, inr,
}
use auth_explore.Base.Exec.{Result, ok, err}
use auth_explore.Kube.{
  Namespace, RoleBinding, ApiError, not_found, already_exists, has_label, label_is,
}
use auth_explore.Kube.Server.{
  Cluster, put_namespace, put_binding, drop_binding, live, selected, labelled, matches, IsServer,
  IsHealthy, IsRefusing,
}
use auth_explore.Kube.Memory.{
  Store, Machine, Key, key_eq, binding_key, namespace_key, find_namespace, find_binding, put_store,
  create_namespace, create_role_binding, delete_role_binding, delete_namespaces, memory,
}
use auth_explore.Kube.Memory.Table.{
  find, erase, passing, find-key, find-erase, find-listing, In-listing,
}
use Views.{
  key_eq_iff, cluster, view, put_store_self, put_store-frame, cluster-add_namespace,
  cluster-add_binding, cluster-erase,
}
use Creates.{
  create_namespace_lem, create_namespace-err, create_namespace-exists, create_namespace-frame,
  create_namespace-fresh, create_namespace-taken, Binding, create_role_binding-Binding, Binding-ok,
  Binding-err, Binding-frame, Binding-fresh, Binding-taken,
}
use Deletes.{delete_role_binding_lem, delete_role_binding-frame}
use Listings.{
  ok-eq, namespace_key_lem, binding_key_lem, list_namespaces_lem, list_role_bindings_lem,
}

-- Every field index of the server in memory is the one that it was made with.
abbrev pub memory-IsServer :
    (field : String) (index : RoleBinding → List String) → IsServer (memory index) field index
memory-IsServer field index = record {
  view = view;
  namespace_key = namespace_key_lem;
  binding_key = binding_key_lem;
  get_org_view = λ c q w. refl;
  get_global_user_view = λ c q w. refl;
  list_global_users_view = λ c w. refl;
  list_namespaces_view = λ c key w. refl;
  list_role_bindings_view = λ c key value f x w. refl;
  create_namespace_ok = create_namespace_lem;
  create_namespace_err = create_namespace-err;
  create_namespace_exists = create_namespace-exists;
  create_role_binding_ok = λ c rb w. Binding-ok (create_role_binding-Binding c rb w);
  create_role_binding_err = λ c rb w x. Binding-err x (create_role_binding-Binding c rb w);
  delete_role_binding_ok = delete_role_binding_lem;
  create_namespace_frame = create_namespace-frame;
  create_role_binding_frame = λ c rb w d. Binding-frame d (create_role_binding-Binding c rb w);
  delete_role_binding_frame = delete_role_binding-frame;
  list_namespaces_ok = list_namespaces_lem index;
  list_role_bindings_ok = λ c key value x. list_role_bindings_lem index c key value field x;
}

pub memory-IsHealthy :
    (field : String) (index : RoleBinding → List String)
    → IsHealthy (memory index) field index (memory-IsServer field index)
memory-IsHealthy field index = record {
  create_role_binding_fresh = λ c rb w. Binding-fresh (create_role_binding-Binding c rb w);
  create_role_binding_taken = λ c rb w. Binding-taken (create_role_binding-Binding c rb w);
  create_namespace_fresh = create_namespace-fresh;
  create_namespace_taken = create_namespace-taken;
}

pub memory-IsRefusing :
    (field : String) (index : RoleBinding → List String)
    → IsRefusing (memory index) field index (memory-IsServer field index)
unfolding delete_namespaces
memory-IsRefusing field index = record {
  delete_namespaces_refused = λ c key value w. (_, refl);
  delete_namespaces_view = λ c key value w. refl;
}
