-- ===== src/Tests/Manager.antt =====
-- A run of the controller's `main` with libraries that always answer.
use auth_explore.Base.{String, Bool, true, false, ◌≡◌, refl, List, [], ◌∷◌, ◌++◌, map}
use auth_explore.Base.Exec.{ok, err}
use auth_explore.Kube.{Client, not_found}
use auth_explore.Controller.Main.{
  Kind, Reconciler, of_orgs, of_global_users, Library, main, make_manager, run_manager,
  control_orgs, control_global_users,
}
use auth_explore.Controller.Main.Watching.{IsManaging, Ends, main-Ends}
use auth_explore.Controller.Clusters.{get_cluster_clients, connect_all, connect, put}

-- The world holds the controllers that were completed: the kind, whether the reconciler is that of
-- the orgs, and its clients.
abbrev Entry : Type 0
Entry = Kind × Bool × String × List (String × String)

abbrev D : Client
D = record {
  World = List Entry;
  Conn = String;
  get_org = λ c q w. (err not_found, w);
  get_global_user = λ c q w. (err not_found, w);
  list_global_users = λ c w. (ok [], w);
  create_namespace = λ c ns w. (ok tt, w);
  delete_namespaces = λ c k v w. (ok tt, w);
  list_namespaces = λ c k w. (ok [], w);
  create_role_binding = λ c rb w. (ok tt, w);
  delete_role_binding = λ c rb w. (ok tt, w);
  list_role_bindings = λ c k v f x w. (ok [], w);
}

abbrev entry : Kind → Reconciler D → Entry
entry kind (of_orgs r) = (kind, true, r.client, r.cluster_clients)
entry kind (of_global_users r) = (kind, false, r.client, r.cluster_clients)

abbrev reconciler : Entry → Kind × Reconciler D
reconciler (kind, true, cl, clients) =
    (kind, of_orgs (record { client = cl; cluster_clients = clients }))
reconciler (kind, false, cl, clients) =
    (kind, of_global_users (record { client = cl; cluster_clients = clients }))

abbrev made : List Entry → List (Kind × Reconciler D)
made w = map reconciler w

abbrev libraries : Library D
libraries = record {
  Config = String;
  Cluster = String;
  Manager = Unit;
  add_to_scheme = λ w. (ok tt, w);
  build_config = λ path w. (ok path, w);
  new_cluster = λ config w. (ok config, w);
  index_field = λ cl f index w. (ok tt, w);
  start_cache = λ cl w. w;
  get_client = λ cl. cl;
  new_manager = λ config options w. (ok tt, []);
  manager_client = λ mgr. "management";
  complete = λ mgr kind r w. (ok tt, w ++ entry kind r ∷ []);
  start = λ mgr w. (ok tt, w);
}

made-entry :
    (kind : Kind) (r : Reconciler D) (w : List Entry)
    → made (w ++ entry kind r ∷ []) ≡ made w ++ (kind, r) ∷ []
made-entry kind (of_orgs r) [] = refl
made-entry kind (of_global_users r) [] = refl
made-entry kind r (e ∷ w) = rw (made-entry kind r w) refl

libraries-IsManaging : IsManaging D libraries
libraries-IsManaging = record {
  controllers = λ w mgr. made w;
  new_manager_ok = λ config options w mgr e. refl;
  complete_ok = λ mgr kind r w e. made-entry kind r w;
  build_config_keeps = λ path w mgr. refl;
  new_cluster_keeps = λ config w mgr. refl;
  index_field_keeps = λ cl f index w mgr. refl;
  start_cache_keeps = λ cl w mgr. refl;
}

-- All calls answer, and the manager is started.
main_ok : (main D libraries []).0 ≡ ok tt
unfolding main make_manager run_manager control_orgs control_global_users get_cluster_clients
    connect_all connect put
main_ok = refl

main-Ends_example : Ends D libraries libraries-IsManaging (main D libraries [])
main-Ends_example = main-Ends D libraries libraries-IsManaging []
