-- ===== src/Controller/Main.antt =====
-- `main` of cross-cluster-orgs/org-controller/main.go. The calls of the client libraries are a
-- parameter; the scheme and the logger, which are only handed on, are left out.
pub mod Watching
use auth_explore.Base.{Bool, true, String, List, [], ◌∷◌}
use auth_explore.Base.Exec.{Result, ok, err, Exec, pure, settle, ◌>>=◌, ◌>>◌}
use auth_explore.Base.Exit.{Exit, exit_if_error, checked}
use auth_explore.Kube.{Client}
use auth_explore.Reconcilers.Orgs.{OrgReconciler}
use auth_explore.Reconcilers.GlobalUsers.{GlobalUserReconciler}
use auth_explore.Controller.{KubeObject}
use auth_explore.Controller.Clusters.{Clusters, Error as ClustersError, get_cluster_clients}

-- `manager.Options`
pub record Options : Type 0 where
  pub metrics_bind_address : String
  pub namespace : String
  pub leader_election : Bool
  pub leader_election_id : String

abbrev pub manager_options : Options
manager_options = record {
  metrics_bind_address = "0";
  namespace = "org";
  leader_election = true;
  leader_election_id = "org-leader";
}

-- The kinds that controllers are for.
pub data Kind : Type 0 where
  org_kind global_user_kind : Kind

-- The error that ends the program; that of the scheme is formatted into a new one.
pub data Cause : Type 0 where
  library : String → Cause
  clusters_failed : ClustersError → Cause
  scheme_failed : String → Cause

module _ (C : Client) where
  open C use {World, Conn}

  -- The values that `NewOrg` and `NewGlobalUser` make.
  pub data Reconciler : Type 0 where
    of_orgs : OrgReconciler C → Reconciler
    of_global_users : GlobalUserReconciler C → Reconciler

  pub record Library : Type 1 where
    pub Config : Type 0
    pub Cluster : Type 0
    pub Manager : Type 0
    pub add_to_scheme : Exec World String Unit
    pub build_config : String → Exec World String Config
    pub new_cluster : Config → Exec World String Cluster
    pub index_field : Cluster → String → (KubeObject → List String) → Exec World String Unit
    pub start_cache : Cluster → World → World
    pub get_client : Cluster → Conn
    pub new_manager : Config → Options → Exec World String Manager
    pub manager_client : Manager → Conn
    -- `ControllerManagedBy(mgr).For(kind).Complete(reconciler)`
    pub complete : Manager → Kind → Reconciler → Exec World String Unit
    -- `mgr.Start` returns when the program is told to stop, or with an error
    pub start : Manager → Exec World String Unit

  abbrev pub clusters : Library → Clusters
  clusters L = record {
    World = World;
    Config = L.Config;
    Cluster = L.Cluster;
    Conn = Conn;
    build_config = L.build_config;
    new_cluster = L.new_cluster;
    index_field = L.index_field;
    start_cache = L.start_cache;
    get_client = L.get_client;
  }

  -- `exitf` with the error of the scheme
  abbrev pub scheme_checked : Result String Unit → Result (Exit Cause) Unit
  scheme_checked (ok a) = ok a
  scheme_checked (err e) = exit_if_error (err (scheme_failed e))

  abbrev pub new_org : Conn → List (String × Conn) → Reconciler
  new_org client cluster_clients =
      of_orgs (record { client = client; cluster_clients = cluster_clients })

  abbrev pub new_global_user : Conn → List (String × Conn) → Reconciler
  new_global_user client cluster_clients =
      of_global_users (record { client = client; cluster_clients = cluster_clients })

module _ (C : Client) (L : Library C) where
  open C use {World, Conn}
  open L use {Manager}

  abbrev pub start_manager : Manager → Exec World (Exit Cause) Unit
  start_manager mgr = checked "Failed to start manager" library (L.start mgr)

  -- `main` from the making of the second reconciler on, and from that of the first.
  unfoldable pub control_global_users :
      Manager → List (String × Conn) → Exec World (Exit Cause) Unit
  control_global_users mgr clients =
      checked "Failed to build controller" library
        (L.complete mgr global_user_kind (new_global_user C (L.manager_client mgr) clients))
      >>= λ _. start_manager mgr

  unfoldable pub control_orgs : Manager → List (String × Conn) → Exec World (Exit Cause) Unit
  unfolding control_global_users
  control_orgs mgr clients =
      checked "Failed to build controller" library
        (L.complete mgr org_kind (new_org C (L.manager_client mgr) clients))
      >>= λ _. control_global_users mgr clients

  -- `main` once there is a manager, and once there is a configuration.
  unfoldable pub run_manager : Manager → Exec World (Exit Cause) Unit
  unfolding control_orgs
  run_manager mgr =
      checked "failed to create cluster clients" clusters_failed
        (get_cluster_clients (clusters C L))
      >>= λ clients. control_orgs mgr clients

  unfoldable pub make_manager : L.Config → Exec World (Exit Cause) Unit
  unfolding run_manager
  make_manager config =
      checked "failed to create k8s controller runtime manager" library
        (L.new_manager config manager_options)
      >>= λ mgr. run_manager mgr

  unfoldable pub main : Exec World (Exit Cause) Unit
  unfolding make_manager
  main = settle (scheme_checked C) L.add_to_scheme >>= λ _.
      checked "Failed to build kubeconfig" library (L.build_config "") >>= λ config.
      make_manager config
