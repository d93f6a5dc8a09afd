-- ===== src/Indexing/Main.antt =====
-- `main` of process-indexing/main.go. The calls of the client libraries are a parameter.
pub mod Unindexed
use auth_explore.Base.{String, Option, List}
use auth_explore.Base.Exec.{Result, ok, err, Exec, pure, settle, ◌>>=◌, ◌>>◌}
use auth_explore.Base.Exit.{Exit, checked}
use auth_explore.Kube.{ApiError}
use auth_explore.Indexing.{
  Pod, Object, PodClient, Error, Run, index_field, get_process_guid, perform_listings,
}

pub record Libraries : Type 1 where
  pub World : Type 0
  pub Config : Type 0
  pub Cache : Type 0
  pub Cluster : Type 0
  pub Conn : Type 0
  -- `filepath.Join(os.Getenv("HOME"), ".kube/config")`
  pub kube_config_path : World → String
  pub build_config : String → Exec World String Config
  pub new_cluster : Config → Exec World String Cluster
  -- `GetFieldIndexer().IndexField(&Pod{}, field, index)`
  pub index_pods : Cluster → String → (Object → Option (List String)) → Exec World String Unit
  pub get_cache : Cluster → Cache
  -- `go Start()`, whose error is only logged, and `WaitForCacheSync`, whose answer is dropped
  pub start_cache : Cache → World → World
  pub wait_for_cache_sync : Cache → World → World
  pub get_client : Cluster → Conn
  pub list_pods : Conn → String → String → String → World → Result ApiError (List Pod) × World

pub data Cause : Type 0 where
  library : String → Cause
  listing_failed : Error → Cause

module _ (X : Libraries) where
  open X use {World, Config, Cache, Cluster, Conn}

  abbrev pub pod_client : Conn → PodClient
  pod_client cl = record { World = World; list_pods = X.list_pods cl }

  -- `performListings` without what it prints
  abbrev pub listings : Conn → Exec World Error Unit
  listings cl w = let run = perform_listings (pod_client cl) w in (run.answer, run.world)

  -- `main` once the index has been asked for.
  unfoldable pub list_processes : Cluster → Exec World (Exit Cause) Unit
  list_processes cluster w =
      let cache = X.get_cache cluster in
      checked "failed to perform listing" listing_failed (listings (X.get_client cluster))
        (X.wait_for_cache_sync cache (X.start_cache cache w))

  -- `main` once there is a cluster: the answer of `IndexField` is dropped.
  unfoldable pub index_processes : Cluster → Exec World (Exit Cause) Unit
  unfolding list_processes
  index_processes cluster w =
      list_processes cluster (X.index_pods cluster index_field get_process_guid w).1

  unfoldable pub make_cluster : Config → Exec World (Exit Cause) Unit
  unfolding index_processes
  make_cluster config =
      checked "Failed to create controller-runtime cluster" library (X.new_cluster config)
      >>= λ cluster. index_processes cluster

  unfoldable pub kube_config : Exec World (Exit Cause) Config
  kube_config w =
      checked "Failed to build kubeconfig" library (X.build_config (X.kube_config_path w)) w

  unfoldable pub main : Exec World (Exit Cause) Unit
  unfolding make_cluster kube_config
  main = kube_config >>= λ config. make_cluster config
