-- ===== src/Caching/Main.antt =====
-- `main` of caching/main.go. The calls of the client libraries and of kubectl are a parameter.
pub mod Shared
use auth_explore.Base.{ℕ, String, Option, none, some, List, [], ◌∷◌}
use auth_explore.Base.Exec.{Result, ok, err, Exec, pure, settle, ◌>>=◌, ◌>>◌}
use auth_explore.Base.Exit.{Exit, exit_if_error, checked}
use auth_explore.Kube.{ApiError}
use auth_explore.Caching.{App, AppClient, Error as ListingError, perform_listings}

pub record Experiment : Type 1 where
  pub World : Type 0
  pub Config : Type 0
  pub Cache : Type 0
  pub Cluster : Type 0
  pub Conn : Type 0
  pub add_to_scheme : Exec World String Unit
  -- `filepath.Join(os.Getenv("HOME"), ".kube/config")`
  pub kube_config_path : World → String
  pub build_config : String → Exec World String Config
  -- `kubeConfig.Impersonate = ImpersonationConfig{UserName: name}`
  pub impersonate : String → Config → Config
  -- `cluster.New`, with the cache that `opts.NewCache` gives if it is set
  pub new_cluster : Config → Option Cache → Exec World String Cluster
  pub get_cache : Cluster → Cache
  pub get_client : Cluster → Conn
  -- `go Start()`, whose error is only logged, and `WaitForCacheSync`, whose answer is dropped
  pub start_cache : Cache → World → World
  pub wait_for_cache_sync : Cache → World → World
  pub create_namespace : Conn → String → Exec World ApiError Unit
  pub create_app : Conn → App → Exec World ApiError Unit
  pub list_apps : Conn → String → Exec World ApiError (List App)
  -- `exec.Command(name, args...).Run()`
  pub run_command : String → List String → Exec World String Unit
  -- the heap profile, whose errors are dropped
  pub write_profile : World → World

pub data Cause : Type 0 where
  library : String → Cause
  listing_failed : ListingError → Cause
  scheme_failed : String → Cause

abbrev pub scheme_checked : Result String Unit → Result (Exit Cause) Unit
scheme_checked (ok a) = ok a
scheme_checked (err e) = exit_if_error (err (scheme_failed e))

module _ (X : Experiment) where
  open X use {World, Config, Cache, Cluster, Conn}

  abbrev pub app_client : Conn → AppClient
  app_client cl = record {
    World = World;
    create_namespace = X.create_namespace cl;
    create_app = X.create_app cl;
    list_apps = X.list_apps cl;
  }

  -- The answer is the number that `performListings` prints.
  abbrev pub list_checked : Conn → Exec World (Exit Cause) ℕ
  list_checked cl =
      checked "failed to perform listing" listing_failed (perform_listings (app_client cl))

  -- The two listings at the end, and the profile. The answer is what all listings have printed.
  unfoldable pub list_twice : Conn → ℕ → Exec World (Exit Cause) (List ℕ)
  list_twice cl printed = list_checked cl >>= λ n.
      list_checked cl >>= λ m w. (ok (printed ∷ n ∷ m ∷ []), X.write_profile w)

  abbrev pub as_alice : Config → Cache → Exec World (Exit Cause) Cluster
  as_alice config cache =
      checked "Failed to create controller-runtime cluster" library
        (X.new_cluster (X.impersonate "alice" config) (some cache))

  -- `main` from the impersonation on.
  unfoldable pub list_as_alice : Config → Cache → ℕ → Exec World (Exit Cause) (List ℕ)
  unfolding list_twice
  list_as_alice config cache printed =
      as_alice config cache >>= λ cluster. list_twice (X.get_client cluster) printed

  -- `main` once the cache is there. The error that is checked first is that of `cluster.New`, which is
  -- nil here.
  unfoldable pub observe : Config → Cluster → Exec World (Exit Cause) (List ℕ)
  unfolding list_as_alice
  observe config cluster = checked "Failed to populate cluster" library (pure tt) >>= λ _.
      list_checked (X.get_client cluster) >>= λ printed.
      checked "failed to create an app" library
        (X.run_command "kubectl" ("apply" ∷ "-f" ∷ "app.yaml" ∷ []))
      >>= λ _. list_as_alice config (X.get_cache cluster) printed

  unfoldable pub sync_cache : Cache → World → World
  sync_cache cache w = X.wait_for_cache_sync cache (X.start_cache cache w)

  -- `main` once there is a configuration.
  unfoldable pub run_clusters : Config → Exec World (Exit Cause) (List ℕ)
  unfolding observe sync_cache
  run_clusters config =
      checked "Failed to create controller-runtime cluster" library (X.new_cluster config none)
      >>= λ cluster w. observe config cluster (sync_cache (X.get_cache cluster) w)

  abbrev kube_config : World → Result (Exit Cause) Config × World
  kube_config w =
      checked "Failed to build kubeconfig" library (X.build_config (X.kube_config_path w)) w

  unfoldable pub main : Exec World (Exit Cause) (List ℕ)
  unfolding run_clusters
  main =
      settle scheme_checked X.add_to_scheme >>= λ _. kube_config >>= λ config. run_clusters config
