-- ===== src/Tests/SharedCache.antt =====
-- The end of the caching program's `main`, with libraries that always answer.
use auth_explore.Base.{String, ◌≡◌, refl, Option, none, some, List, [], ◌∷◌, ◌==◌, if◌then◌else◌}
use auth_explore.Base.Exec.{Result, ok, ◌>>=◌}
use auth_explore.Caching.{App, app, collect, perform_listings, namespace_name, three_digits}
use auth_explore.Caching.Main.{
  Experiment, list_twice, as_alice, list_as_alice, observe, run_clusters, sync_cache, main,
}
use auth_explore.Caching.Main.Shared.{IsCached, list_as_alice-own}

abbrev in_namespace : String → List App → List App
in_namespace n [] = []
in_namespace n (a ∷ l) = let rest = in_namespace n l in if a.namespace == n then a ∷ rest else rest

abbrev cache_of : String → Option String → String
cache_of config none = config
cache_of config (some cache) = cache

-- A configuration is a user's name, a cluster is a user and a cache, and its client is the cache.
abbrev libraries : Experiment
libraries = record {
  World = List App;
  Config = String;
  Cache = String;
  Cluster = String × String;
  Conn = String;
  add_to_scheme = λ w. (ok tt, w);
  kube_config_path = λ w. ".kube/config";
  build_config = λ path w. (ok "admin", w);
  impersonate = λ name config. name;
  new_cluster = λ config cache w. (ok (config, cache_of config cache), w);
  get_cache = λ k. k.1;
  get_client = λ k. k.1;
  start_cache = λ cache w. w;
  wait_for_cache_sync = λ cache w. w;
  create_namespace = λ cl n w. (ok tt, w);
  create_app = λ cl a w. (ok tt, a ∷ w);
  list_apps = λ cl n w. (ok (in_namespace n w), w);
  run_command = λ name args w. (ok tt, app 3 1 ∷ w);
  write_profile = λ w. w;
}

libraries-IsCached : IsCached libraries
libraries-IsCached = record {
  held = λ cache n w. (ok (in_namespace n w), w);
  reads = λ k n w. refl;
  new_cluster_cache = λ config cache w k e. ap_cache config cache k e;
}
  where
    ap_cache :
        (config cache : String) (k : String × String)
        → ◌≡◌ {A = Result String (String × String)} (ok (config, cache)) (ok k)
        → k.1 ≡ cache
    ap_cache config cache k e = cc e

abbrev held_apps : List App
held_apps = app 1 1 ∷ app 2 1 ∷ []

list_as_alice-own_example :
    list_as_alice libraries "admin" "admin" 0 held_apps
    ≡ (as_alice libraries "admin" "admin" >>= λ _. list_twice libraries "admin" 0) held_apps
list_as_alice-own_example =
    list_as_alice-own libraries libraries-IsCached "admin" ("admin", "admin") 0 held_apps

-- What the program prints: the app of the command is listed for alice.
printed : (main libraries held_apps).0 ≡ ok (2 ∷ 3 ∷ 3 ∷ [])
unfolding main run_clusters observe sync_cache list_as_alice list_twice perform_listings collect app
    namespace_name three_digits
printed = refl
