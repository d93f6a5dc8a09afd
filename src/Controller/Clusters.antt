-- ===== src/Controller/Clusters.antt =====
-- `getClusterClients` of cross-cluster-orgs/org-controller/main.go. The calls of the client libraries
-- are a parameter.
pub mod Connected
use auth_explore.Base.{String, ◌<>◌, List, [], ◌∷◌, ◌==◌, if◌then◌else◌}
use auth_explore.Base.Exec.{Result, ok, err, Exec, pure, settle, ◌>>=◌, ◌>>◌}
use auth_explore.Controller.{KubeObject, get_subject_user_name}
use auth_explore.Reconcilers.{subject_name_index}

pub record Clusters : Type 1 where
  pub World : Type 0
  pub Config : Type 0
  pub Cluster : Type 0
  pub Conn : Type 0
  -- `BuildConfigFromFlags("", path)`
  pub build_config : String → Exec World String Config
  pub new_cluster : Config → Exec World String Cluster
  -- `GetFieldIndexer().IndexField(&RoleBinding{}, field, index)`
  pub index_field : Cluster → String → (KubeObject → List String) → Exec World String Unit
  -- `go GetCache().Start()`, whose error is only logged
  pub start_cache : Cluster → World → World
  pub get_client : Cluster → Conn

pub data Error : Type 0 where
  library : String → Error
  index_failed : String → String → Error

abbrev pub cluster_names : List String
cluster_names = "cross-org-1" ∷ "cross-org-2" ∷ []

-- `filepath.Join("/etc", name, name)` for the names above
abbrev pub config_path : String → String
config_path name = "/etc/" <> (name <> ("/" <> name))

-- `m[k] = v`
unfoldable pub put : {V : Type 0} → String → V → List (String × V) → List (String × V)
put k v [] = (k, v) ∷ []
put k v ((j, u) ∷ m) = let rest = put k v m in if j == k then (k, v) ∷ m else (j, u) ∷ rest

abbrev pub from_library : {A : Type 0} → Result String A → Result Error A
from_library (ok a) = ok a
from_library (err e) = err (library e)

-- The error that is returned does not hold the one that was met.
abbrev pub from_index : String → Result String Unit → Result Error Unit
from_index name (ok _) = ok tt
from_index name (err e) = err (index_failed subject_name_index name)

module _ (L : Clusters) where
  open L use {World, Cluster, Conn}

  -- One turn of the loop, up to the entry that it adds.
  unfoldable pub connect : String → Exec World Error Conn
  connect name = settle from_library (L.build_config (config_path name)) >>= λ config.
      settle from_library (L.new_cluster config) >>= λ cluster.
      settle (from_index name) (L.index_field cluster subject_name_index get_subject_user_name)
      >>= λ _ w. (ok (L.get_client cluster), L.start_cache cluster w)

  unfoldable pub connect_all :
      List String → List (String × Conn) → Exec World Error (List (String × Conn))
  unfolding connect put
  connect_all [] result = pure result
  connect_all (name ∷ names) result = connect name >>= λ cl. connect_all names (put name cl result)

  unfoldable pub get_cluster_clients : Exec World Error (List (String × Conn))
  unfolding connect_all
  get_cluster_clients = connect_all cluster_names []
