-- ===== src/Tests/Controller.antt =====
-- A run of the controller's `getClusterClients`.
use auth_explore.Base.{String, ◌≡◌, refl, List, [], ◌∷◌, In, inl, inr}
use auth_explore.Base.Exec.{ok}
use auth_explore.Controller.{KubeObject}
use auth_explore.Controller.Clusters.{Clusters, get_cluster_clients, connect_all, connect, put}
use auth_explore.Controller.Clusters.Connected.{IsIndexing, Both, get_cluster_clients-Connected}

-- Libraries that always answer; the world holds the indexes that were added.
abbrev Indexes : Type 0
Indexes = List (String × String × (KubeObject → List String))

abbrev libraries : Clusters
libraries = record {
  World = Indexes;
  Config = String;
  Cluster = String;
  Conn = String;
  build_config = λ path w. (ok path, w);
  new_cluster = λ config w. (ok config, w);
  index_field = λ cl f index w. (ok tt, (cl, f, index) ∷ w);
  start_cache = λ cl w. w;
  get_client = λ cl. cl;
}

abbrev libraries-IsIndexing : IsIndexing libraries
libraries-IsIndexing = record {
  has_index = λ w cl f index. In (cl, f, index) w;
  index_field_ok = λ cl f index w _. inl refl;
  index_field_keeps = λ cl d f g index other w m. inr m;
  build_config_keeps = λ path d g other w m. m;
  new_cluster_keeps = λ config d g other w m. m;
  start_cache_keeps = λ cl d g other w m. m;
}

abbrev clients : List (String × String)
clients =
    ("cross-org-1", "/etc/cross-org-1/cross-org-1")
    ∷ ("cross-org-2", "/etc/cross-org-2/cross-org-2")
    ∷ []

clients_given : (get_cluster_clients libraries []).0 ≡ ok clients
unfolding get_cluster_clients connect_all connect put
clients_given = refl

get_cluster_clients-Connected_example :
    Both libraries libraries-IsIndexing (get_cluster_clients libraries []).1 clients
get_cluster_clients-Connected_example =
    get_cluster_clients-Connected libraries libraries-IsIndexing [] clients clients_given
