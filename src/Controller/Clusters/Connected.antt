-- ===== src/Controller/Clusters/Connected.antt =====
-- What `getClusterClients` of cross-cluster-orgs/org-controller/main.go gives to the reconcilers.
use auth_explore.Base.{String, ◌≡◌, refl, sym, ap, List, [], ◌∷◌}
use auth_explore.Base.Exec.{Result, ok, err, settle, >>=-eq-ok, ok-injective}
use auth_explore.Controller.{KubeObject, get_subject_user_name}
use auth_explore.Reconcilers.{subject_name_index}
use auth_explore.Controller.Clusters.{
  Clusters, config_path, put, from_library, from_index, connect, connect_all, get_cluster_clients,
}

module _ (L : Clusters) where
  open L use {World, Config, Cluster, Conn}

  -- What the program relies on: an index that was added without an error is there, and no call takes
  -- it away.
  pub record IsIndexing : Type 1 where
    pub has_index : World → Cluster → String → (KubeObject → List String) → Type 0
    pub index_field_ok :
        (cl : Cluster) (f : String) (index : KubeObject → List String) (w : World)
        → (L.index_field cl f index w).0 ≡ ok tt
        → has_index (L.index_field cl f index w).1 cl f index
    pub index_field_keeps :
        (cl d : Cluster) (f g : String) (index other : KubeObject → List String) (w : World)
        → has_index w d g other
        → has_index (L.index_field cl f index w).1 d g other
    pub build_config_keeps :
        (path : String) (d : Cluster) (g : String) (other : KubeObject → List String) (w : World)
        → has_index w d g other
        → has_index (L.build_config path w).1 d g other
    pub new_cluster_keeps :
        (config : Config) (d : Cluster) (g : String) (other : KubeObject → List String) (w : World)
        → has_index w d g other
        → has_index (L.new_cluster config w).1 d g other
    pub start_cache_keeps :
        (cl d : Cluster) (g : String) (other : KubeObject → List String) (w : World)
        → has_index w d g other
        → has_index (L.start_cache cl w) d g other

from_index-ok : (name : String) (r : Result String Unit) → from_index name r ≡ ok tt → r ≡ ok tt
from_index-ok name (ok _) h = refl
from_index-ok name (err e) h = absurd (cc h)

from_library-ok : {A : Type 0} {a : A} (r : Result String A) → from_library r ≡ ok a → r ≡ ok a
from_library-ok (ok _) h = ap ok (ok-injective h)
from_library-ok (err e) h = absurd (cc h)

module _ (L : Clusters) (S : IsIndexing L) where
  open L use {World, Config, Cluster, Conn}
  open S use {has_index}

  abbrev Subjects : World → Cluster → Type 0
  Subjects w cl = has_index w cl subject_name_index get_subject_user_name

  -- The client of a cluster that was made of the configuration in this file and has the index of
  -- role bindings by their subject.
  pub record Connected (w : World) (path : String) (cl : Conn) : Type 0 where
    pub config : Config
    pub cluster : Cluster
    pub read : (before : World) × ((L.build_config path before).0 ≡ ok config)
    pub made : (before : World) × ((L.new_cluster config before).0 ≡ ok cluster)
    pub client : cl ≡ L.get_client cluster
    pub index : Subjects w cluster

  -- What one turn of the loop leaves, if it has no error.
  record Turn (w w' : World) (name : String) (cl : Conn) : Type 0 where
    connected : Connected w' (config_path name) cl
    keeps : (d : Cluster) → Subjects w d → Subjects w' d

  connect-Turn :
      (name : String) (w : World) (cl : Conn)
      → (connect L name w).0 ≡ ok cl
      → Turn w (connect L name w).1 name cl
  unfolding connect
  connect-Turn name w cl h =
      let (config, e₁, h₁, s₁) =
        >>=-eq-ok (settle from_library (L.build_config (config_path name))) _ w h in
      let w₁ = (L.build_config (config_path name) w).1 in
      let (cluster, e₂, h₂, s₂) = >>=-eq-ok (settle from_library (L.new_cluster config)) _ w₁ h₁ in
      let w₂ = (L.new_cluster config w₁).1 in
      let (_, e₃, h₃, s₃) =
        >>=-eq-ok
          (settle (from_index name)
            (L.index_field cluster subject_name_index get_subject_user_name))
          _ w₂ h₂ in
      let w₃ = (L.index_field cluster subject_name_index get_subject_user_name w₂).1 in
      rw (s₁, s₂, s₃, connect)
        (record {
          connected = record {
            config = config;
            cluster = cluster;
            read = (w, from_library-ok _ e₁);
            made = (w₁, from_library-ok _ e₂);
            client = sym (ok-injective h₃);
            index =
                S.start_cache_keeps cluster cluster _ _ w₃
                  (S.index_field_ok cluster _ _ w₂ (from_index-ok name _ e₃));
          };
          keeps = λ d p. S.start_cache_keeps cluster d _ _ w₃ (
              S.index_field_keeps cluster d _ _ _ _ w₂
                (S.new_cluster_keeps config d _ _ w₁ (S.build_config_keeps _ d _ _ w p)));
        })

  Connected-keeps :
      (w w' : World) (path : String) (cl : Conn)
      → ((d : Cluster) → Subjects w d → Subjects w' d)
      → Connected w path cl
      → Connected w' path cl
  Connected-keeps w w' path cl keeps c = record {
    config = c.config;
    cluster = c.cluster;
    read = c.read;
    made = c.made;
    client = c.client;
    index = keeps c.cluster c.index;
  }

  -- The map of the two configured clusters, each under its name and behind the client of the cluster
  -- of its own configuration.
  pub record Both (w : World) (m : List (String × Conn)) : Type 0 where
    pub first : Conn
    pub second : Conn
    pub entries : m ≡ ("cross-org-1", first) ∷ ("cross-org-2", second) ∷ []
    pub first_connected : Connected w "/etc/cross-org-1/cross-org-1" first
    pub second_connected : Connected w "/etc/cross-org-2/cross-org-2" second

  -- A `getClusterClients` without an error gives the two configured clusters, each under its name and
  -- no others. The client under a name is that of a cluster made of the configuration in
  -- /etc/<name>/<name>, whose role bindings are indexed by their subject when it returns.
  pub get_cluster_clients-Connected :
      (w : World) (m : List (String × Conn))
      → (get_cluster_clients L w).0 ≡ ok m
      → Both (get_cluster_clients L w).1 m
  unfolding get_cluster_clients connect_all put
  get_cluster_clients-Connected w m h =
      let (a, e, h', s) = >>=-eq-ok (connect L "cross-org-1") _ w h in
      let w₁ = (connect L "cross-org-1" w).1 in
      let (b, e', h'', s') = >>=-eq-ok (connect L "cross-org-2") _ w₁ h' in
      let w₂ = (connect L "cross-org-2" w₁).1 in
      let one = connect-Turn "cross-org-1" w a e in
      let two = connect-Turn "cross-org-2" w₁ b e' in
      rw (s, s')
        (record {
          first = a;
          second = b;
          entries = sym (ok-injective h'');
          first_connected = Connected-keeps w₁ w₂ _ a two.keeps one.connected;
          second_connected = two.connected;
        })
