-- ===== src/Indexing/Main/Unindexed.antt =====
-- What `main` of process-indexing/main.go does if the index cannot be added.
use auth_explore.Base.{String, Bool, false, ◌≡◌, refl, ◌∙◌, Option, List}
use auth_explore.Base.Exec.{Result, ok, err}
use auth_explore.Base.Exit.{Exit}
use auth_explore.Kube.{ApiError}
use auth_explore.Indexing.{
  Object, list_pods_failed, index_field, get_process_guid, list_labels, perform_listings,
}
use auth_explore.Indexing.Main.{
  Libraries, Cause, listing_failed, list_processes, index_processes, make_cluster, kube_config,
  main,
}

module _ (X : Libraries) where
  open X use {World, Config, Cache, Cluster, Conn}

  -- What is documented of an index: a new cluster has none, an `IndexField` with an error adds none,
  -- starting the cache and waiting for it add none, and a list by a field that is not indexed is an
  -- error.
  pub record IsByIndex : Type 0 where
    pub indexed : World → Cluster → String → Bool
    pub new_cluster_bare :
        (config : Config) (w : World) (k : Cluster) (f : String)
        → (X.new_cluster config w).0 ≡ ok k
        → indexed (X.new_cluster config w).1 k f ≡ false
    pub index_pods_err :
        (k : Cluster) (f : String) (index : Object → Option (List String)) (w : World) (e : String)
        → (X.index_pods k f index w).0 ≡ err e
        → indexed (X.index_pods k f index w).1 k f ≡ indexed w k f
    pub start_cache_keeps :
        (cache : Cache) (k : Cluster) (f : String) (w : World)
        → indexed (X.start_cache cache w) k f ≡ indexed w k f
    pub wait_keeps :
        (cache : Cache) (k : Cluster) (f : String) (w : World)
        → indexed (X.wait_for_cache_sync cache w) k f ≡ indexed w k f
    pub list_pods_unindexed :
        (k : Cluster) (namespace f x : String) (w : World)
        → indexed w k f ≡ false
        → (e : ApiError) × ((X.list_pods (X.get_client k) namespace f x w).0 ≡ err e)

module _ (X : Libraries) (S : IsByIndex X) where
  open X use {World, Config, Cache, Cluster, Conn}
  open S use {indexed}

  -- The program ends at the listing.
  abbrev pub ListingFails : Result (Exit Cause) Unit × World → Type 0
  ListingFails out =
      (e : ApiError) × (out.0
        ≡ err (record {
          message = "failed to perform listing";
          cause = listing_failed (list_pods_failed e);
        }))

  list_processes_unindexed :
      (k : Cluster) (w : World)
      → indexed w k index_field ≡ false
      → ListingFails (list_processes X k w)
  unfolding list_processes perform_listings list_labels
  list_processes_unindexed k w bare =
      let cache = X.get_cache k in
      let w₁ = X.wait_for_cache_sync cache (X.start_cache cache w) in
      let still : indexed w₁ k index_field ≡ false =
        S.wait_keeps cache k index_field _ ∙ S.start_cache_keeps cache k index_field w ∙ bare in
      let (e, failed) = S.list_pods_unindexed k "hnc-system" index_field "manager" w₁ still in
      (e, rw failed refl)

  -- If the configuration is read, the cluster made, and `IndexField` returns an error, the program
  -- goes on without the index and ends at the first listing, with the error of the listing and not
  -- that of the index.
  pub main_unindexed :
      (config : Config) (k : Cluster) (w : World) (e : String)
      → let path = X.kube_config_path w in
        let w₁ = (X.build_config path w).1 in
        let w₂ = (X.new_cluster config w₁).1 in
        (X.build_config path w).0 ≡ ok config
        → (X.new_cluster config w₁).0 ≡ ok k
        → (X.index_pods k index_field get_process_guid w₂).0 ≡ err e
        → ListingFails (main X w)
  unfolding main kube_config make_cluster index_processes
  main_unindexed config k w e configured made failed =
      rw (configured, made)
        (list_processes_unindexed k _ (
          S.index_pods_err k index_field get_process_guid _ e failed
          ∙ S.new_cluster_bare config _ k index_field made))
