-- ===== src/Tests/Unindexed.antt =====
-- A run of the indexing program's `main` where the index cannot be added.
use auth_explore.Base.{String, ◌≡◌, refl, Bool, true, false, List, []}
use auth_explore.Base.Exec.{Result, ok, err}
use auth_explore.Kube.{ApiError, other}
use auth_explore.Indexing.{Pod, list_labels, perform_listings}
use auth_explore.Indexing.Main.{
  Libraries, main, kube_config, make_cluster, index_processes, list_processes,
}
use auth_explore.Indexing.Main.Unindexed.{IsByIndex, ListingFails, main_unindexed}

-- May an index be added, and is there one?
abbrev State : Type 0
State = Bool × Bool

abbrev added : State → Result String Unit × State
added (true, there) = (ok tt, (true, true))
added (false, there) = (err "conflict", (false, there))

abbrev listed : Bool → Result ApiError (List Pod)
listed true = ok []
listed false = err (other "no index")

abbrev libraries : Libraries
libraries = record {
  World = State;
  Config = String;
  Cache = Unit;
  Cluster = Unit;
  Conn = Unit;
  kube_config_path = λ w. ".kube/config";
  build_config = λ path w. (ok path, w);
  new_cluster = λ config w. (ok tt, (w.0, false));
  index_pods = λ k f index w. added w;
  get_cache = λ k. k;
  start_cache = λ cache w. w;
  wait_for_cache_sync = λ cache w. w;
  get_client = λ k. k;
  list_pods = λ cl namespace f x w. (listed w.1, w);
}

added-keeps : (w : State) (e : String) → (added w).0 ≡ err e → (added w).1.1 ≡ w.1
added-keeps (true, there) e h = absurd (cc h)
added-keeps (false, there) e h = refl

libraries-IsByIndex : IsByIndex libraries
libraries-IsByIndex = record {
  indexed = λ w k f. w.1;
  new_cluster_bare = λ config w k f e. refl;
  index_pods_err = λ k f index w e h. added-keeps w e h;
  start_cache_keeps = λ cache k f w. refl;
  wait_keeps = λ cache k f w. refl;
  list_pods_unindexed = λ k namespace f x w bare. (other "no index", rw bare refl);
}

main_unindexed_example : ListingFails libraries libraries-IsByIndex (main libraries (false, true))
main_unindexed_example =
    main_unindexed libraries libraries-IsByIndex ".kube/config" tt (false, true) "conflict" refl
      refl refl

-- With an index, the program ends well.
with_index : (main libraries (true, false)).0 ≡ ok tt
unfolding main kube_config make_cluster index_processes list_processes perform_listings list_labels
with_index = refl
