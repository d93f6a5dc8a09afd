-- ===== src/Indexing.antt =====
-- process-indexing/main.go: the index of pods by their containers' names, and `performListings`. The
-- client is a parameter.
pub mod Listed
pub mod Main
use auth_explore.Base.{ℕ, String, Option, none, some, List, [], ◌∷◌, ◌++◌, length}
use auth_explore.Base.Exec.{Result, ok, err}
use auth_explore.Kube.{ApiError}

pub record Container : Type 0 where
  pub name : String

pub record Pod : Type 0 where
  pub namespace : String
  pub name : String
  pub containers : List Container

-- `client.Object`
pub data Object : Type 0 where
  pod_object : Pod → Object
  other_object : Object

abbrev pub index_field : String
index_field = ".index.process.guid"

-- The loop of `getProcessGuid`, with the names that have been collected.
unfoldable pub container_names : List String → List Container → List String
container_names processes [] = processes
container_names processes (c ∷ containers) = container_names (processes ++ (c.name ∷ [])) containers

-- `none` is the panic on an object that is no pod: the result of the type assertion is then a nil
-- pointer, which is followed.
unfoldable pub get_process_guid : Object → Option (List String)
unfolding container_names
get_process_guid (pod_object pod) = some (container_names [] pod.containers)
get_process_guid other_object = none

pub record PodClient : Type 1 where
  pub World : Type 0
  -- `List(&PodList{}, InNamespace(n), MatchingFields{f: x})`
  pub list_pods : String → String → String → World → Result ApiError (List Pod) × World

-- What is printed.
pub data Line : Type 0 where
  pods_count : ℕ → Line
  first_pod : String → Line

pub data Error : Type 0 where
  list_pods_failed : ApiError → Error

abbrev pub labels : List String
labels = "manager" ∷ "kube-rbac-proxy" ∷ "arghhh" ∷ []

-- The lines of one turn of the loop.
abbrev pub report : List Pod → List Line
report [] = pods_count 0 ∷ []
report (p ∷ pods) = pods_count (length (p ∷ pods)) ∷ first_pod p.name ∷ []

module _ (C : PodClient) where
  open C use {World}

  -- What a run comes to: its answer, the lines printed so far, and the world.
  pub record Run : Type 0 where
    pub answer : Result Error Unit
    pub printed : List Line
    pub world : World

  -- The loop over the labels.
  unfoldable pub list_labels : List String → List Line → World → Run
  list_labels [] printed w = record { answer = ok tt; printed = printed; world = w }
  list_labels (label ∷ rest) printed w =
      let res = C.list_pods "hnc-system" index_field label w in
      elim res.0 [
        | err e ↦ record { answer = err (list_pods_failed e); printed = printed; world = res.1 }
        | ok pods ↦ list_labels rest (printed ++ report pods) res.1
      ]

  unfoldable pub perform_listings : World → Run
  unfolding list_labels
  perform_listings w = list_labels labels [] w
