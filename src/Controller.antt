-- ===== src/Controller.antt =====
-- cross-cluster-orgs/org-controller/main.go: the index of role bindings by their subject, and the
-- clients of the configured clusters.
pub mod Index
pub mod Clusters
pub mod Main
use auth_explore.Base.{String, ◌<>◌, List, [], ◌∷◌, ◌==◌, if◌then◌else◌}
use auth_explore.Base.Exec.{Result, ok, err, Exec, pure, raise, settle, ◌>>=◌, ◌>>◌}
use auth_explore.Kube.{Subject, RoleBinding}
use auth_explore.Reconcilers.{subject_name_index}

-- `client.Object`: the index function asserts the type that it handles.
pub data KubeObject : Type 0 where
  role_binding_object : RoleBinding → KubeObject
  other_object : KubeObject

-- The loop over the subjects: the first user ends it.
unfoldable pub first_user : List Subject → List String
first_user [] = []
first_user (s ∷ subjects) =
    let rest = first_user subjects in if s.kind == "User" then s.name ∷ [] else rest

unfoldable pub get_subject_user_name : KubeObject → List String
unfolding first_user
get_subject_user_name (role_binding_object rb) = first_user rb.subjects
get_subject_user_name other_object = []

-- The index as the reconcilers' lists see it.
abbrev pub subject_index : RoleBinding → List String
subject_index rb = get_subject_user_name (role_binding_object rb)
