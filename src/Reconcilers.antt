-- ===== src/Reconcilers.antt =====
-- cross-cluster-orgs/org-controller/reconcilers (org.go and global_user.go): what the two
-- reconcilers share, and the modules that model and verify them. Logging is left out.
pub mod Calls
pub mod Bindings
pub mod Namespaces
pub mod Orgs
pub mod GlobalUsers
pub mod System
use auth_explore.Base.{String, ◌≡◌}
use auth_explore.Base.Exec.{Result, ok, err}
use auth_explore.Kube.{ApiError}

abbrev pub org_label : String
org_label = "code.cloudfoundry.org/org"

abbrev pub role_level_label : String
role_level_label = "code.cloudfoundry.org/role_level"

abbrev pub global_level : String
global_level = "global"

abbrev pub other_level : String
other_level = "other"

abbrev pub subject_name_index : String
subject_name_index = ".index.subjectname"

-- The messages that the reconcilers put before an error.
pub data Context : Type 0 where
  create_namespace_failed create_role_binding_failed : Context
  get_org_failed deleted_org_failed get_global_users_failed : Context
  delete_namespaces_failed : String → Context
  get_global_user_failed deleted_global_user_failed get_cf_namespaces_failed : Context
  list_role_bindings_failed : Context
  delete_role_binding_failed : String → String → Context
  reconcile_global_user_failed : String → String → Context

pub data Error : Type 0 where
  api : ApiError → Error
  wrapped : Context → Error → Error
  unknown_cluster_context : String → Error

module _ {A : Type 0} where
  -- The answer of an API call as a Go error.
  abbrev pub from_api : Result ApiError A → Result Error A
  from_api (ok a) = ok a
  from_api (err e) = err (api e)

  abbrev pub wrap : Context → Result Error A → Result Error A
  wrap c (ok a) = ok a
  wrap c (err e) = err (wrapped c e)

  pub wrap-eq-ok : (c : Context) (r : Result Error A) {a : A} → wrap c r ≡ ok a → r ≡ ok a
  wrap-eq-ok c (ok b) h = h
  wrap-eq-ok c (err e) h = absurd (cc h)

  pub from_api-eq-ok : (r : Result ApiError A) {a : A} → from_api r ≡ ok a → r ≡ ok a
  from_api-eq-ok (ok b) h = cc
  from_api-eq-ok (err e) h = absurd (cc h)
