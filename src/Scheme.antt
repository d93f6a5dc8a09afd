-- ===== src/Scheme.antt =====
-- The registration of the custom resources: cross-cluster-orgs/org-controller/pkg/apis/org/register.go
-- and pkg/apis/org/v1/register.go, and pkg/generated/clientset/versioned/scheme/register.go with its
-- copy for the fake clientset. The scheme of the client library is a parameter.
pub mod Registry
pub mod Entering
pub mod Registered
pub mod Memory
use auth_explore.Base.{String, List, [], ◌∷◌}
use auth_explore.Base.Exec.{Result, ok, err, Exec, pure, settle, ◌>>=◌, ◌>>◌}

-- `schema.GroupVersion`
pub record GroupVersion : Type 0 where
  pub group : String
  pub version : String

abbrev pub group_name : String
group_name = "code.cloudfoundy.org.org"

abbrev pub scheme_group_version : GroupVersion
scheme_group_version = record { group = group_name; version = "v1" }

-- A type of Go as the library's reflection sees it: the path of its package and its name.
pub record GoType : Type 0 where
  pub pkg_path : String
  pub name : String

abbrev api_type : String → GoType
api_type n = record { pkg_path = "code.cloudfoundry.org/org-controller/pkg/apis/org/v1"; name = n }

-- The types of `&Org{}`, `&OrgList{}`, `&GlobalUser{}` and `&GlobalUserList{}`.
abbrev pub known_types : List GoType
known_types =
    api_type "Org" ∷ api_type "OrgList" ∷ api_type "GlobalUser" ∷ api_type "GlobalUserList" ∷ []

-- How a call ends that does not return `nil`: with an error, or with a panic.
pub data Stop : Type 0 where
  failed panicked : String → Stop

-- What the code calls of the client library.
pub record Runtime : Type 1 where
  pub Scheme : Type 0
  pub new_scheme : Scheme
  -- `scheme.AddKnownTypes`
  pub add_known_types : GroupVersion → List GoType → Exec Scheme Stop Unit
  -- `metav1.AddToGroupVersion`
  pub add_to_group_version : GroupVersion → Exec Scheme Stop Unit
  -- `AddToScheme` of a `SchemeBuilder`, which is a list of functions
  pub build : List (Exec Scheme Stop Unit) → Exec Scheme Stop Unit
  -- `utilruntime.Must`, on how the call ended that makes its argument
  pub must : Result Stop Unit → Result Stop Unit

-- `schema.GroupVersion{Version: "v1"}`
abbrev pub bare_v1 : GroupVersion
bare_v1 = record { group = ""; version = "v1" }

module _ (L : Runtime) where
  open L use {Scheme, build, must, add_to_group_version}

  unfoldable pub add_known_types : Exec Scheme Stop Unit
  add_known_types =
      L.add_known_types scheme_group_version known_types
      >> add_to_group_version scheme_group_version
      >> pure tt

  -- `AddToScheme` of the API's package
  abbrev pub api_add_to_scheme : Exec Scheme Stop Unit
  api_add_to_scheme = build (add_known_types ∷ [])

  -- `AddToScheme` of the package scheme
  abbrev pub add_to_scheme : Exec Scheme Stop Unit
  add_to_scheme = build (api_add_to_scheme ∷ [])

  -- `init` of the package scheme, on its variable `Scheme`, a new scheme
  unfoldable pub init : Exec Scheme Stop Unit
  init = add_to_group_version bare_v1 >> settle must add_to_scheme

  -- `AddToScheme` and `init` of the package fake, the latter on its own variable `scheme`
  abbrev pub fake_add_to_scheme : Exec Scheme Stop Unit
  fake_add_to_scheme = build (api_add_to_scheme ∷ [])

  unfoldable pub fake_init : Exec Scheme Stop Unit
  fake_init = add_to_group_version bare_v1 >> settle must fake_add_to_scheme
