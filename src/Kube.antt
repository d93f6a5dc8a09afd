-- ===== src/Kube.antt =====
-- The Kubernetes objects that the controller writes, with the fields that it sets, and the client
-- through which it reads and writes them. The client library is not part of the repository's own
-- code: it is a parameter, a record of the calls that the controller makes.
pub mod Server
pub mod Tight
pub mod Memory
use auth_explore.Base.{String, Bool, true, false, Option, none, some, List, lookup, ◌==◌}
use auth_explore.Base.Exec.{Exec}
use auth_explore.Api.{Org, GlobalUser}

abbrev pub Labels : Type 0
Labels = List (String × String)

pub record Namespace : Type 0 where
  pub name : String
  pub labels : Labels

pub record Subject : Type 0 where
  pub api_group : String
  pub kind : String
  pub name : String

pub record RoleRef : Type 0 where
  pub api_group : String
  pub kind : String
  pub name : String

pub record RoleBinding : Type 0 where
  pub namespace : String
  pub name : String
  pub labels : Labels
  pub subjects : List Subject
  pub role_ref : RoleRef

-- `reconcile.Request`, whose `NamespacedName` is the key of a `Get`.
pub record Request : Type 0 where
  pub namespace : String
  pub name : String

-- The answers that `apierrors` tells apart.
pub data ApiError : Type 0 where
  not_found already_exists : ApiError
  other : String → ApiError

-- `HasLabels{k}` and `MatchingLabels{k: v}`.
abbrev is_some : Option String → Bool
is_some none = false
is_some (some v) = true

abbrev equals : Option String → String → Bool
equals none v = false
equals (some u) v = u == v

abbrev pub has_label : String → Labels → Bool
has_label k labels = is_some (lookup k labels)

abbrev pub label_is : String → String → Labels → Bool
label_is k v labels = equals (lookup k labels) v

-- `client.Client`. A `Conn` is one client value; a `World` holds all that clients read and write.
pub record Client : Type 1 where
  pub World : Type 0
  pub Conn : Type 0
  pub get_org : Conn → Request → Exec World ApiError Org
  pub get_global_user : Conn → Request → Exec World ApiError GlobalUser
  pub list_global_users : Conn → Exec World ApiError (List GlobalUser)
  pub create_namespace : Conn → Namespace → Exec World ApiError Unit
  -- `DeleteAllOf(&Namespace{}, MatchingLabels{k: v})`
  pub delete_namespaces : Conn → String → String → Exec World ApiError Unit
  -- `List(&NamespaceList{}, HasLabels{k})`
  pub list_namespaces : Conn → String → Exec World ApiError (List Namespace)
  pub create_role_binding : Conn → RoleBinding → Exec World ApiError Unit
  pub delete_role_binding : Conn → RoleBinding → Exec World ApiError Unit
  -- `List(&RoleBindingList{}, MatchingLabels{k: v}, MatchingFields{f: x})`
  pub list_role_bindings :
      Conn → String → String → String → String → Exec World ApiError (List RoleBinding)
