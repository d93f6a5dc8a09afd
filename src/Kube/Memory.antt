-- ===== src/Kube/Memory.antt =====
-- A server that keeps its clusters in lists, and that meets the assumptions on a server: a concrete
-- client for the tests. A client value is the name of its cluster.
pub mod Table
pub mod Lawful
pub mod Tight
use auth_explore.Base.{
  String, Bool, true, false, ◌&&◌, not, Option, none, some, List, [], ◌∷◌, contains, ◌==◌,
  if◌then◌else◌,
}
use auth_explore.Base.Exec.{Result, ok, err, Exec}
use auth_explore.Api.{Org, GlobalUser}
use auth_explore.Kube.{
  Namespace, RoleBinding, Request, ApiError, not_found, already_exists, other, has_label, label_is,
  Client,
}
use Table.{find, erase, listing}

pub record Store : Type 0 where
  pub namespaces : List Namespace
  pub bindings : List RoleBinding

-- The two custom resources of the management cluster, and the clusters by name.
pub record Machine : Type 0 where
  pub orgs : List Org
  pub global_users : List GlobalUser
  pub clusters : String → Store

abbrev pub Key : Type 0
Key = String × String

abbrev pub key_eq : Key → Key → Bool
key_eq (n, j) (n', j') = n == n' && j == j'

abbrev pub binding_key : RoleBinding → Key
binding_key rb = (rb.namespace, rb.name)

abbrev pub namespace_key : Namespace → String
namespace_key ns = ns.name

abbrev pub org_key : Org → String
org_key o = o.name

abbrev pub user_key : GlobalUser → String
user_key g = g.name

unfoldable pub find_namespace : String → List Namespace → Option Namespace
unfolding find
find_namespace = find ◌==◌ namespace_key

unfoldable pub find_binding : Key → List RoleBinding → Option RoleBinding
unfolding find
find_binding = find key_eq binding_key

unfoldable pub put_store : String → Store → Machine → Machine
put_store c s w = record w { clusters = λ d. if d == c then s else w.clusters d }

unfoldable pub or_not_found : {A : Type 0} → Option A → Result ApiError A
or_not_found none = err not_found
or_not_found (some a) = ok a

unfoldable pub create_namespace : String → Namespace → Exec Machine ApiError Unit
create_namespace c ns w =
    let s = w.clusters c in
    elim (find_namespace ns.name s.namespaces) [
      | none ↦ (ok tt, put_store c (record s { namespaces = ns ∷ s.namespaces }) w)
      | some _ ↦ (err already_exists, w)
    ]

unfoldable pub create_role_binding : String → RoleBinding → Exec Machine ApiError Unit
create_role_binding c rb w =
    let s = w.clusters c in
    elim (find_namespace rb.namespace s.namespaces) [
      | none ↦ (err not_found, w)
      | some _ ↦ elim (find_binding (binding_key rb) s.bindings) [
        | none ↦ (ok tt, put_store c (record s { bindings = rb ∷ s.bindings }) w)
        | some _ ↦ (err already_exists, w)
      ]
    ]

unfoldable pub delete_role_binding : String → RoleBinding → Exec Machine ApiError Unit
delete_role_binding c rb w =
    let s = w.clusters c in
    elim (find_binding (binding_key rb) s.bindings) [
      | none ↦ (err not_found, w)
      | some _ ↦ (
        ok tt,
        put_store c (record s { bindings = erase key_eq binding_key (binding_key rb) s.bindings })
            w,
      )
    ]

-- The API has no such call for namespaces.
unfoldable pub delete_namespaces : String → String → String → Exec Machine ApiError Unit
delete_namespaces c key value w =
    (err (other "the server does not allow this method on the requested resource"), w)

abbrev pub memory : (RoleBinding → List String) → Client
memory index = record {
  World = Machine;
  Conn = String;
  get_org = λ c request w. (or_not_found (find ◌==◌ org_key request.name w.orgs), w);
  get_global_user =
      λ c request w. (or_not_found (find ◌==◌ user_key request.name w.global_users), w);
  list_global_users = λ c w. (ok w.global_users, w);
  create_namespace = create_namespace;
  delete_namespaces = delete_namespaces;
  list_namespaces = λ c key w. (
    ok (listing ◌==◌ namespace_key (λ ns. has_label key ns.labels) (w.clusters c).namespaces),
    w,
  );
  create_role_binding = create_role_binding;
  delete_role_binding = delete_role_binding;
  list_role_bindings = λ c key value field x w. (
    ok (
        listing key_eq binding_key (λ rb. label_is key value rb.labels && contains (index rb) x)
          (w.clusters c).bindings),
    w,
  );
}
