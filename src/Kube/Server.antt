-- ===== src/Kube/Server.antt =====
-- What the controller relies on of the API servers behind its clients, as named assumptions.
-- `IsServer` is the meaning of each call's answer; it does not say that a call succeeds. `IsHealthy`
-- adds that a create fails only where the object is there already or its namespace is not, and
-- `IsRefusing` that namespaces cannot be deleted as a collection.
-- Lists are read from caches; the laws of the two lists suppose these to be up to date.
use auth_explore.Base.{
  String, ◌≡◌, sym, ap, ◌∙◌, inl, inr, ◌≢◌, ◌↔◌, Bool, true, false, ◌&&◌, Option, none, some, List,
  [], ◌∷◌, In, contains, ◌==◌, if◌then◌else◌,
}
use auth_explore.Base.Exec.{ok, err}
use auth_explore.Kube.{
  Namespace, RoleBinding, Request, ApiError, already_exists, other, has_label, label_is, Client,
}

-- The objects of one cluster. A namespace that is being deleted is there until its end.
pub record Cluster : Type 0 where
  pub namespaces : String → Option Namespace
  pub deleting : String → Bool
  pub bindings : String → String → Option RoleBinding

abbrev pub put_namespace : Namespace → Cluster → Cluster
put_namespace ns k = record k { namespaces = λ j. if j == ns.name then some ns else k.namespaces j }

abbrev pub put_binding : RoleBinding → Cluster → Cluster
put_binding rb k = record k {
  bindings = λ n j. if n == rb.namespace && j == rb.name then some rb else k.bindings n j;
}

abbrev pub drop_binding : String → String → Cluster → Cluster
drop_binding n' j' k = record k {
  bindings = λ n j. if n == n' && j == j' then none else k.bindings n j;
}

abbrev unless : Bool → Option Namespace → Option Namespace
unless true o = none
unless false o = o

-- The namespaces that are there to stay.
abbrev pub live : Cluster → String → Option Namespace
live k j = unless (k.deleting j) (k.namespaces j)

abbrev pub labelled : String → String → Option Namespace → Bool
labelled key value none = false
labelled key value (some ns) = label_is key value ns.labels

-- Does the namespace carry the label?
abbrev pub selected : String → String → Cluster → String → Bool
selected key value k j = labelled key value (k.namespaces j)

-- What a list with a label and a field selects.
abbrev pub matches : (RoleBinding → List String) → String → String → String → RoleBinding → Bool
matches index key value x rb = label_is key value rb.labels && contains (index rb) x

-- The clients of a map from cluster names, each of a cluster of its own.
abbrev pub Apart {ℓ} : {A : Type ℓ} → A → List (String × A) → Type ℓ
Apart cl [] = Unit
Apart cl ((_, d) ∷ clients) = (cl ≢ d) × Apart cl clients

abbrev pub Distinct {ℓ} : {A : Type ℓ} → List (String × A) → Type ℓ
Distinct [] = Unit
Distinct ((_, cl) ∷ clients) = Apart cl clients × Distinct clients

pub ne-of_Apart :
    {A : Type 0} (cl : A) (name : String) (d : A) (clients : List (String × A))
    → Apart cl clients
    → In (name, d) clients
    → d ≢ cl
ne-of_Apart cl name d [] apart m = absurd m
ne-of_Apart cl name d ((_, x) ∷ clients) (differ, apart) (inl e) =
    λ p. differ (sym p ∙ ap (λ (q : String × _). q.1) e)
ne-of_Apart cl name d ((_, x) ∷ clients) (differ, apart) (inr m) =
    ne-of_Apart cl name d clients apart m

module _ (C : Client) (field : String) (index : RoleBinding → List String) where
  open C use {World, Conn}

  pub record IsServer : Type 0 where
    pub view : World → Conn → Cluster
    -- objects stand under their names
    pub namespace_key :
        (w : World) (c : Conn) (j : String) (ns : Namespace)
        → (view w c).namespaces j ≡ some ns
        → ns.name ≡ j
    pub binding_key :
        (w : World) (c : Conn) (n j : String) (rb : RoleBinding)
        → (view w c).bindings n j ≡ some rb
        → (rb.namespace ≡ n) × (rb.name ≡ j)
    -- reads change nothing
    pub get_org_view : (c : Conn) (q : Request) (w : World) → view (C.get_org c q w).1 ≡ view w
    pub get_global_user_view :
        (c : Conn) (q : Request) (w : World) → view (C.get_global_user c q w).1 ≡ view w
    pub list_global_users_view : (c : Conn) (w : World) → view (C.list_global_users c w).1 ≡ view w
    pub list_namespaces_view :
        (c : Conn) (key : String) (w : World) → view (C.list_namespaces c key w).1 ≡ view w
    pub list_role_bindings_view :
        (c : Conn) (key value f x : String) (w : World)
        → view (C.list_role_bindings c key value f x w).1 ≡ view w
    -- a create that succeeds adds an object that was not there
    pub create_namespace_ok :
        (c : Conn) (ns : Namespace) (w : World)
        → (C.create_namespace c ns w).0 ≡ ok tt
        → ((view w c).namespaces ns.name ≡ none)
          × (view (C.create_namespace c ns w).1 c ≡ put_namespace ns (view w c))
    pub create_namespace_err :
        (c : Conn) (ns : Namespace) (w : World) (e : ApiError)
        → (C.create_namespace c ns w).0 ≡ err e
        → view (C.create_namespace c ns w).1 c ≡ view w c
    pub create_namespace_exists :
        (c : Conn) (ns : Namespace) (w : World)
        → (C.create_namespace c ns w).0 ≡ err already_exists
        → (view w c).namespaces ns.name ≢ none
    pub create_role_binding_ok :
        (c : Conn) (rb : RoleBinding) (w : World)
        → (C.create_role_binding c rb w).0 ≡ ok tt
        → ((view w c).bindings rb.namespace rb.name ≡ none)
          × (view (C.create_role_binding c rb w).1 c ≡ put_binding rb (view w c))
    pub create_role_binding_err :
        (c : Conn) (rb : RoleBinding) (w : World) (e : ApiError)
        → (C.create_role_binding c rb w).0 ≡ err e
        → view (C.create_role_binding c rb w).1 c ≡ view w c
    -- a delete that succeeds removes the object
    pub delete_role_binding_ok :
        (c : Conn) (rb : RoleBinding) (w : World)
        → (C.delete_role_binding c rb w).0 ≡ ok tt
        → view (C.delete_role_binding c rb w).1 c ≡ drop_binding rb.namespace rb.name (view w c)
    -- a call works on the cluster of its client alone
    pub create_namespace_frame :
        (c : Conn) (ns : Namespace) (w : World) (d : Conn)
        → d ≢ c
        → view (C.create_namespace c ns w).1 d ≡ view w d
    pub create_role_binding_frame :
        (c : Conn) (rb : RoleBinding) (w : World) (d : Conn)
        → d ≢ c
        → view (C.create_role_binding c rb w).1 d ≡ view w d
    pub delete_role_binding_frame :
        (c : Conn) (rb : RoleBinding) (w : World) (d : Conn)
        → d ≢ c
        → view (C.delete_role_binding c rb w).1 d ≡ view w d
    -- a list holds the objects that it selects, all of them and no other
    pub list_namespaces_ok :
        (c : Conn) (key : String) (w : World) (l : List Namespace)
        → (C.list_namespaces c key w).0 ≡ ok l
        → (ns : Namespace)
        → In ns l ↔ (((view w c).namespaces ns.name ≡ some ns) × (has_label key ns.labels ≡ true))
    pub list_role_bindings_ok :
        (c : Conn) (key value x : String) (w : World) (l : List RoleBinding)
        → (C.list_role_bindings c key value field x w).0 ≡ ok l
        → (rb : RoleBinding)
        → In rb l ↔ (
            ((view w c).bindings rb.namespace rb.name ≡ some rb)
            × (matches index key value x rb ≡ true))

  pub record IsHealthy (S : IsServer) : Type 0 where
    pub create_role_binding_fresh :
        (c : Conn) (rb : RoleBinding) (w : World)
        → live (S.view w c) rb.namespace ≢ none
        → (S.view w c).bindings rb.namespace rb.name ≡ none
        → (C.create_role_binding c rb w).0 ≡ ok tt
    pub create_role_binding_taken :
        (c : Conn) (rb : RoleBinding) (w : World)
        → live (S.view w c) rb.namespace ≢ none
        → (S.view w c).bindings rb.namespace rb.name ≢ none
        → (C.create_role_binding c rb w).0 ≡ err already_exists
    pub create_namespace_fresh :
        (c : Conn) (ns : Namespace) (w : World)
        → (S.view w c).namespaces ns.name ≡ none
        → (C.create_namespace c ns w).0 ≡ ok tt
    pub create_namespace_taken :
        (c : Conn) (ns : Namespace) (w : World)
        → (S.view w c).namespaces ns.name ≢ none
        → (C.create_namespace c ns w).0 ≡ err already_exists

  -- The API has no `deletecollection` for namespaces (k8s.io/api/core/v1/types.go marks `Namespace`
  -- with skipVerbs=deleteCollection): the call is refused, and nothing is deleted.
  pub record IsRefusing (S : IsServer) : Type 0 where
    pub delete_namespaces_refused :
        (c : Conn) (key value : String) (w : World)
        → (message : String) × ((C.delete_namespaces c key value w).0 ≡ err (other message))
    pub delete_namespaces_view :
        (c : Conn) (key value : String) (w : World)
        → S.view (C.delete_namespaces c key value w).1 ≡ S.view w
