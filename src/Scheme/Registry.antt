-- ===== src/Scheme/Registry.antt =====
-- What the registration in cross-cluster-orgs/org-controller relies on of the client library's scheme.
use auth_explore.Base.{
  String, ◌≡◌, ◌≢◌, ◌⊎◌, false, Option, none, some, List, [], ◌∷◌, All, contains,
}
use auth_explore.Base.Exec.{Result, ok, Exec, ◌>>◌}
use auth_explore.Scheme.{GroupVersion, GoType, Stop, Runtime}

-- The four kinds of the API's version, with the Go types that they are to stand for.
abbrev api_go_type : String → GoType
api_go_type n = record {
  pkg_path = "code.cloudfoundry.org/org-controller/pkg/apis/org/v1";
  name = n;
}

abbrev pub api_types : List GoType
api_types =
    api_go_type "Org"
    ∷ api_go_type "OrgList"
    ∷ api_go_type "GlobalUser"
    ∷ api_go_type "GlobalUserList"
    ∷ []

abbrev pub api_version : GroupVersion
api_version = record { group = "code.cloudfoundy.org.org"; version = "v1" }

-- A kind in a version of a group.
abbrev pub Gvk : Type 0
Gvk = GroupVersion × String

-- What a kind stands for does not contradict the type; what a type is registered as is this kind, if
-- it is registered.
abbrev pub Fits : Option GoType → GoType → Type 0
Fits found t = (found ≡ none) ⊎ (found ≡ some t)

abbrev pub Only : List Gvk → Gvk → Type 0
Only found k = (found ≡ []) ⊎ (found ≡ k ∷ [])

abbrev pub Named : List GoType → String → Type 0
Named ts n = All (λ t. t.name ≢ n) ts

module _ {Scheme : Type 0} (known : Scheme → GroupVersion → String → Option GoType)
    (kinds : Scheme → GoType → List Gvk) where
  -- A call that returns `nil` and after which these types, and no others, are registered anew.
  pub record Entered (gv : GroupVersion) (ts : List GoType) (s : Scheme)
      (res : Result Stop Unit × Scheme) : Type 0 where
    pub answer : res.0 ≡ ok tt
    pub resolved : All (λ t. known res.1 gv t.name ≡ some t) ts
    pub only : All (λ t. Only (kinds s t) (gv, t.name) → kinds res.1 t ≡ (gv, t.name) ∷ []) ts
    pub others :
        (v : GroupVersion) (n : String) → (v ≢ gv) ⊎ Named ts n → known res.1 v n ≡ known s v n
    pub other_types : (u : GoType) → Named ts u.name → kinds res.1 u ≡ kinds s u

  -- A call that returns `nil` and registers nothing but types of the library's own.
  pub record Extended (names : List String) (pkg_path : String) (s : Scheme)
      (res : Result Stop Unit × Scheme) : Type 0 where
    pub answer : res.0 ≡ ok tt
    pub others :
        (v : GroupVersion) (n : String) → contains names n ≡ false → known res.1 v n ≡ known s v n
    pub other_types : (u : GoType) → u.pkg_path ≢ pkg_path → kinds res.1 u ≡ kinds s u

module _ (L : Runtime) where
  open L use {Scheme, new_scheme, add_known_types, add_to_group_version, build, must}

  pub record IsRegistry : Type 0 where
    -- The type of a kind, which decoding asks for, and the kinds of a type, which requests are made of.
    pub known : Scheme → GroupVersion → String → Option GoType
    pub kinds : Scheme → GoType → List Gvk
    -- The kinds that `AddToGroupVersion` registers, with their types and the package of these.
    pub meta_kinds : List String
    pub meta_type : GroupVersion → String → GoType
    pub meta_pkg_path : String
    pub new_known : (v : GroupVersion) (n : String) → known new_scheme v n ≡ none
    pub new_kinds : (t : GoType) → kinds new_scheme t ≡ []
    -- Types are registered one by one, each under its name; one that contradicts what its kind stands
    -- for, or a version that is empty, is a panic.
    pub add_none :
        (gv : GroupVersion) (s : Scheme) → Entered known kinds gv [] s (add_known_types gv [] s)
    pub add_more :
        (gv : GroupVersion) (t : GoType) (ts : List GoType) (s : Scheme)
        → add_known_types gv (t ∷ ts) s ≡ (add_known_types gv (t ∷ []) >> add_known_types gv ts) s
    pub add_one :
        (gv : GroupVersion) (t : GoType) (s : Scheme)
        → gv.version ≢ ""
        → Fits (known s gv t.name) t
        → Entered known kinds gv (t ∷ []) s (add_known_types gv (t ∷ []) s)
    pub add_meta :
        (gv : GroupVersion) (s : Scheme)
        → gv.version ≢ ""
        → ((v : GroupVersion) (n : String)
            → contains meta_kinds n ≢ false
            → Fits (known s v n) (meta_type v n))
        → Extended known kinds meta_kinds meta_pkg_path s (add_to_group_version gv s)
          × ((v : GroupVersion) (n : String)
              → contains meta_kinds n ≢ false
              → Fits (known (add_to_group_version gv s).1 v n) (meta_type v n))
    -- None of the API's types has the name of such a kind, or stands in its package.
    pub meta_apart :
        All (λ t. (contains meta_kinds t.name ≡ false) × (t.pkg_path ≢ meta_pkg_path)) api_types
    -- A builder applies its functions in order, up to the first that does not return `nil`.
    pub build_none : (s : Scheme) → build [] s ≡ (ok tt, s)
    pub build_more :
        (f : Exec Scheme Stop Unit) (fs : List (Exec Scheme Stop Unit)) (s : Scheme)
        → build (f ∷ fs) s ≡ (f >> build fs) s
    pub must_ok : must (ok tt) ≡ ok tt
