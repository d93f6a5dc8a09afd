-- ===== src/Reconcilers/Bindings/Granting.antt =====
-- What `createRoleBindings` does to a cluster: the nested loops as one list of objects to create,
-- and the cluster after a run that stops at the first error.
pub mod Success
pub mod Repeat
pub mod Frame
use auth_explore.Base.{
  String, ◌≡◌, refl, ap, ◌∙◌, fun_ext, ◌&&◌, some, none, List, [], ◌∷◌, ◌++◌, map, In, All, All-map,
  arith, ◌==◌, if◌then◌else◌, ◌⊎◌, inl, inr, eq_iff,
}
use mathlib.Core.Option.{Option, or_else}
use auth_explore.Base.Exec.{Result, ok, err, Exec, pure, settle, continue, ◌>>=◌, ◌>>◌}
use auth_explore.Api.{User}
use auth_explore.Kube.{RoleBinding, Client, ApiError}
use auth_explore.Kube.Server.{Cluster, put_binding, IsServer}
use auth_explore.Reconcilers.{Error}
use auth_explore.Reconcilers.Bindings.{
  binding_name, role_binding, create_binding, grant_roles, create_role_bindings,
}

unfoldable pub bindings_of : String → List String → String → String → List RoleBinding
bindings_of user [] level namespace = []
bindings_of user (role ∷ roles) level namespace =
    role_binding user role level namespace ∷ bindings_of user roles level namespace

-- The role bindings that the users ask for, in the order in which they are created.
unfoldable pub requested : List User → String → String → List RoleBinding
unfolding bindings_of
requested [] level namespace = []
requested (user ∷ users) level namespace =
    bindings_of user.name user.roles level namespace ++ requested users level namespace

-- Creating the objects of a list, up to the first error.
module _ (C : Client) where
  open C use {World, Conn}

  unfoldable pub create_all : Conn → List RoleBinding → Exec World Error Unit
  create_all cl [] = pure tt
  create_all cl (rb ∷ rbs) = do create_binding C cl rb; create_all cl rbs

  continue_assoc :
      (r : Result Error Unit) (m n : Exec World Error Unit) (w : World)
      → continue r (λ _. m >> n) w ≡ (continue r (λ _. m) >> n) w
  continue_assoc (ok a) m n w = refl
  continue_assoc (err e) m n w = refl

  create_all-append :
      (cl : Conn) (xs ys : List RoleBinding)
      → create_all cl (xs ++ ys) ≡ (create_all cl xs >> create_all cl ys)
  unfolding create_all
  create_all-append cl [] ys = refl
  create_all-append cl (rb ∷ xs) ys =
      ap (λ m. create_binding C cl rb >> m) (create_all-append cl xs ys)
      ∙ fun_ext λ w. continue_assoc (create_binding C cl rb w).0 _ _ _

  grant_roles-eq :
      (cl : Conn) (user : String) (roles : List String) (level namespace : String)
      → grant_roles C cl user roles level namespace
        ≡ create_all cl (bindings_of user roles level namespace)
  unfolding grant_roles create_all bindings_of
  grant_roles-eq cl user [] level namespace = refl
  grant_roles-eq cl user (role ∷ roles) level namespace =
      ap (λ m. create_binding C cl (role_binding user role level namespace) >> m)
        (grant_roles-eq cl user roles level namespace)

  -- The nested loops over users and roles create the requested list.
  pub create_role_bindings-eq :
      (cl : Conn) (users : List User) (level namespace : String)
      → create_role_bindings C cl users level namespace
        ≡ create_all cl (requested users level namespace)
  unfolding create_role_bindings create_all requested
  create_role_bindings-eq cl [] level namespace = refl
  create_role_bindings-eq cl (user ∷ users) level namespace =
      rw (grant_roles-eq, create_role_bindings-eq cl users level namespace, create_all-append)

-- The cluster with all of a list put into it, and a list none of which is there yet, nor twice in
-- the list.
pub put_all : List RoleBinding → Cluster → Cluster
put_all [] k = k
put_all (rb ∷ rbs) k = put_all rbs (put_binding rb k)

pub data AllFresh : List RoleBinding → Cluster → Type 0 where
  nil : {k : Cluster} → AllFresh [] k
  cons :
      {rb : RoleBinding} {rbs : List RoleBinding} {k : Cluster}
      → k.bindings rb.namespace rb.name ≡ none
      → AllFresh rbs (put_binding rb k)
      → AllFresh (rb ∷ rbs) k

put_all-keeps :
    {rbs : List RoleBinding} {k : Cluster} (n j : String) (rb : RoleBinding)
    → AllFresh rbs k
    → k.bindings n j ≡ some rb
    → (put_all rbs k).bindings n j ≡ some rb
unfolding put_all
put_all-keeps n j rb nil h = h
put_all-keeps n j rb (cons {rb = x} {k = k} f fs) h =
    put_all-keeps n j rb fs (ground (arith, eq_iff n x.namespace, eq_iff j x.name))

put_all-grants :
    (rbs : List RoleBinding) {k : Cluster} (rb : RoleBinding)
    → AllFresh rbs k
    → In rb rbs
    → (put_all rbs k).bindings rb.namespace rb.name ≡ some rb
unfolding put_all
put_all-grants [] rb f m = absurd m
put_all-grants (x ∷ rbs) rb (cons f fs) (inr m) = put_all-grants rbs rb fs m
put_all-grants (x ∷ rbs) rb (cons f fs) (inl e) =
    put_all-keeps rb.namespace rb.name rb fs
      (ground (arith, eq_iff rb.namespace x.namespace, eq_iff rb.name x.name))

pub AllFresh-append :
    (xs ys : List RoleBinding) {k : Cluster}
    → AllFresh (xs ++ ys) k
    → AllFresh xs k × AllFresh ys (put_all xs k)
unfolding put_all
AllFresh-append [] ys f = (nil, f)
AllFresh-append (x ∷ xs) ys (cons f fs) = let (g, h) = AllFresh-append xs ys fs in (cons f g, h)

-- The object of a list under a key.
abbrev pub binding_at : String → String → List RoleBinding → Option RoleBinding
binding_at n j [] = none
binding_at n j (rb ∷ rbs) =
    if n == rb.namespace && j == rb.name then some rb else binding_at n j rbs

pub put_all-at :
    {rbs : List RoleBinding} {k : Cluster} (n j : String)
    → AllFresh rbs k
    → (put_all rbs k).bindings n j ≡ or_else (k.bindings n j) (binding_at n j rbs)
unfolding put_all or_else
put_all-at n j (nil {k = k}) = ground arith
put_all-at n j (cons {rb = x} {rbs = rbs} {k = k} absent fresh) =
    ground (arith, put_all-at n j fresh, eq_iff n x.namespace, eq_iff j x.name)

-- Every role of every user is given by the role binding of that name.
abbrev pub Granted : List User → String → String → Cluster → Type 0
Granted users level namespace k =
    All
      (λ user.
        All
          (λ role.
            k.bindings namespace (binding_name user.name role)
            ≡ some (role_binding user.name role level namespace))
          user.roles)
      users

put_all-namespaces :
    (rbs : List RoleBinding) (k : Cluster)
    → ((put_all rbs k).namespaces ≡ k.namespaces) × ((put_all rbs k).deleting ≡ k.deleting)
unfolding put_all
put_all-namespaces [] k = (refl, refl)
put_all-namespaces (x ∷ rbs) k = put_all-namespaces rbs (put_binding x k)

-- No role binding of the first cluster is missing or changed in the second.
abbrev pub Kept : Cluster → Cluster → Type 0
Kept k k' = (n j : String) (rb : RoleBinding) → k.bindings n j ≡ some rb → k'.bindings n j ≡ some rb

pub Kept-Granted :
    (users : List User) (level namespace : String) (k k' : Cluster)
    → Kept k k'
    → Granted users level namespace k
    → Granted users level namespace k'
Kept-Granted users level namespace k k' kept =
    All-map users λ user. All-map user.roles λ role e. kept _ _ _ e
