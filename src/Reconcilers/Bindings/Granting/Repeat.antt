-- ===== src/Reconcilers/Bindings/Granting/Repeat.antt =====
-- When `createRoleBindings` succeeds on a healthy server, and what a second run does.
use auth_explore.Base.{String, ◌≡◌, refl, sym, ◌≢◌, ◌↔◌, none, List, [], ◌∷◌, ◌++◌, In, inl, All}
use mathlib.Core.List.{append_assoc}
use mathlib.Core.Path.{subst}
use mathlib.Core.Option.{some-ne-none}
use auth_explore.Base.Exec.{ok, err}
use auth_explore.Api.{User}
use auth_explore.Kube.{RoleBinding, Client, already_exists}
use auth_explore.Kube.Server.{live, IsServer, IsHealthy}
use auth_explore.Reconcilers.{wrapped, api, create_role_binding_failed}
use auth_explore.Reconcilers.Bindings.{role_binding, create_binding, create_role_bindings}
use auth_explore.Reconcilers.Bindings.Granting.{
  bindings_of, requested, create_all, create_role_bindings-eq, put_all, AllFresh, cons,
  put_all-namespaces, put_all-grants,
}
use auth_explore.Reconcilers.Bindings.Granting.Success.{
  complete, create_role_bindings-Effect, In-requested,
}

abbrev pub InNamespace : String → List RoleBinding → Type 0
InNamespace namespace = All (λ rb. rb.namespace ≡ namespace)

pub InNamespace-append :
    (namespace : String) (xs ys : List RoleBinding)
    → InNamespace namespace xs
    → InNamespace namespace ys
    → InNamespace namespace (xs ++ ys)
InNamespace-append namespace [] ys _ h = h
InNamespace-append namespace (x ∷ xs) ys (e, g) h = (e, InNamespace-append namespace xs ys g h)

bindings_of-InNamespace :
    (user : String) (roles : List String) (level namespace : String)
    → InNamespace namespace (bindings_of user roles level namespace)
unfolding bindings_of role_binding
bindings_of-InNamespace user [] level namespace = tt
bindings_of-InNamespace user (role ∷ roles) level namespace =
    (refl, bindings_of-InNamespace user roles level namespace)

pub requested-InNamespace :
    (users : List User) (level namespace : String)
    → InNamespace namespace (requested users level namespace)
unfolding requested
requested-InNamespace [] level namespace = tt
requested-InNamespace (user ∷ users) level namespace =
    InNamespace-append namespace _ _ (bindings_of-InNamespace user.name user.roles level namespace)
      (requested-InNamespace users level namespace)

requested-append :
    (xs ys : List User) (level namespace : String)
    → requested (xs ++ ys) level namespace
      ≡ requested xs level namespace ++ requested ys level namespace
unfolding requested
requested-append [] ys level namespace = refl
requested-append (x ∷ xs) ys level namespace =
    rw (requested-append xs ys level namespace)
      (sym (append_assoc (bindings_of x.name x.roles level namespace) _ _))

module _ (C : Client) (field : String) (index : RoleBinding → List String)
    (S : IsServer C field index) (H : IsHealthy C field index S) where
  open C use {World, Conn}
  open S use {view}

  create_all-ok :
      (cl : Conn) (namespace : String) (rbs : List RoleBinding) (w : World)
      → InNamespace namespace rbs
      → live (view w cl) namespace ≢ none
      → AllFresh rbs (view w cl)
      → (create_all C cl rbs w).0 ≡ ok tt
  unfolding create_all create_binding
  create_all-ok cl namespace [] w same there fresh = refl
  create_all-ok cl namespace (rb ∷ rbs) w (here, same) there (cons absent fresh) =
      let made : (C.create_role_binding cl rb w).0 ≡ ok tt =
        H.create_role_binding_fresh cl rb w (rw here there) absent in
      let put = (S.create_role_binding_ok cl rb w made).1 in
      rw made (create_all-ok cl namespace rbs _ same (rw put there) (rw put fresh))

  -- On a healthy server, in a namespace that is there to stay, `createRoleBindings` returns no error
  -- exactly when no role binding that it asks for is there already or is asked for twice.
  pub create_role_bindings-ok_iff :
      (cl : Conn) (users : List User) (level namespace : String) (w : World)
      → live (view w cl) namespace ≢ none
      → ((create_role_bindings C cl users level namespace w).0 ≡ ok tt)
        ↔ AllFresh (requested users level namespace) (view w cl)
  create_role_bindings-ok_iff cl users level namespace w there = (
    (λ e.
        (complete C field index S
          (rw e at (create_role_bindings-Effect C field index S cl users level namespace w))).0),
    (λ fresh.
        rw create_role_bindings-eq (
          create_all-ok cl namespace _ w (requested-InNamespace users level namespace) there
            fresh)),
  )

  pub create_all-taken :
      (cl : Conn) (namespace : String) (rb : RoleBinding) (rbs : List RoleBinding) (w : World)
      → rb.namespace ≡ namespace
      → live (view w cl) namespace ≢ none
      → (view w cl).bindings rb.namespace rb.name ≢ none
      → ((create_all C cl (rb ∷ rbs) w).0
          ≡ err (wrapped create_role_binding_failed (api already_exists)))
        × (view (create_all C cl (rb ∷ rbs) w).1 cl ≡ view w cl)
  unfolding create_all create_binding
  create_all-taken cl namespace rb rbs w here there taken =
      let e = H.create_role_binding_taken cl rb w (rw here there) taken in
      rw e (refl, S.create_role_binding_err cl rb w already_exists e)

  again :
      (cl : Conn) (namespace : String) (made more : List RoleBinding) (w w' : World)
      → InNamespace namespace made
      → live (view w cl) namespace ≢ none
      → AllFresh made (view w cl)
      → view w' cl ≡ put_all made (view w cl)
      → made ≢ []
      → ((create_all C cl (made ++ more) w').0
          ≡ err (wrapped create_role_binding_failed (api already_exists)))
        × (view (create_all C cl (made ++ more) w').1 cl ≡ view w' cl)
  again cl namespace [] more w w' same there fresh after some_made = absurd (some_made refl)
  again cl namespace (rb ∷ rbs) more w w' (here, same) there fresh after some_made =
      let (stay, stay') = put_all-namespaces (rb ∷ rbs) (view w cl) in
      create_all-taken cl namespace rb (rbs ++ more) w' here (rw (after, stay, stay') there)
        (rw (after, put_all-grants (rb ∷ rbs) rb fresh (inl refl)) (some-ne-none rb))

  -- On a healthy server, in a namespace that is there to stay: once `createRoleBindings` has
  -- succeeded for users of whom one has a role, running it again, for these users and any that have
  -- been added behind them, returns "already exists" and changes nothing. The users that have been
  -- added get none of their roles.
  pub create_role_bindings-again :
      (cl : Conn) (users more : List User) (level namespace : String) (w : World) (user : User)
      (role : String)
      → live (view w cl) namespace ≢ none
      → In user users
      → In role user.roles
      → (create_role_bindings C cl users level namespace w).0 ≡ ok tt
      → let w' = (create_role_bindings C cl users level namespace w).1 in
        ((create_role_bindings C cl (users ++ more) level namespace w').0
          ≡ err (wrapped create_role_binding_failed (api already_exists)))
        × (view (create_role_bindings C cl (users ++ more) level namespace w').1 cl ≡ view w' cl)
  create_role_bindings-again cl users more level namespace w user role there mu mr e =
      let (fresh, after) =
        complete C field index S
          (rw e at (create_role_bindings-Effect C field index S cl users level namespace w)) in
      let m = In-requested user role level namespace users mu mr in
      let w' = (create_role_bindings C cl users level namespace w).1 in
      let outcome =
        again cl namespace (requested users level namespace) (requested more level namespace) w w'
          (requested-InNamespace users level namespace) there fresh after
          (λ nothing. subst (In (role_binding user.name role level namespace)) nothing m) in
      rw (create_role_bindings-eq C cl (users ++ more), requested-append users more) outcome
