-- ===== src/Reconcilers/Bindings/Granting/Frame.antt =====
-- What `createRoleBindings` leaves alone: other clusters, and the namespaces of its own.
use auth_explore.Base.{String, ◌≡◌, refl, ◌∙◌, ◌≢◌, List, [], ◌∷◌}
use auth_explore.Base.Exec.{Result, ok, err}
use auth_explore.Api.{User}
use auth_explore.Kube.{RoleBinding, Client, ApiError}
use auth_explore.Kube.Server.{IsServer}
use auth_explore.Reconcilers.Bindings.{create_binding, create_role_bindings}
use auth_explore.Reconcilers.Bindings.Granting.{
  requested, create_all, create_role_bindings-eq, put_all-namespaces,
}
use auth_explore.Reconcilers.Bindings.Granting.Success.{create_role_bindings-Effect}

module _ (C : Client) (field : String) (index : RoleBinding → List String)
    (S : IsServer C field index) where
  open C use {World, Conn}
  open S use {view}

  step_frame :
      (cl d : Conn) (rb : RoleBinding) (rbs : List RoleBinding) (w : World)
      → d ≢ cl
      → ((w' : World) → view (create_all C cl rbs w').1 d ≡ view w' d)
      → (r : Result ApiError Unit) → (C.create_role_binding cl rb w).0 ≡ r
      → view (create_all C cl (rb ∷ rbs) w).1 d ≡ view w d
  unfolding create_all create_binding
  step_frame cl d rb rbs w apart ih (ok a) e =
      rw e (ih _ ∙ S.create_role_binding_frame cl rb w d apart)
  step_frame cl d rb rbs w apart ih (err x) e = rw e (S.create_role_binding_frame cl rb w d apart)

  create_all-frame :
      (cl d : Conn) (rbs : List RoleBinding) (w : World)
      → d ≢ cl
      → view (create_all C cl rbs w).1 d ≡ view w d
  unfolding create_all
  create_all-frame cl d [] w apart = refl
  create_all-frame cl d (rb ∷ rbs) w apart =
      step_frame cl d rb rbs w apart (λ w'. create_all-frame cl d rbs w' apart)
        (C.create_role_binding cl rb w).0 refl

  pub create_role_bindings-frame :
      (cl d : Conn) (users : List User) (level namespace : String) (w : World)
      → d ≢ cl
      → view (create_role_bindings C cl users level namespace w).1 d ≡ view w d
  create_role_bindings-frame cl d users level namespace w apart =
      rw create_role_bindings-eq (create_all-frame cl d (requested users level namespace) w apart)

  pub create_role_bindings-namespaces :
      (cl : Conn) (users : List User) (level namespace : String) (w : World)
      → let k = view w cl in
        let k' = view (create_role_bindings C cl users level namespace w).1 cl in
        (k'.namespaces ≡ k.namespaces) × (k'.deleting ≡ k.deleting)
  create_role_bindings-namespaces cl users level namespace w =
      let x = create_role_bindings-Effect C field index S cl users level namespace w in
      rw x.after (put_all-namespaces x.made (view w cl))
