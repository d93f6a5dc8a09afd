-- ===== src/Reconcilers/Orgs/Shared.antt =====
-- Two orgs whose space namespaces have one name, in reconcilers/org.go: the name of a namespace is
-- the org's name, a dash and the space's name, and these parts can be told apart in more than one
-- way.
use mathlib.Core.Option.{or_else}
use auth_explore.Base.{
  String, ◌≡◌, refl, sym, ap, ◌∙◌, fun_ext, none, some, false, List, ◌++◌, eq_self,
}
use auth_explore.Base.Exec.{ok}
use auth_explore.Api.{User, Space, Org}
use auth_explore.Kube.{RoleBinding, Client}
use auth_explore.Kube.Server.{IsServer, IsHealthy}
use auth_explore.Reconcilers.{other_level}
use auth_explore.Reconcilers.Bindings.Granting.{
  AllFresh, AllFresh-append, put_all-at, Granted, Kept, Kept-Granted,
}
use auth_explore.Reconcilers.Namespaces.{org_namespace}
use auth_explore.Reconcilers.Orgs.{namespace_name, reconcile_space}
use auth_explore.Reconcilers.Orgs.Spaces.{space_bindings, reconcile_space-ready}
use auth_explore.Reconcilers.Orgs.Healthy.{AllFresh-bindings, reconcile_space-ok}
use auth_explore.Reconcilers.Orgs.Elsewhere.{reconcile_space-deleting}

module _ (C : Client) (field : String) (index : RoleBinding → List String)
    (S : IsServer C field index) where
  open C use {World, Conn}
  open S use {view}

  -- What is new for both spaces is still new for the second when the first is done.
  AllFresh-next :
      (cl : Conn) (org other : Org) (space space' : Space) (users users' : List User) (w : World)
      → (reconcile_space C cl org space users w).0 ≡ ok tt
      → AllFresh (space_bindings org space users ++ space_bindings other space' users') (view w cl)
      → AllFresh
          (space_bindings other space' users')
          (view (reconcile_space C cl org space users w).1 cl)
  AllFresh-next cl org other space space' users users' w h fresh =
      let xs = space_bindings org space users in
      let (fresh₁, fresh₂) = AllFresh-append xs (space_bindings other space' users') fresh in
      AllFresh-bindings _ _ (view (reconcile_space C cl org space users w).1 cl)
        (fun_ext λ n. fun_ext λ j.
          (reconcile_space-ready C field index S cl org space users w n n j h).3
          ∙ sym (put_all-at n j fresh₁))
        fresh₂

  reconcile_space-Kept :
      (cl : Conn) (org : Org) (space : Space) (users : List User) (w : World)
      → (reconcile_space C cl org space users w).0 ≡ ok tt
      → Kept (view w cl) (view (reconcile_space C cl org space users w).1 cl)
  unfolding or_else
  reconcile_space-Kept cl org space users w h n j rb e =
      (reconcile_space-ready C field index S cl org space users w n n j h).3 ∙ rw e refl

  -- On a healthy server, let a space of one org and then a space of another org be reconciled whose
  -- namespaces have the same name. The namespace must not be there at first, nor any role binding that
  -- the two ask for, and none may be asked for twice; so no role of a global user may be asked for by
  -- both. Then both return no error, and the one namespace carries the label of the first org, and in
  -- it the users of both orgs and of both spaces have their roles.
  pub reconcile_space-shared :
      (H : IsHealthy C field index S) (cl : Conn) (org other : Org) (space space' : Space)
      (users users' : List User) (w : World)
      → namespace_name org space ≡ namespace_name other space'
      → (view w cl).namespaces (namespace_name org space) ≡ none
      → (view w cl).deleting (namespace_name org space) ≡ false
      → AllFresh (space_bindings org space users ++ space_bindings other space' users') (view w cl)
      → let n = namespace_name org space in
        let first = reconcile_space C cl org space users w in
        let second = reconcile_space C cl other space' users' first.1 in
        let k = view second.1 cl in
        (first.0 ≡ ok tt)
        × (second.0 ≡ ok tt)
        × (k.namespaces n ≡ some (org_namespace org.name n))
        × Granted (org.spec.users ++ space.users) other_level n k
        × Granted (other.spec.users ++ space'.users) other_level n k
  unfolding or_else
  reconcile_space-shared H cl org other space space' users users' w clash absent stays fresh =
      let n = namespace_name org space in
      let w' = (reconcile_space C cl org space users w).1 in
      let w'' = (reconcile_space C cl other space' users' w').1 in
      let h =
        reconcile_space-ok C field index S H cl org space users w stays
          (AllFresh-append (space_bindings org space users) _ fresh).0 in
      let stays' : (view w' cl).deleting (namespace_name other space') ≡ false = rw (sym clash) (
        ap (λ (f : String → _). f n)
          (reconcile_space-deleting C field index S cl org space users w h)
        ∙ stays) in
      let h' =
        reconcile_space-ok C field index S H cl other space' users' w' stays'
          (AllFresh-next cl org other space space' users users' w h fresh) in
      let one = reconcile_space-ready C field index S cl org space users w n "" "" h in
      let two = reconcile_space-ready C field index S cl other space' users' w' n "" "" h' in
      let new : (view w' cl).namespaces n ≡ some (org_namespace org.name n) =
        one.0 ∙ rw (absent, eq_self) in
      (
        h,
        h',
        two.0 ∙ rw new,
        Kept-Granted (org.spec.users ++ space.users) other_level n (view w' cl) (view w'' cl)
            (reconcile_space-Kept cl other space' users' w' h') one.2,
        rw clash two.2,
      )
