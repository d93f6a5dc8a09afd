-- ===== src/Reconcilers/Bindings/Granting/Success.antt =====
-- The answer of `createRoleBindings` and the cluster that it leaves, on every branch.
use auth_explore.Base.{
  String, ◌≡◌, refl, sym, ap, ◌∙◌, ◌≢◌, List, [], ◌∷◌, ◌++◌, In, ◌⊎◌, inl, inr, In-append_left,
  In-append_right, All-of_In,
}
use mathlib.Core.List.{append-nil}
use mathlib.Core.Option.{or_else}
use auth_explore.Base.Exec.{Result, ok, err}
use auth_explore.Api.{User}
use auth_explore.Kube.{RoleBinding, Client, ApiError}
use auth_explore.Kube.Server.{IsServer}
use auth_explore.Reconcilers.{Error, wrapped, api, create_role_binding_failed}
use auth_explore.Reconcilers.Bindings.{role_binding, create_binding, create_role_bindings}
use auth_explore.Reconcilers.Bindings.Granting.{
  bindings_of, requested, create_all, create_role_bindings-eq, put_all, AllFresh, nil, cons,
  put_all-grants, put_all-at, binding_at, Granted, Kept,
}

In-bindings_of :
    (user role level namespace : String) (roles : List String)
    → In role roles
    → In (role_binding user role level namespace) (bindings_of user roles level namespace)
unfolding bindings_of
In-bindings_of user role level namespace [] m = absurd m
In-bindings_of user role level namespace (x ∷ roles) (inl e) =
    inl (ap (λ r. role_binding user r level namespace) e)
In-bindings_of user role level namespace (x ∷ roles) (inr m) =
    inr (In-bindings_of user role level namespace roles m)

pub In-requested :
    (user : User) (role level namespace : String) (users : List User)
    → In user users
    → In role user.roles
    → In (role_binding user.name role level namespace) (requested users level namespace)
unfolding requested
In-requested user role level namespace [] mu mr = absurd mu
In-requested user role level namespace (x ∷ users) (inl e) mr =
    In-append_left (role_binding user.name role level namespace)
      (bindings_of x.name x.roles level namespace) (requested users level namespace)
      (rw (← e) (In-bindings_of user.name role level namespace user.roles mr))
In-requested user role level namespace (x ∷ users) (inr mu) mr =
    In-append_right _ _ _ (In-requested user role level namespace users mu mr)

-- The answer is an error exactly when some objects are left: that of the first one's creation.
abbrev Answer : Result Error Unit → List RoleBinding → Type 0
Answer r left =
    ((r ≡ ok tt) × (left ≡ []))
    ⊎ ((e : ApiError) × (r ≡ err (wrapped create_role_binding_failed (api e))) × (left ≢ []))

all-made :
    {made rbs : List RoleBinding} (left : List RoleBinding)
    → rbs ≡ made ++ left
    → Answer (ok tt) left
    → made ≡ rbs
all-made {made} left p (inl (_, q)) = sym (append-nil made) ∙ ap (λ l. made ++ l) (sym q) ∙ sym p
all-made left p (inr (x, q, _)) = cc

module _ (C : Client) (field : String) (index : RoleBinding → List String)
    (S : IsServer C field index) where
  open C use {World, Conn}
  open S use {view}

  -- What has been created, what has not, and the answer.
  pub record Effect (cl : Conn) (w : World) (rbs : List RoleBinding) (r : Result Error Unit)
      (w' : World) : Type 0 where
    pub made : List RoleBinding
    pub left : List RoleBinding
    pub parts : rbs ≡ made ++ left
    pub fresh : AllFresh made (view w cl)
    pub after : view w' cl ≡ put_all made (view w cl)
    pub answer : Answer r left

  step-Effect :
      (cl : Conn) (rb : RoleBinding) (rbs : List RoleBinding) (w : World)
      → ((w' : World) → Effect cl w' rbs (create_all C cl rbs w').0 (create_all C cl rbs w').1)
      → (r : Result ApiError Unit) → (C.create_role_binding cl rb w).0 ≡ r
      → Effect cl w (rb ∷ rbs) (create_all C cl (rb ∷ rbs) w).0 (create_all C cl (rb ∷ rbs) w).1
  unfolding create_all create_binding put_all
  step-Effect cl rb rbs w ih (ok a) e =
      let (absent, put) = S.create_role_binding_ok cl rb w e in
      let rest : Effect cl (C.create_role_binding cl rb w).1 rbs _ _ = ih _ in
      rw e (record {
        made = rb ∷ rest.made;
        left = rest.left;
        parts = ap (λ l. rb ∷ l) rest.parts;
        fresh = cons absent (rw put at rest.fresh);
        after = rw put at rest.after;
        answer = rest.answer;
      })
  step-Effect cl rb rbs w ih (err x) e = rw e (record {
    made = [];
    left = rb ∷ rbs;
    parts = refl;
    fresh = nil;
    after = S.create_role_binding_err cl rb w x e;
    answer = inr (x, refl, cc);
  })

  create_all-Effect :
      (cl : Conn) (rbs : List RoleBinding) (w : World)
      → Effect cl w rbs (create_all C cl rbs w).0 (create_all C cl rbs w).1
  unfolding create_all put_all
  create_all-Effect cl [] w = record {
    made = [];
    left = [];
    parts = refl;
    fresh = nil;
    after = refl;
    answer = inl (refl, refl);
  }
  create_all-Effect cl (rb ∷ rbs) w =
      step-Effect cl rb rbs w (create_all-Effect cl rbs) (C.create_role_binding cl rb w).0 refl

  -- On every branch: the role bindings that the users ask for are created in order, up to the first
  -- that the server refuses; those before it stay, those after it are not tried, and the answer is an
  -- error exactly when some are left. None that was there before is overwritten.
  pub create_role_bindings-Effect :
      (cl : Conn) (users : List User) (level namespace : String) (w : World)
      → Effect cl w
          (requested users level namespace)
          (create_role_bindings C cl users level namespace w).0
          (create_role_bindings C cl users level namespace w).1
  create_role_bindings-Effect cl users level namespace w =
      rw create_role_bindings-eq (create_all-Effect cl (requested users level namespace) w)

  -- A run with no error has made the whole list.
  pub complete :
      {cl : Conn} {w w' : World} {rbs : List RoleBinding}
      → Effect cl w rbs (ok tt) w'
      → AllFresh rbs (view w cl) × (view w' cl ≡ put_all rbs (view w cl))
  complete {cl} {w} {w'} {rbs} x =
      let all : x.made ≡ rbs = all-made x.left x.parts x.answer in
      (rw all at x.fresh, rw all at x.after)

  -- A run of `createRoleBindings` with no error has given every role of every user by the role binding
  -- of that name. Under each key stands what stood there before, or else the role binding that was
  -- asked for: nothing is overwritten and nothing else is added.
  pub create_role_bindings-grants :
      (cl : Conn) (users : List User) (level namespace : String) (w : World) (n j : String)
      → (create_role_bindings C cl users level namespace w).0 ≡ ok tt
      → let k = view w cl in
        let k' = view (create_role_bindings C cl users level namespace w).1 cl in
        Granted users level namespace k'
        × (k'.bindings n j
            ≡ or_else (k.bindings n j) (binding_at n j (requested users level namespace)))
  unfolding role_binding
  create_role_bindings-grants cl users level namespace w n j e =
      let (fresh, after) =
        complete (rw e at (create_role_bindings-Effect cl users level namespace w)) in
      rw after (
        All-of_In _ users λ user mu. All-of_In _ user.roles λ role mr.
            put_all-grants _ _ fresh (In-requested user role level namespace users mu mr),
        put_all-at n j fresh,
      )

  pub create_role_bindings-Kept :
      (cl : Conn) (users : List User) (level namespace : String) (w : World)
      → (create_role_bindings C cl users level namespace w).0 ≡ ok tt
      → Kept (view w cl) (view (create_role_bindings C cl users level namespace w).1 cl)
  unfolding or_else
  create_role_bindings-Kept cl users level namespace w e n j rb at =
      (create_role_bindings-grants cl users level namespace w n j e).1 ∙ rw at
