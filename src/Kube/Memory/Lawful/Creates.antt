-- ===== src/Kube/Memory/Lawful/Creates.antt =====
-- The creates of the server in memory.
use mathlib.Core.Option.{some-ne-none}
use auth_explore.Base.{String, ◌≡◌, refl, ap, ◌∙◌, ◌≢◌, none, ◌∷◌, Option-cases, inl, inr}
use auth_explore.Base.Exec.{Result, ok, err}
use auth_explore.Kube.{Namespace, RoleBinding, ApiError, not_found, already_exists}
use auth_explore.Kube.Server.{put_namespace, put_binding, live}
use auth_explore.Kube.Memory.{
  Machine, binding_key, find_namespace, find_binding, put_store, create_namespace,
  create_role_binding,
}
use auth_explore.Kube.Memory.Lawful.Views.{
  cluster, view, put_store_self, put_store-frame, cluster-add_namespace, cluster-add_binding,
}

pub create_namespace_lem :
    (c : String) (ns : Namespace) (w : Machine)
    → (create_namespace c ns w).0 ≡ ok tt
    → ((view w c).namespaces ns.name ≡ none)
      × (view (create_namespace c ns w).1 c ≡ put_namespace ns (view w c))
unfolding create_namespace cluster
create_namespace_lem c ns w h =
    elim (Option-cases (find_namespace ns.name (w.clusters c).namespaces)) [
      | inl e ↦ (
        e,
        rw (e, create_namespace)
            (ap cluster (put_store_self c _ w) ∙ cluster-add_namespace ns (w.clusters c)),
      )
      | inr (x, e) ↦ absurd (cc (rw (e, create_namespace) at h))
    ]

pub create_namespace-err :
    (c : String) (ns : Namespace) (w : Machine) (x : ApiError)
    → (create_namespace c ns w).0 ≡ err x
    → view (create_namespace c ns w).1 c ≡ view w c
unfolding create_namespace
create_namespace-err c ns w x h =
    elim (Option-cases (find_namespace ns.name (w.clusters c).namespaces)) [
      | inl e ↦ absurd (cc (rw (e, create_namespace) at h))
      | inr (y, e) ↦ rw (e, create_namespace)
    ]

pub create_namespace-exists :
    (c : String) (ns : Namespace) (w : Machine)
    → (create_namespace c ns w).0 ≡ err already_exists
    → (view w c).namespaces ns.name ≢ none
unfolding create_namespace cluster
create_namespace-exists c ns w h =
    elim (Option-cases (find_namespace ns.name (w.clusters c).namespaces)) [
      | inl e ↦ absurd (cc (rw (e, create_namespace) at h))
      | inr (y, e) ↦ rw e (some-ne-none y)
    ]

pub create_namespace-frame :
    (c : String) (ns : Namespace) (w : Machine) (d : String)
    → d ≢ c
    → view (create_namespace c ns w).1 d ≡ view w d
unfolding create_namespace
create_namespace-frame c ns w d h =
    elim (Option-cases (find_namespace ns.name (w.clusters c).namespaces)) [
      | inl e ↦ rw (e, create_namespace) (ap cluster (put_store-frame c _ w d h))
      | inr (y, e) ↦ rw (e, create_namespace)
    ]

pub create_namespace-fresh :
    (c : String) (ns : Namespace) (w : Machine)
    → (view w c).namespaces ns.name ≡ none
    → (create_namespace c ns w).0 ≡ ok tt
unfolding create_namespace cluster
create_namespace-fresh c ns w e = rw (e, create_namespace)

pub create_namespace-taken :
    (c : String) (ns : Namespace) (w : Machine)
    → (view w c).namespaces ns.name ≢ none
    → (create_namespace c ns w).0 ≡ err already_exists
unfolding create_namespace cluster
create_namespace-taken c ns w h =
    elim (Option-cases (find_namespace ns.name (w.clusters c).namespaces)) [
      | inl e ↦ absurd (h e)
      | inr (x, e) ↦ rw (e, create_namespace)
    ]

-- The three outcomes of a create of a role binding.
pub data Binding (c : String) (rb : RoleBinding) (w : Machine)
    : Result ApiError Unit × Machine → Type 0 where
  no_namespace : (view w c).namespaces rb.namespace ≡ none → Binding c rb w (err not_found, w)
  taken :
      (view w c).namespaces rb.namespace ≢ none
      → (view w c).bindings rb.namespace rb.name ≢ none
      → Binding c rb w (err already_exists, w)
  fresh :
      (view w c).namespaces rb.namespace ≢ none
      → (view w c).bindings rb.namespace rb.name ≡ none
      → Binding c rb w
          (ok tt, put_store c (record (w.clusters c) { bindings = rb ∷ (w.clusters c).bindings }) w)

pub create_role_binding-Binding :
    (c : String) (rb : RoleBinding) (w : Machine) → Binding c rb w (create_role_binding c rb w)
unfolding create_role_binding cluster
create_role_binding-Binding c rb w =
    elim (Option-cases (find_namespace rb.namespace (w.clusters c).namespaces)) [
      | inl e ↦ rw (e, create_role_binding) (no_namespace e)
      | inr (x, e) ↦ elim (Option-cases (find_binding (binding_key rb) (w.clusters c).bindings)) [
        | inl e' ↦ rw (e, e', create_role_binding) (fresh (rw e (some-ne-none x)) e')
        | inr (y, e') ↦
            rw (e, e', create_role_binding) (taken (rw e (some-ne-none x)) (rw e' (some-ne-none y)))
      ]
    ]

pub Binding-ok :
    {c : String} {rb : RoleBinding} {w : Machine} {q : Result ApiError Unit × Machine}
    → Binding c rb w q
    → q.0 ≡ ok tt
    → ((view w c).bindings rb.namespace rb.name ≡ none) × (view q.1 c ≡ put_binding rb (view w c))
Binding-ok (no_namespace _) h = absurd (cc h)
Binding-ok (taken _ _) h = absurd (cc h)
Binding-ok {c} {rb} {w} (fresh _ e) h =
    (e, ap cluster (put_store_self c _ w) ∙ cluster-add_binding rb (w.clusters c))

pub Binding-err :
    {c : String} {rb : RoleBinding} {w : Machine} {q : Result ApiError Unit × Machine}
    (x : ApiError)
    → Binding c rb w q
    → q.0 ≡ err x
    → view q.1 c ≡ view w c
Binding-err x (no_namespace _) h = refl
Binding-err x (taken _ _) h = refl
Binding-err x (fresh _ _) h = absurd (cc h)

pub Binding-frame :
    {c : String} {rb : RoleBinding} {w : Machine} {q : Result ApiError Unit × Machine} (d : String)
    → Binding c rb w q
    → d ≢ c
    → view q.1 d ≡ view w d
Binding-frame d (no_namespace _) h = refl
Binding-frame d (taken _ _) h = refl
Binding-frame {c} {w} d (fresh _ _) h = ap cluster (put_store-frame c _ w d h)

pub Binding-fresh :
    {c : String} {rb : RoleBinding} {w : Machine} {q : Result ApiError Unit × Machine}
    → Binding c rb w q
    → live (view w c) rb.namespace ≢ none
    → (view w c).bindings rb.namespace rb.name ≡ none
    → q.0 ≡ ok tt
unfolding cluster
Binding-fresh (no_namespace e) there free = absurd (there e)
Binding-fresh (taken _ e) there free = absurd (e free)
Binding-fresh (fresh _ _) there free = refl

pub Binding-taken :
    {c : String} {rb : RoleBinding} {w : Machine} {q : Result ApiError Unit × Machine}
    → Binding c rb w q
    → live (view w c) rb.namespace ≢ none
    → (view w c).bindings rb.namespace rb.name ≢ none
    → q.0 ≡ err already_exists
unfolding cluster
Binding-taken (no_namespace e) there held = absurd (there e)
Binding-taken (taken _ _) there held = refl
Binding-taken (fresh _ e) there held = absurd (held e)
