-- ===== src/Reconcilers/Namespaces/Creation.antt =====
-- What `createNamespace` leaves behind.
use auth_explore.Base.{String, ◌≡◌, refl, ◌≢◌, ◌⊎◌, inl, inr, none, List}
use auth_explore.Base.Exec.{Result, ok, err}
use auth_explore.Api.{Org}
use auth_explore.Kube.{RoleBinding, Client, ApiError, not_found, already_exists, other}
use auth_explore.Kube.Server.{Cluster, put_namespace, IsServer}
use auth_explore.Reconcilers.Namespaces.{org_namespace, create_namespace}

-- A new namespace carries the label of the org; one that was there stays as it was.
abbrev pub Created : String → String → Cluster → Cluster → Type 0
Created org namespace k k' =
    ((k.namespaces namespace ≡ none) × (k' ≡ put_namespace (org_namespace org namespace) k))
    ⊎ ((k.namespaces namespace ≢ none) × (k' ≡ k))

module _ (C : Client) (field : String) (index : RoleBinding → List String)
    (S : IsServer C field index) where
  open C use {World, Conn}
  open S use {view}

  Created-cases :
      (cl : Conn) (org : Org) (namespace : String) (w : World) (r : Result ApiError Unit)
      → (C.create_namespace cl (org_namespace org.name namespace) w).0 ≡ r
      → (create_namespace C cl org namespace w).0 ≡ ok tt
      → Created org.name namespace (view w cl) (view (create_namespace C cl org namespace w).1 cl)
  unfolding create_namespace org_namespace
  Created-cases cl org namespace w (ok a) e h =
      inl (S.create_namespace_ok cl (org_namespace org.name namespace) w e)
  Created-cases cl org namespace w (err already_exists) e h = inr (
    S.create_namespace_exists cl (org_namespace org.name namespace) w e,
    S.create_namespace_err cl (org_namespace org.name namespace) w already_exists e,
  )
  Created-cases cl org namespace w (err not_found) e h = absurd (cc (h, e))
  Created-cases cl org namespace w (err (other s)) e h = absurd (cc (h, e))

  -- `createNamespace` returns no error only if the namespace is new and labelled with the org's name,
  -- or was there before and is left as it was, with whatever label it has.
  pub create_namespace-Created :
      (cl : Conn) (org : Org) (namespace : String) (w : World)
      → (create_namespace C cl org namespace w).0 ≡ ok tt
      → Created org.name namespace (view w cl) (view (create_namespace C cl org namespace w).1 cl)
  create_namespace-Created cl org namespace w h = Created-cases cl org namespace w _ refl h
