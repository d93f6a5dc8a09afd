-- ===== src/Reconcilers/Namespaces.antt =====
-- `createNamespace` of reconcilers/org.go.
pub mod Creation
use auth_explore.Base.{String, [], ◌∷◌}
use auth_explore.Base.Exec.{Result, ok, err, Exec, settle}
use auth_explore.Api.{Org}
use auth_explore.Kube.{Namespace, ApiError, already_exists, Client}
use auth_explore.Reconcilers.{Error, from_api, wrap, create_namespace_failed, org_label}

unfoldable pub org_namespace : String → String → Namespace
org_namespace org namespace = record { name = namespace; labels = (org_label, org) ∷ [] }

-- "already exists" is success.
abbrev pub created : Result ApiError Unit → Result Error Unit
created (err already_exists) = ok tt
created r = wrap create_namespace_failed (from_api r)

module _ (C : Client) where
  open C use {World, Conn}

  unfoldable pub create_namespace : Conn → Org → String → Exec World Error Unit
  create_namespace cl org namespace =
      settle created (C.create_namespace cl (org_namespace org.name namespace))
