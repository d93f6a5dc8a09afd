-- ===== src/Controller/Index.antt =====
-- The index finds what the reconcilers create: main.go and reconcilers/org.go.
use auth_explore.Base.{String, ◌≡◌, ◌↔◌, true, arith, eq_iff}
use auth_explore.Kube.Server.{matches}
use auth_explore.Controller.{get_subject_user_name, subject_index}
use auth_explore.Reconcilers.{role_level_label, global_level}
use auth_explore.Reconcilers.Bindings.{role_binding}

-- Of the role bindings that `createRoleBindings` makes, the list of a deleted global user's role
-- bindings selects exactly those that were made for that user at the global level.
pub matches-role_binding :
    (user other role level namespace : String)
    → (matches subject_index role_level_label global_level user
          (role_binding other role level namespace)
        ≡ true)
      ↔ ((other ≡ user) × (level ≡ global_level))
unfolding role_binding get_subject_user_name
matches-role_binding user other role level namespace =
    ground (arith, eq_iff other user, eq_iff level "global")
