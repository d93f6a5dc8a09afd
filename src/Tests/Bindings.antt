-- ===== src/Tests/Bindings.antt =====
-- Runs of `createRoleBindings`.
use auth_explore.Base.{◌≡◌, refl, ◌≢◌, ◌↔◌, none, [], ◌∷◌}
use auth_explore.Base.Exec.{Result, ok}
use auth_explore.Kube.Server.{live}
use auth_explore.Kube.Memory.{Machine, create_role_binding, find_namespace, find_binding, put_store}
use auth_explore.Kube.Memory.Table.{find}
use auth_explore.Kube.Memory.Lawful.Views.{cluster, view}
use auth_explore.Controller.{subject_index}
use auth_explore.Reconcilers.{Error, other_level, subject_name_index}
use auth_explore.Reconcilers.Bindings.{role_binding, create_binding, create_role_bindings}
use auth_explore.Reconcilers.Bindings.Granting.{requested, AllFresh}
use auth_explore.Reconcilers.Bindings.Granting.Success.{Effect, create_role_bindings-Effect}
use auth_explore.Reconcilers.Bindings.Granting.Repeat.{create_role_bindings-ok_iff}
use auth_explore.Tests.Sample.{M, M-IsServer, M-IsHealthy, alice, start}

abbrev run : Machine → Result Error Unit × Machine
run = create_role_bindings M "one" (alice ∷ []) other_level "old-x"

run_ok : (run start).0 ≡ ok tt
unfolding create_role_bindings create_binding create_role_binding role_binding find_namespace
    find_binding find put_store
run_ok = refl

there : live (view start "one") "old-x" ≢ none
unfolding cluster find_namespace find
there h = cc

create_role_bindings-Effect_example :
    Effect M subject_name_index subject_index M-IsServer "one" start
      (requested (alice ∷ []) other_level "old-x")
      (run start).0
      (run start).1
create_role_bindings-Effect_example =
    create_role_bindings-Effect M subject_name_index subject_index M-IsServer "one" (alice ∷ [])
      other_level "old-x" start

create_role_bindings-ok_iff_example :
    ((run start).0 ≡ ok tt)
    ↔ AllFresh (requested (alice ∷ []) other_level "old-x") (view start "one")
create_role_bindings-ok_iff_example =
    create_role_bindings-ok_iff M subject_name_index subject_index M-IsServer M-IsHealthy "one"
      (alice ∷ []) other_level "old-x" start there
