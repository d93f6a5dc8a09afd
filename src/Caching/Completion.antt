-- ===== src/Caching/Completion.antt =====
-- When `populateCluster` of caching/main.go comes to its end.
use auth_explore.Base.{ℕ, zero, suc, ◌+◌, ◌≤◌, String, ◌≡◌, refl, ◌⊎◌, inl, inr}
use auth_explore.Base.Exec.{Result, ok, err, Exec, settle, ◌>>◌}
use auth_explore.Kube.{ApiError, already_exists}
use auth_explore.Caching.{
  App, AppClient, Error, create_namespace_failed, create_app_failed, namespace_name, app, tolerate,
  create_apps, populate, populate_cluster,
}
use auth_explore.Caching.Populated.{There, IsAppServer, populate_cluster-has}

-- A tolerated create is an answer without an error.
There-tolerate :
    (fail : ApiError → Error) (r : Result ApiError Unit)
    → (r ≡ ok tt) ⊎ (r ≡ err already_exists)
    → tolerate fail r ≡ ok tt
There-tolerate fail r (inl e) = rw e refl
There-tolerate fail r (inr e) = rw e refl

>>-ok :
    {W : Type 0} (m k : Exec W Error Unit) (w : W)
    → (m w).0 ≡ ok tt
    → (k (m w).1).0 ≡ ok tt
    → ((m >> k) w).0 ≡ ok tt
>>-ok m k w e e' = rw e e'

module _ (C : AppClient) where
  open C use {World}

  create_apps-ok :
      ((a : App) (w : World) → There C (C.create_app a w).0)
      → (rounds i j : ℕ) (w : World) → (create_apps C rounds i j w).0 ≡ ok tt
  unfolding create_apps
  create_apps-ok h zero i j w = refl
  create_apps-ok h (suc rounds) i j w =
      >>-ok (settle (tolerate create_app_failed) (C.create_app (app i j))) _ w
        (There-tolerate create_app_failed _ (h (app i j) w)) (create_apps-ok h rounds i (j + 1) _)

  populate-ok :
      ((n : String) (w : World) → There C (C.create_namespace n w).0)
      → ((a : App) (w : World) → There C (C.create_app a w).0)
      → (rounds i : ℕ) (w : World) → (populate C rounds i w).0 ≡ ok tt
  unfolding populate
  populate-ok g h zero i w = refl
  populate-ok g h (suc rounds) i w =
      let one = settle (tolerate create_namespace_failed) (C.create_namespace (namespace_name i)) in
      >>-ok one (create_apps C 10 i 1 >> populate C rounds (i + 1)) w
        (There-tolerate create_namespace_failed _ (g (namespace_name i) w))
        (>>-ok (create_apps C 10 i 1) (populate C rounds (i + 1)) (one w).1
          (create_apps-ok h 10 i 1 _) (populate-ok g h rounds (i + 1) _))

  populate_cluster-ok :
      ((n : String) (w : World) → There C (C.create_namespace n w).0)
      → ((a : App) (w : World) → There C (C.create_app a w).0)
      → (w : World) → (populate_cluster C w).0 ≡ ok tt
  unfolding populate_cluster
  populate_cluster-ok g h w = populate-ok g h 100 1 w

  -- Where every create succeeds or finds the object there already, `populateCluster` returns no error,
  -- from every world, and leaves the namespaces ns-001 to ns-100 with the apps numbered 1 to 10 each:
  -- it may be run again on a cluster that an earlier run, or a part of one, filled.
  pub populate_cluster_complete :
      (S : IsAppServer C)
      → ((n : String) (w : World) → There C (C.create_namespace n w).0)
      → ((a : App) (w : World) → There C (C.create_app a w).0)
      → (w : World)
      → ((populate_cluster C w).0 ≡ ok tt)
        × ((i j : ℕ)
            → 1 ≤ i
            → i ≤ 100
            → 1 ≤ j
            → j ≤ 10
            → S.has_namespace (populate_cluster C w).1 (namespace_name i)
              × S.has_app (populate_cluster C w).1 (app i j))
  populate_cluster_complete S g h w =
      let e = populate_cluster-ok g h w in
      (e, λ i j a b c d. populate_cluster-has C S w i j e a b c d)
