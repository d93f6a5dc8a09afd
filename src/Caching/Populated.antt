-- ===== src/Caching/Populated.antt =====
-- What `populateCluster` of caching/main.go leaves in a cluster.
use auth_explore.Base.{ℕ, zero, suc, ◌+◌, ◌≤◌, ◌<◌, String, ◌≡◌, refl, ◌⊎◌, inl, inr, arith}
use mathlib.Core.Path.{subst}
use native.Mathlib.Decide.{dec_le}
use auth_explore.Base.Exec.{Result, ok, err, settle, >>=-eq-ok}
use auth_explore.Kube.{ApiError, not_found, already_exists, other}
use auth_explore.Caching.{
  App, AppClient, Error, create_namespace_failed, create_app_failed, namespace_name, app, tolerate,
  create_apps, populate, populate_cluster,
}

-- What the program relies on of the API server: an object whose create succeeds, or fails since it is
-- there, is there afterwards, and a create takes nothing away.
module _ (C : AppClient) where
  open C use {World}

  abbrev pub There : Result ApiError Unit → Type 0
  There r = (r ≡ ok tt) ⊎ (r ≡ err already_exists)

  pub record IsAppServer : Type 1 where
    pub has_namespace : World → String → Type 0
    pub has_app : World → App → Type 0
    pub create_namespace_has :
        (n : String) (w : World)
        → There (C.create_namespace n w).0
        → has_namespace (C.create_namespace n w).1 n
    pub create_app_has :
        (a : App) (w : World) → There (C.create_app a w).0 → has_app (C.create_app a w).1 a
    pub create_namespace_namespaces :
        (n m : String) (w : World) → has_namespace w m → has_namespace (C.create_namespace n w).1 m
    pub create_namespace_apps :
        (n : String) (a : App) (w : World) → has_app w a → has_app (C.create_namespace n w).1 a
    pub create_app_namespaces :
        (a : App) (m : String) (w : World)
        → has_namespace w m
        → has_namespace (C.create_app a w).1 m
    pub create_app_apps : (a b : App) (w : World) → has_app w b → has_app (C.create_app a w).1 b

tolerate-There :
    (fail : ApiError → Error) (r : Result ApiError Unit)
    → tolerate fail r ≡ ok tt
    → (r ≡ ok tt) ⊎ (r ≡ err already_exists)
tolerate-There fail (ok a) h = inl refl
tolerate-There fail (err already_exists) h = inr refl
tolerate-There fail (err not_found) h = absurd (cc h)
tolerate-There fail (err (other s)) h = absurd (cc h)

module _ (C : AppClient) (S : IsAppServer C) where
  open C use {World}
  open S use {has_namespace, has_app}

  -- Nothing that was there is gone.
  record Grows (w w' : World) : Type 0 where
    namespaces : (m : String) → has_namespace w m → has_namespace w' m
    apps : (a : App) → has_app w a → has_app w' a

  Grows-trans : {u v w : World} → Grows u v → Grows v w → Grows u w
  Grows-trans g h = record {
    namespaces = λ m p. h.namespaces m (g.namespaces m p);
    apps = λ a p. h.apps a (g.apps a p);
  }

  abbrev one_app : ℕ → ℕ → World → Result Error Unit × World
  one_app i j = settle (tolerate create_app_failed) (C.create_app (app i j))

  abbrev one_namespace : ℕ → World → Result Error Unit × World
  one_namespace i =
      settle (tolerate create_namespace_failed) (C.create_namespace (namespace_name i))

  create_app-Grows : (a : App) (w : World) → Grows w (C.create_app a w).1
  create_app-Grows a w = record {
    namespaces = λ m. S.create_app_namespaces a m w;
    apps = λ b. S.create_app_apps a b w;
  }

  create_apps-has :
      (rounds i j : ℕ) (w : World)
      → (create_apps C rounds i j w).0 ≡ ok tt
      → Grows w (create_apps C rounds i j w).1
        × ((k : ℕ) → j ≤ k → k < j + rounds → has_app (create_apps C rounds i j w).1 (app i k))
  unfolding create_apps
  create_apps-has zero i j w h =
      (record { namespaces = λ m p. p; apps = λ a p. p }, λ k le lt. absurd (omega arith))
  create_apps-has (suc rounds) i j w h =
      let (_, e, h', s) = >>=-eq-ok (one_app i j) _ w h in
      let there = tolerate-There create_app_failed (C.create_app (app i j) w).0 e in
      let here = S.create_app_has (app i j) w there in
      let (grows, rest) = create_apps-has rounds i (j + 1) (one_app i j w).1 h' in
      let w' = (create_apps C rounds i (j + 1) (one_app i j w).1).1 in
      rw s (
        Grows-trans (create_app-Grows (app i j) w) grows,
        λ k le lt. elim (dec_le (j + 1) k) [
          | yes p ↦ rest k p (omega arith)
          | no p ↦
              let same : j ≡ k = omega arith in
              subst (λ x. has_app w' (app i x)) same (grows.apps (app i j) here)
        ],
      )

  -- What is there of the namespaces from `i` on, and of their apps.
  record Filled (w : World) (i rounds : ℕ) : Type 0 where
    namespaces : (k : ℕ) → i ≤ k → k < i + rounds → has_namespace w (namespace_name k)
    apps : (k j : ℕ) → i ≤ k → k < i + rounds → 1 ≤ j → j ≤ 10 → has_app w (app k j)

  Filled-suc :
      (w : World) (i rounds : ℕ)
      → has_namespace w (namespace_name i)
      → ((j : ℕ) → 1 ≤ j → j ≤ 10 → has_app w (app i j))
      → Filled w (i + 1) rounds
      → Filled w i (suc rounds)
  Filled-suc w i rounds here apps rest = record {
    namespaces = λ k le lt. elim (dec_le (i + 1) k) [
      | yes p ↦ rest.namespaces k p (omega arith)
      | no p ↦
          let same : i ≡ k = omega arith in
          subst (λ x. has_namespace w (namespace_name x)) same here
    ];
    apps = λ k j le lt from to. elim (dec_le (i + 1) k) [
      | yes p ↦ rest.apps k j p (omega arith) from to
      | no p ↦
          let same : i ≡ k = omega arith in subst (λ x. has_app w (app x j)) same (apps j from to)
    ];
  }

  create_namespace-Grows : (n : String) (w : World) → Grows w (C.create_namespace n w).1
  create_namespace-Grows n w = record {
    namespaces = λ m. S.create_namespace_namespaces n m w;
    apps = λ a. S.create_namespace_apps n a w;
  }

  populate-Filled :
      (rounds i : ℕ) (w : World)
      → (populate C rounds i w).0 ≡ ok tt
      → Grows w (populate C rounds i w).1 × Filled (populate C rounds i w).1 i rounds
  unfolding populate
  populate-Filled zero i w h = (
    record { namespaces = λ m p. p; apps = λ a p. p },
    record {
      namespaces = λ k le lt. absurd (omega arith);
      apps = λ k j le lt _ _. absurd (omega arith);
    },
  )
  populate-Filled (suc rounds) i w h =
      let (_, e, h', s) = >>=-eq-ok (one_namespace i) _ w h in
      let w₁ = (one_namespace i w).1 in
      let (_, e', h'', s') = >>=-eq-ok (create_apps C 10 i 1) _ w₁ h' in
      let w₂ = (create_apps C 10 i 1 w₁).1 in
      let w₃ = (populate C rounds (i + 1) w₂).1 in
      let there =
        S.create_namespace_has (namespace_name i) w
          (tolerate-There create_namespace_failed (C.create_namespace (namespace_name i) w).0 e) in
      let (grows₁, apps) = create_apps-has 10 i 1 w₁ e' in
      let (grows₂, rest) = populate-Filled rounds (i + 1) w₂ h'' in
      rw (s, s')
        (
          Grows-trans (create_namespace-Grows (namespace_name i) w) (Grows-trans grows₁ grows₂),
          Filled-suc w₃ i rounds
              (grows₂.namespaces (namespace_name i) (grows₁.namespaces (namespace_name i) there))
              (λ j from to. grows₂.apps (app i j) (apps j from (omega arith))) rest,
        )

  -- A run of `populateCluster` with no error has left, for every i from 1 to 100, the namespace
  -- numbered i, and in it, for every j from 1 to 10, the app numbered i and j, whatever was there
  -- before.
  pub populate_cluster-has :
      (w : World) (i j : ℕ)
      → (populate_cluster C w).0 ≡ ok tt
      → 1 ≤ i
      → i ≤ 100
      → 1 ≤ j
      → j ≤ 10
      → has_namespace (populate_cluster C w).1 (namespace_name i)
        × has_app (populate_cluster C w).1 (app i j)
  unfolding populate_cluster
  populate_cluster-has w i j h i₁ i₂ j₁ j₂ =
      let (_, filled) = populate-Filled 100 1 w h in
      (filled.namespaces i i₁ (omega arith), filled.apps i j i₁ (omega arith) j₁ j₂)
