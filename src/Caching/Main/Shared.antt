-- ===== src/Caching/Main/Shared.antt =====
-- The cache that caching/main.go shares between its two clients.
use auth_explore.Base.{
  ℕ, zero, suc, ◌+◌, String, ◌≡◌, refl, sym, ap, ◌∙◌, fun_ext, inl, inr, some, List, [], ◌∷◌,
}
use auth_explore.Base.Exec.{ok, Exec, ◌>>=◌, Result-cases}
use auth_explore.Base.Exit.{Exit, checked}
use auth_explore.Kube.{ApiError}
use auth_explore.Caching.{App, Error, namespace_name, collect, perform_listings}
use auth_explore.Caching.Main.{
  Experiment, Cause, listing_failed, app_client, list_twice, as_alice, list_as_alice,
}

module _ (X : Experiment) where
  open X use {World, Config, Cache, Cluster, Conn}

  -- What is documented of a cluster: its client lists what its cache holds, and a cache that
  -- `NewCache` gives is the one that it has.
  pub record IsCached : Type 0 where
    pub held : Cache → String → Exec World ApiError (List App)
    pub reads :
        (k : Cluster) (n : String) (w : World)
        → X.list_apps (X.get_client k) n w ≡ held (X.get_cache k) n w
    pub new_cluster_cache :
        (config : Config) (cache : Cache) (w : World) (k : Cluster)
        → (X.new_cluster config (some cache) w).0 ≡ ok k
        → X.get_cache k ≡ cache

module _ (X : Experiment) (S : IsCached X) where
  open X use {World, Config, Cache, Cluster, Conn}
  open S use {held}

  collect-shared :
      (a b : Conn)
      → ((n : String) (w : World) → X.list_apps a n w ≡ X.list_apps b n w)
      → (rounds i : ℕ) (apps : List App) (w : World)
      → collect (app_client X a) rounds i apps w ≡ collect (app_client X b) rounds i apps w
  unfolding collect
  collect-shared a b same zero i apps w = refl
  collect-shared a b same (suc rounds) i apps w =
      elim (Result-cases (X.list_apps b (namespace_name i) w).0) [
        | inl (items, e) ↦
            rw (same (namespace_name i) w, e) (collect-shared a b same rounds (i + 1) _ _)
        | inr (x, e) ↦ rw (same (namespace_name i) w, e) refl
      ]

  perform_listings-shared :
      (a b : Conn)
      → ((n : String) (w : World) → X.list_apps a n w ≡ X.list_apps b n w)
      → (w : World) → perform_listings (app_client X a) w ≡ perform_listings (app_client X b) w
  unfolding perform_listings
  perform_listings-shared a b same w = rw (collect-shared a b same 100 1 [] w) refl

  -- `list_twice` for any listing.
  abbrev twice : Exec World Error ℕ → ℕ → Exec World (Exit Cause) (List ℕ)
  twice m printed =
      let listing = checked "failed to perform listing" listing_failed m in
      listing >>= λ n. listing >>= λ k w. (ok (printed ∷ n ∷ k ∷ []), X.write_profile w)

  list_twice-shared :
      (a b : Conn) (printed : ℕ) (w : World)
      → ((n : String) (w : World) → X.list_apps a n w ≡ X.list_apps b n w)
      → list_twice X a printed w ≡ list_twice X b printed w
  unfolding list_twice
  list_twice-shared a b printed w same =
      ap (λ (m : Exec World Error ℕ). twice m printed w)
        (fun_ext (perform_listings-shared a b same))

  -- The listings as alice answer what the client of the first cluster would answer, and do to the
  -- world what it would do: once the cluster for alice is made, nothing depends on the user. It is
  -- supposed that the clients list what their caches hold.
  pub list_as_alice-own :
      (config : Config) (cluster : Cluster) (printed : ℕ) (w : World)
      → list_as_alice X config (X.get_cache cluster) printed w
        ≡ (as_alice X config (X.get_cache cluster) >>= λ _.
              list_twice X (X.get_client cluster) printed)
            w
  unfolding list_as_alice
  list_as_alice-own config cluster printed w =
      elim (Result-cases
        (X.new_cluster (X.impersonate "alice" config) (some (X.get_cache cluster)) w).0) [
          | inl (k, e) ↦
              let one = S.new_cluster_cache _ _ w k e in
              rw e (
                list_twice-shared (X.get_client k) (X.get_client cluster) printed _
                  (λ n w'. S.reads k n w' ∙ ap (λ c. held c n w') one ∙ sym (S.reads cluster n w')))
          | inr (x, e) ↦ rw e refl
        ]
