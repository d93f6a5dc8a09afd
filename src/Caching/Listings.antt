-- ===== src/Caching/Listings.antt =====
-- What `performListings` of caching/main.go counts.
use mathlib.Core.Path.{subst}
use native.Mathlib.Decide.{dec_le}
use auth_explore.Base.{
  String, ◌≤◌, ◌<◌, inl, inr, ℕ, zero, suc, ◌+◌, ◌≡◌, refl, List, [], ◌∷◌, ◌++◌, length, arith,
}
use auth_explore.Base.Exec.{Result, ok, err, >>=-eq-ok, Result-cases}
use auth_explore.Kube.{ApiError}
use auth_explore.Caching.{
  App, AppClient, list_apps_failed, namespace_name, collect, perform_listings,
}

length-append : {A : Type 0} (xs ys : List A) → length (xs ++ ys) ≡ length xs + length ys
length-append [] ys = omega arith
length-append (x ∷ xs) ys = let rest = length-append xs ys in omega arith

module _ (C : AppClient) where
  open C use {World}

  -- How many apps the namespaces hold from the one numbered `i` on, where a namespace that cannot be
  -- listed counts for nothing.
  abbrev count : Result ApiError (List App) → ℕ
  count (ok l) = length l
  count (err e) = 0

  unfoldable pub total : ℕ → ℕ → World → ℕ
  total zero i w = 0
  total (suc rounds) i w = count (C.list_apps (namespace_name i) w).0 + total rounds (i + 1) w

  -- The namespace numbered `i` can be listed.
  abbrev pub Listable : ℕ → World → Type 0
  Listable i w = (l : List App) × ((C.list_apps (namespace_name i) w).0 ≡ ok l)

  collect-ok :
      ((n : String) (w : World) → (C.list_apps n w).1 ≡ w)
      → (rounds i : ℕ) (apps : List App) (w : World)
      → ((k : ℕ) → i ≤ k → k < i + rounds → Listable k w)
      → (l : List App) × (collect C rounds i apps w ≡ (ok l, w))
        × (length l ≡ length apps + total rounds i w)
  unfolding collect total
  collect-ok same zero i apps w h = (apps, refl, omega arith)
  collect-ok same (suc rounds) i apps w h =
      let (items, e) = h i (omega arith) (omega arith) in
      let (l, s, n) =
        collect-ok same rounds (i + 1) (apps ++ items) w
          (λ k le lt. h k (omega arith) (omega arith)) in
      let m = length-append apps items in rw (e, same) (l, s, omega arith)

  listed-failed :
      (rounds i : ℕ) (apps : List App) (w : World) (e : ApiError)
      → (C.list_apps (namespace_name i) w).0 ≡ err e
      → (collect C (suc rounds) i apps w).0 ≡ err (list_apps_failed e)
  unfolding collect
  listed-failed rounds i apps w e h = rw h refl

  collect-Listable :
      ((n : String) (w : World) → (C.list_apps n w).1 ≡ w)
      → (rounds i : ℕ) (apps l : List App) (w : World) → (collect C rounds i apps w).0 ≡ ok l
      → (k : ℕ) → i ≤ k
      → k < i + rounds
      → Listable k w
  unfolding collect
  collect-Listable same zero i apps l w h k le lt = absurd (omega arith)
  collect-Listable same (suc rounds) i apps l w h k le lt =
      elim (Result-cases (C.list_apps (namespace_name i) w).0) [
        | inr (x, e) ↦ absurd (cc (listed-failed rounds i apps w x e, h))
        | inl (items, e) ↦ elim (dec_le (i + 1) k) [
          | yes p ↦
              collect-Listable same rounds (i + 1) (apps ++ items) l w (rw (e, same, collect) at h)
                k p (omega arith)
          | no p ↦ let here : i ≡ k = omega arith in subst (λ (j : ℕ). Listable j w) here (items, e)
        ]
      ]

  -- Where the lists change nothing and each of the hundred namespaces can be listed, `performListings`
  -- returns no error and counts the apps of all of them.
  pub perform_listings-total :
      ((n : String) (w : World) → (C.list_apps n w).1 ≡ w)
      → (w : World) → ((i : ℕ) → 1 ≤ i → i ≤ 100 → Listable i w)
      → perform_listings C w ≡ (ok (total 100 1 w), w)
  unfolding perform_listings
  perform_listings-total same w h =
      let (l, s, n) = collect-ok same 100 1 [] w (λ k le lt. h k le (omega arith)) in
      let sum : length l ≡ total 100 1 w = omega arith in rw (s, sum) refl

  -- Where the lists change nothing, a `performListings` without an error has listed each of the
  -- hundred namespaces.
  pub perform_listings-Listable :
      ((n : String) (w : World) → (C.list_apps n w).1 ≡ w)
      → (w : World) (n i : ℕ) → (perform_listings C w).0 ≡ ok n
      → 1 ≤ i
      → i ≤ 100
      → Listable i w
  unfolding perform_listings
  perform_listings-Listable same w n i h from to =
      let (l, e, _, _) = >>=-eq-ok (collect C 100 1 []) _ w h in
      collect-Listable same 100 1 [] l w e i from (omega arith)
