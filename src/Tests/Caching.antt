-- ===== src/Tests/Caching.antt =====
-- Runs of the caching program's functions.
use auth_explore.Base.{
  ℕ, ◌≤◌, String, ◌≡◌, refl, inl, inr, Bool, true, false, ◌&&◌, ◌||◌, List, [], ◌∷◌, arith, ◌==◌,
  contains, if◌then◌else◌, Bool-cases, eq_self,
}
use auth_explore.Base.Exec.{ok, err}
use auth_explore.Kube.{already_exists}
use auth_explore.Caching.{
  App, AppClient, namespace_name, app, populate_cluster, three_digits, app_name,
}
use auth_explore.Caching.Populated.{There, IsAppServer}
use auth_explore.Caching.{perform_listings}
use auth_explore.Caching.Listings.{total, perform_listings-total}
use auth_explore.Caching.Completion.{populate_cluster_complete}

abbrev Cell : Type 0
Cell = List String × List App

abbrev same : App → App → Bool
same a b = a.namespace == b.namespace && a.name == b.name

abbrev has : App → List App → Bool
has a [] = false
has a (b ∷ bs) = same a b || has a bs

abbrev of_namespace : String → List App → List App
of_namespace n [] = []
of_namespace n (a ∷ l) = if a.namespace == n then a ∷ of_namespace n l else of_namespace n l

abbrev cell : AppClient
cell = record {
  World = Cell;
  create_namespace =
      λ n w. if contains w.0 n then (err already_exists, w) else (ok tt, (n ∷ w.0, w.1));
  create_app = λ a w. if has a w.1 then (err already_exists, w) else (ok tt, (w.0, a ∷ w.1));
  list_apps = λ n w. (ok (of_namespace n w.1), w);
}

same_self : (a : App) → same a a ≡ true
same_self a = rw (eq_self a.namespace, eq_self a.name)

contains_cons : (n m : String) (l : List String) → contains l m ≡ true → contains (n ∷ l) m ≡ true
contains_cons n m l h = rw h (ground arith)

has_cons : (a b : App) (l : List App) → has b l ≡ true → has b (a ∷ l) ≡ true
has_cons a b l h = rw h (ground arith)

namespace-There : (n : String) (w : Cell) → There cell (cell.create_namespace n w).0
namespace-There n w = elim (Bool-cases (contains w.0 n)) [
  | inl e ↦ rw e (inr refl)
  | inr e ↦ rw e (inl refl)
]

app-There : (a : App) (w : Cell) → There cell (cell.create_app a w).0
app-There a w = elim (Bool-cases (has a w.1)) [ inl e ↦ rw e (inr refl) | inr e ↦ rw e (inl refl) ]

abbrev cell-IsAppServer : IsAppServer cell
cell-IsAppServer = record {
  has_namespace = λ w n. contains w.0 n ≡ true;
  has_app = λ w a. has a w.1 ≡ true;
  create_namespace_has = λ n w _. elim (Bool-cases (contains w.0 n)) [
    | inl e ↦ rw (e, e) refl
    | inr e ↦ rw (e, eq_self n) refl
  ];
  create_app_has = λ a w _. elim (Bool-cases (has a w.1)) [
    | inl e ↦ rw (e, e) refl
    | inr e ↦ rw (e, same_self a) refl
  ];
  create_namespace_namespaces = λ n m w h. elim (Bool-cases (contains w.0 n)) [
    | inl e ↦ rw (e, h) refl
    | inr e ↦ rw e (contains_cons n m w.0 h)
  ];
  create_namespace_apps = λ n a w h. elim (Bool-cases (contains w.0 n)) [
    | inl e ↦ rw (e, h) refl
    | inr e ↦ rw (e, h) refl
  ];
  create_app_namespaces =
      λ a m w h. elim (Bool-cases (has a w.1)) [ inl e ↦ rw (e, h) refl | inr e ↦ rw (e, h) refl ];
  create_app_apps = λ a b w h. elim (Bool-cases (has a w.1)) [
    | inl e ↦ rw (e, h) refl
    | inr e ↦ rw e (has_cons a b w.1 h)
  ];
}

-- A cluster in which one of the namespaces and one of its apps are there already.
abbrev partly_filled : Cell
partly_filled = (namespace_name 7 ∷ [], app 7 3 ∷ [])

populate_cluster_complete_example :
    ((populate_cluster cell partly_filled).0 ≡ ok tt)
    × ((i j : ℕ)
        → 1 ≤ i
        → i ≤ 100
        → 1 ≤ j
        → j ≤ 10
        → (contains (populate_cluster cell partly_filled).1.0 (namespace_name i) ≡ true)
          × (has (app i j) (populate_cluster cell partly_filled).1.1 ≡ true))
populate_cluster_complete_example =
    populate_cluster_complete cell cell-IsAppServer namespace-There app-There partly_filled

app_12_10 : app_name 12 10 ≡ "app-012-010"
unfolding app_name three_digits
app_12_10 = refl

perform_listings-total_example :
    perform_listings cell partly_filled ≡ (ok (total cell 100 1 partly_filled), partly_filled)
perform_listings-total_example =
    perform_listings-total cell (λ n w. refl) partly_filled
      (λ i _ _. (of_namespace (namespace_name i) partly_filled.1, refl))
