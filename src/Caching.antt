-- ===== src/Caching.antt =====
-- caching/main.go: `populateCluster` and `performListings`. The client is a parameter; logging and the
-- printed times are left out.
pub mod Populated
pub mod Completion
pub mod Listings
pub mod Main
use Prim.Native.Char.{Char}
use auth_explore.Base.{ℕ, zero, suc, ◌+◌, String, ◌<>◌, List, [], ◌∷◌, ◌++◌, length}
use Prim.Native.Nat.{◌/◌, ◌%◌}
use auth_explore.Base.Exec.{Result, ok, err, Exec, pure, settle, ◌>>=◌, ◌>>◌}
use auth_explore.Kube.{ApiError, already_exists}

-- A `CFApp` with the fields that are set.
pub record App : Type 0 where
  pub namespace : String
  pub name : String
  pub spec_name : String
  pub desired_state : String
  pub lifecycle_type : String

pub record AppClient : Type 1 where
  pub World : Type 0
  pub create_namespace : String → Exec World ApiError Unit
  pub create_app : App → Exec World ApiError Unit
  pub list_apps : String → Exec World ApiError (List App)

pub data Error : Type 0 where
  create_namespace_failed create_app_failed list_apps_failed : ApiError → Error

abbrev digit : ℕ → String
digit zero = "0"
digit (suc zero) = "1"
digit (suc (suc zero)) = "2"
digit (suc (suc (suc zero))) = "3"
digit (suc (suc (suc (suc zero)))) = "4"
digit (suc (suc (suc (suc (suc zero))))) = "5"
digit (suc (suc (suc (suc (suc (suc zero)))))) = "6"
digit (suc (suc (suc (suc (suc (suc (suc zero))))))) = "7"
digit (suc (suc (suc (suc (suc (suc (suc (suc zero)))))))) = "8"
digit (suc (suc (suc (suc (suc (suc (suc (suc (suc n))))))))) = "9"

-- `%03d` of a number below 1000, as the loops' numbers are.
unfoldable pub three_digits : ℕ → String
three_digits n = digit (n / 100) <> (digit (n / 10 % 10) <> digit (n % 10))

-- `fmt.Sprintf("ns-%03d", i)`
unfoldable pub namespace_name : ℕ → String
unfolding three_digits
namespace_name i = "ns-" <> three_digits i

-- `fmt.Sprintf("app-%03d-%03d", i, j)`
unfoldable pub app_name : ℕ → ℕ → String
unfolding three_digits
app_name i j = "app-" <> (three_digits i <> ("-" <> three_digits j))

unfoldable pub app : ℕ → ℕ → App
unfolding namespace_name app_name
app i j = record {
  namespace = namespace_name i;
  name = app_name i j;
  spec_name = "my-app";
  desired_state = "STOPPED";
  lifecycle_type = "buildpack";
}

-- An object that is there already is no error.
abbrev pub tolerate : (ApiError → Error) → Result ApiError Unit → Result Error Unit
tolerate fail (err already_exists) = ok tt
tolerate fail (err e) = err (fail e)
tolerate fail (ok a) = ok tt

module _ (C : AppClient) where
  open C use {World}

  -- The inner loop, with the rounds that are left.
  unfoldable pub create_apps : ℕ → ℕ → ℕ → Exec World Error Unit
  create_apps zero i j = pure tt
  create_apps (suc rounds) i j = do
    settle (tolerate create_app_failed) (C.create_app (app i j))
    create_apps rounds i (j + 1)

  unfoldable pub populate : ℕ → ℕ → Exec World Error Unit
  unfolding create_apps
  populate zero i = pure tt
  populate (suc rounds) i = do
    settle (tolerate create_namespace_failed) (C.create_namespace (namespace_name i))
    create_apps 10 i 1
    populate rounds (i + 1)

  unfoldable pub populate_cluster : Exec World Error Unit
  unfolding populate
  populate_cluster = populate 100 1

  abbrev listed : Result ApiError (List App) → Result Error (List App)
  listed (ok l) = ok l
  listed (err e) = err (list_apps_failed e)

  -- The loop, with the apps that have been collected.
  unfoldable pub collect : ℕ → ℕ → List App → Exec World Error (List App)
  collect zero i apps = pure apps
  collect (suc rounds) i apps = settle listed (C.list_apps (namespace_name i)) >>= λ items.
      collect rounds (i + 1) (apps ++ items)

  -- The number that is printed at the end.
  unfoldable pub perform_listings : Exec World Error ℕ
  unfolding collect
  perform_listings = collect 100 1 [] >>= λ apps. pure (length apps)
