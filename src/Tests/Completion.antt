-- ===== src/Tests/Completion.antt =====
-- A login from the command line to the saved token, with a provider that checks the verifier.
use mathlib.Core.Option.{some-injective}
use auth_explore.Base.{
  String, ◌<>◌, ◌≡◌, refl, Bool, true, false, ◌&&◌, Option, none, some, [], ◌∷◌, ◌==◌, eq_iff,
  arith, ◌≢◌,
}
use auth_explore.Base.Exec.{Result, ok, err}
use auth_explore.Login.{example_app_state}
use auth_explore.Login.Callback.{Services}
use auth_explore.Login.Run.Pkce.{param, challenged}
use auth_explore.Login.Completion.{IsHonest, Redirect, LoggedIn, run-LoggedIn}
use auth_explore.Tests.Login.{setup, argv, server, listens, by_code}

abbrev fits : Option String → Bool
fits none = false
fits (some v) = "s256:verifier" == ("s256:" <> v)

abbrev answer : Bool → Result String (Option String)
answer true = ok (some "jwt")
answer false = err "invalid grant"

abbrev provider : Services
provider = record {
  World = String;
  Token = Option String;
  Config = String;
  exchange =
      λ config code options w. (answer (code == "good" && fits (param "code_verifier" options)), w);
  id_token = λ token. token;
  load_config = λ w. (ok w, w);
  set_access_token = λ token config. token;
  write_config = λ config w. (ok tt, config);
}

fits_challenge :
    (o : Option String) → some "s256:verifier" ≡ challenged setup.code_challenge o → fits o ≡ true
fits_challenge none e = absurd (cc e)
fits_challenge (some v) e = (eq_iff "s256:verifier" ("s256:" <> v)).1 (some-injective _ _ e)

provider-IsHonest : IsHonest setup provider server "good" "old"
provider-IsHonest = record {
  redeems = λ config options same same' same'' challenge.
      (some "jwt", "jwt", rw (fits_challenge (param "code_verifier" options) challenge) refl, refl);
  loads = λ w. (w, refl);
  writes = λ config w. refl;
}

some_good : ◌≢◌ {A = String} "good" ""
some_good = ground (arith, eq_iff "good" "")

sent_back : Redirect setup provider by_code "good" example_app_state
sent_back = record {
  form = ("code", "good" ∷ []) ∷ ("state", example_app_state ∷ []) ∷ [];
  is_get = refl;
  parsed = refl;
  no_error = refl;
  no_token = refl;
  its_code = refl;
  its_state = refl;
  some_code = some_good;
}

run-LoggedIn_example : LoggedIn setup provider server.handler by_code "good" "old"
run-LoggedIn_example =
    run-LoggedIn setup provider argv server by_code "good" "old" listens provider-IsHonest sent_back
