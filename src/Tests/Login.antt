-- ===== src/Tests/Login.antt =====
-- Runs of the login plugin.
use auth_explore.Base.{
  String, ◌<>◌, ◌≡◌, refl, ◌≢◌, false, Option, none, some, List, [], ◌∷◌, ◌++◌, arith, ◌==◌, eq_iff,
  if◌then◌else◌,
}
use auth_explore.Base.Exec.{ok, err}
use auth_explore.Login.{example_app_state, CallbackHandler}
use auth_explore.Login.Flags.{Flags, defaults, parse_flags}
use auth_explore.Login.Callback.{
  HttpRequest, success, http_error, Services, wrong_state, bad_request, form_value, save_token,
  serve_http, exchange_code, exchange_params,
}
use auth_explore.Login.Callback.Passing.{Passed, serve_http-Passed}
use auth_explore.Login.Callback.Refusals.{serve_http-early}
use auth_explore.Login.Callback.Implicit.{serve_http-implicit}
use auth_explore.Login.Run.{Setup, Listening, listening, run}
use auth_explore.Login.Run.Given.{given, parse_flags-given}
use auth_explore.Login.Run.Stopping.{separate, joined, implicit_flag, issuer_flag, Setting}
use auth_explore.Login.Run.Pkce.{param, challenged, challenge_method, run-agrees}

-- A provider that knows one code; the world is the access token of the configuration.
abbrev pub services : Services
services = record {
  World = String;
  Token = Option String;
  Config = String;
  exchange =
      λ config code options w. (if code == "good" then ok (some "jwt") else err "unknown code", w);
  id_token = λ token. token;
  load_config = λ w. (ok w, w);
  set_access_token = λ token config. token;
  write_config = λ config w. (ok tt, config);
}

abbrev pub handler : CallbackHandler
handler = record {
  client_id = "id";
  client_secret = "";
  redirect_uri = "http://127.0.0.1:5555/callback";
  code_verifier = "verifier";
  use_implicit = false;
}

abbrev pub get : List (String × List String) → HttpRequest
get form = record { method = "GET"; form = ok form }

abbrev pub by_code : HttpRequest
by_code = get (("code", "good" ∷ []) ∷ ("state", example_app_state ∷ []) ∷ [])

by_code_succeeds : (serve_http services handler by_code "old").0 ≡ success
unfolding serve_http exchange_code save_token
by_code_succeeds = refl

serve_http-Passed_example : Passed services handler by_code "old"
serve_http-Passed_example = serve_http-Passed services handler by_code "old" by_code_succeeds

abbrev forged : HttpRequest
forged = get (("code", "good" ∷ []) ∷ ("state", "other" ∷ []) ∷ [])

forged_fails :
    (serve_http services handler forged "old").0 ≡ http_error (wrong_state "other") bad_request
unfolding serve_http exchange_code save_token
forged_fails = refl

serve_http-early_example :
    (bad_request ≡ bad_request) × ((serve_http services handler forged "old").1 ≡ "old")
serve_http-early_example =
    serve_http-early services handler forged "old" (wrong_state "other") bad_request forged_fails
      refl

-- A form with an ID token and the state of nobody.
abbrev injected : List (String × List String)
injected = ("id_token", "evil" ∷ []) ∷ ("state", "other" ∷ []) ∷ []

evil_not_empty : form_value "id_token" injected ≢ ""
evil_not_empty = ground (arith, eq_iff "evil" "")

serve_http-implicit_example :
    serve_http services handler (get injected) "old" ≡ (success, "bearer evil")
serve_http-implicit_example =
    serve_http-implicit services handler (get injected) injected "old" "old" refl refl refl
      evil_not_empty refl refl

abbrev pub setup : Setup
setup = record {
  Pool = String;
  HttpClient = String;
  Provider = String;
  parse_url = λ s. ok (record { host = "127.0.0.1:5555"; path = "/callback" });
  read_file = λ s. err "no such file";
  certs_from_pem = λ s. none;
  client_with_roots = λ pool. pool;
  default_client = "default";
  new_provider = λ client issuer. ok issuer;
  code_verifier = "verifier";
  code_challenge = λ v. "s256:" <> v;
}

abbrev pub argv : List String
argv = "oidc-login" ∷ "--client-id" ∷ "me" ∷ "-issuer=https://dex" ∷ []

parsed :
    parse_flags
      ("--client-id" ∷ "me" ∷ "-issuer=https://dex" ∷ "-implicit=maybe" ∷ "-listen" ∷ "x" ∷ [])
      defaults
    ≡ record defaults { client_id = "me"; issuer = "https://dex" }
unfolding parse_flags
parsed = refl

abbrev pub server : Listening setup
server = record {
  handler = record {
    client_id = "me";
    client_secret = "";
    redirect_uri = "http://127.0.0.1:5555/callback";
    code_verifier = "verifier";
    use_implicit = false;
  };
  provider = "https://dex";
  http_client = "default";
  address = "127.0.0.1:5555";
  callback_path = "/callback";
  auth_config = record {
    client_id = "me";
    client_secret = "";
    scopes = "openid" ∷ "profile" ∷ "email" ∷ [];
    redirect_url = "http://127.0.0.1:5555/callback";
  };
  auth_state = example_app_state;
  auth_options =
      record { key = "code_challenge"; value = "s256:verifier" }
      ∷ record { key = "code_challenge_method"; value = "S256" }
      ∷ [];
}

pub listens : run setup argv ≡ some (listening server)
unfolding run parse_flags
listens = refl

run-agrees_example :
    (param "code_challenge" server.auth_options
      ≡ challenged setup.code_challenge (param "code_verifier" (exchange_params server.handler)))
    × (param "code_challenge_method" server.auth_options
        ≡ challenge_method (param "code_challenge" server.auth_options))
    × (example_app_state ≡ example_app_state)
run-agrees_example = run-agrees setup argv server listens

abbrev secretive : Flags
secretive = record defaults {
  client_secret = "-implicit";
  implicit = false;
  issuer = "https://dex";
}

parse_flags-given_example :
    parse_flags (given secretive ++ "-implicit" ∷ []) defaults
    ≡ parse_flags ("-implicit" ∷ []) secretive
parse_flags-given_example = parse_flags-given secretive defaults ("-implicit" ∷ [])

-- A flag twice, in two spellings, and a misspelt flag with one behind it that is lost.
abbrev settings : List Setting
settings =
    separate issuer_flag "https://a" ∷ implicit_flag ∷ joined issuer_flag "https://dex=1" ∷ []
