-- ===== src/Login/Run.antt =====
-- `Run` and `httpClientForRootCAs` of oidc-login-plugin/main.go, up to the point where
-- the server listens. What the libraries give is `Setup`.
pub mod Pkce
pub mod Given
pub mod Stopping
use auth_explore.Base.{
  ℕ, String, Bool, true, false, ◌&&◌, not, Option, none, some, List, [], ◌∷◌, ◌++◌, ◌==◌,
  if◌then◌else◌,
}
use auth_explore.Base.Exec.{Result, ok, err}
use auth_explore.Login.{AuthParam, example_app_state, CallbackHandler, OauthConfig, oauth2_config}
use auth_explore.Login.Flags.{Flags, defaults, parse_flags}

-- `url.URL`, of which the host and the path are read.
pub record Url : Type 0 where
  pub host : String
  pub path : String

pub data Failure : Type 0 where
  parse_redirect_uri : String → Failure
  parse_listen_address : String → Failure
  read_root_ca : String → Failure
  no_certs : String → Failure
  query_provider : String → String → Failure

pub record Setup : Type 1 where
  pub Pool : Type 0
  pub HttpClient : Type 0
  pub Provider : Type 0
  pub parse_url : String → Result String Url
  pub read_file : String → Result String String
  -- `AppendCertsFromPEM` on an empty pool, `none` where it adds no certificate
  pub certs_from_pem : String → Option Pool
  pub client_with_roots : Pool → HttpClient
  pub default_client : HttpClient
  pub new_provider : HttpClient → String → Result String Provider
  -- `CreateCodeVerifier`, whose error is ignored
  pub code_verifier : String
  pub code_challenge : String → String

-- The options of the authorization URL.
unfoldable pub challenge_params : Flags → String → String → List AuthParam
challenge_params f verifier challenge =
    if not f.implicit && f.client_secret == ""
    then record { key = "code_challenge"; value = challenge }
      ∷ record { key = "code_challenge_method"; value = "S256" }
      ∷ []
    else []

unfoldable pub implicit_params : Flags → String → List AuthParam
implicit_params f verifier =
    if f.implicit
    then record { key = "response_type"; value = "id_token" }
      ∷ record { key = "nonce"; value = verifier }
      ∷ []
    else []

unfoldable pub auth_params : Flags → String → String → List AuthParam
unfolding challenge_params implicit_params
auth_params f verifier challenge =
    challenge_params f verifier challenge ++ implicit_params f verifier

unfoldable pub handler_of : Flags → String → CallbackHandler
handler_of f verifier = record {
  client_id = f.client_id;
  client_secret = f.client_secret;
  redirect_uri = f.redirect_uri;
  code_verifier = verifier;
  use_implicit = f.implicit;
}

abbrev pub scopes : List String
scopes = "openid" ∷ "profile" ∷ "email" ∷ []

module _ (U : Setup) where
  open U use {Pool, HttpClient, Provider}

  -- The server as it is about to listen, and the URL that the user is asked to open.
  pub record Listening : Type 0 where
    pub handler : CallbackHandler
    pub provider : Provider
    pub http_client : HttpClient
    pub address : String
    pub callback_path : String
    pub auth_config : OauthConfig
    pub auth_state : String
    pub auth_options : List AuthParam

  pub data Outcome : Type 0 where
    ignored : Outcome
    fatal : Failure → Outcome
    -- the panic of `HandleFunc` on an empty path
    no_callback_path : Outcome
    listening : Listening → Outcome

  unfoldable pub http_client_for_root_cas : String → Result Failure HttpClient
  http_client_for_root_cas path = elim (U.read_file path) [
    | err e ↦ err (read_root_ca e)
    | ok bytes ↦ elim (U.certs_from_pem bytes) [
      | none ↦ err (no_certs path)
      | some pool ↦ ok (U.client_with_roots pool)
    ]
  ]

  unfoldable pub choose_client : String → Result Failure HttpClient
  unfolding http_client_for_root_cas
  choose_client path = if path == "" then ok U.default_client else http_client_for_root_cas path

  -- From the query of the provider on.
  unfoldable pub listen_with : Flags → Url → Url → HttpClient → Outcome
  unfolding handler_of auth_params oauth2_config
  listen_with f redirect listen client = elim (U.new_provider client f.issuer) [
    | err e ↦ fatal (query_provider f.issuer e)
    | ok provider ↦
        let h = handler_of f U.code_verifier in
        let server : Listening = record {
          handler = h;
          provider = provider;
          http_client = client;
          address = listen.host;
          callback_path = redirect.path;
          auth_config = oauth2_config h scopes;
          auth_state = example_app_state;
          auth_options = auth_params f U.code_verifier (U.code_challenge U.code_verifier);
        } in
        if redirect.path == "" then no_callback_path else listening server
  ]

  unfoldable pub start : Flags → Outcome
  unfolding choose_client listen_with
  start f = elim (U.parse_url f.redirect_uri) [
    | err e ↦ fatal (parse_redirect_uri e)
    | ok redirect ↦ elim (U.parse_url f.listen) [
      | err e ↦ fatal (parse_listen_address e)
      | ok listen ↦ elim (choose_client f.issuer_root_ca) [
        | err failure ↦ fatal failure
        | ok client ↦ listen_with f redirect listen client
      ]
    ]
  ]

  -- `none` is the panic of `args[0]` without arguments.
  unfoldable pub run : List String → Option Outcome
  unfolding start
  run [] = none
  run (command ∷ args) =
      if command == "oidc-login" then some (start (parse_flags args defaults)) else some ignored
