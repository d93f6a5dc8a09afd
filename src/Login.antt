-- ===== src/Login.antt =====
-- oidc-login-plugin/main.go: what the parts of the plugin share. The OAuth2 and OIDC libraries, the
-- cf configuration and the TLS certificates are parameters, `Services`.
pub mod Flags
pub mod Callback
pub mod Run
pub mod Serving
pub mod Completion
use auth_explore.Base.{String, Bool, List}
use auth_explore.Base.Exec.{Exec}

-- `oauth2.SetAuthURLParam(key, value)`
pub record AuthParam : Type 0 where
  pub key : String
  pub value : String

abbrev pub example_app_state : String
example_app_state = "I wish to wash my irish wristwatch"

-- The data of a `callbackHandler`. Its verifier is never called; the provider and the HTTP client
-- are passed on to the libraries, and stand in `Services`.
pub record CallbackHandler : Type 0 where
  pub client_id : String
  pub client_secret : String
  pub redirect_uri : String
  pub code_verifier : String
  pub use_implicit : Bool

-- `oauth2.Config`, but for the endpoint, which is the provider's.
pub record OauthConfig : Type 0 where
  pub client_id : String
  pub client_secret : String
  pub scopes : List String
  pub redirect_url : String

unfoldable pub oauth2_config : CallbackHandler → List String → OauthConfig
oauth2_config h scopes = record {
  client_id = h.client_id;
  client_secret = h.client_secret;
  scopes = scopes;
  redirect_url = h.redirect_uri;
}
