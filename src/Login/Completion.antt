-- ===== src/Login/Completion.antt =====
-- A whole login with the plugin of oidc-login-plugin/main.go: the authorization URL of `Run`, the
-- provider, and the request that it sends back.
use mathlib.Core.Path.{subst}
use auth_explore.Base.{
  String, ◌<>◌, ◌≡◌, refl, sym, ap, ◌∙◌, ◌≢◌, some, List, [], ◌∷◌, eq_iff, eq-of-ne,
}
use auth_explore.Base.Exec.{ok}
use auth_explore.Login.{AuthParam, example_app_state, CallbackHandler, OauthConfig, oauth2_config}
use auth_explore.Login.Callback.{
  Form, HttpRequest, success, Services, form_value, exchange_params, save_token, exchange_code,
  serve_form, serve_http,
}
use auth_explore.Login.Callback.Passing.{exchange_code-saves}
use auth_explore.Login.Run.{Setup, Listening, listening, handler_of, run}
use auth_explore.Login.Run.Pkce.{param, challenged, run-From, run-agrees}

module _ (U : Setup) (V : Services) where
  open V use {World, Token, Config}

  -- The code that the provider has issued for an authorization request can be redeemed by the same
  -- client, for the same redirect URI, with the verifier that fits the request's challenge; and the
  -- configuration can be loaded and written.
  pub record IsHonest (l : Listening U) (code : String) (w : World) : Type 0 where
    pub redeems :
        (config : OauthConfig) (options : List AuthParam)
        → config.client_id ≡ l.auth_config.client_id
        → config.client_secret ≡ l.auth_config.client_secret
        → config.redirect_url ≡ l.auth_config.redirect_url
        → param "code_challenge" l.auth_options
          ≡ challenged U.code_challenge (param "code_verifier" options)
        → (token : Token) × (raw : String) × ((V.exchange config code options w).0 ≡ ok token)
          × (V.id_token token ≡ some raw)
    pub loads : (w' : World) → (config : Config) × ((V.load_config w').0 ≡ ok config)
    pub writes : (config : Config) (w' : World) → (V.write_config config w').0 ≡ ok tt

  -- The redirect with a code and a state.
  pub record Redirect (r : HttpRequest) (code state : String) : Type 0 where
    pub form : Form
    pub is_get : r.method ≡ "GET"
    pub parsed : r.form ≡ ok form
    pub no_error : form_value "error" form ≡ ""
    pub no_token : form_value "id_token" form ≡ ""
    pub its_code : form_value "code" form ≡ code
    pub its_state : form_value "state" form ≡ state
    pub some_code : code ≢ ""

  -- The handler has exchanged the code, answered with success, and written the ID token into the
  -- configuration that it has loaded.
  pub record LoggedIn (h : CallbackHandler) (r : HttpRequest) (code : String) (w : World)
      : Type 0 where
    pub token : Token
    pub raw : String
    pub config : Config
    pub redeemed : (V.exchange (oauth2_config h []) code (exchange_params h) w).0 ≡ ok token
    pub its_token : V.id_token token ≡ some raw
    pub loaded :
        (V.load_config (V.exchange (oauth2_config h []) code (exchange_params h) w).1).0 ≡ ok config
    pub saved : serve_http V h r w ≡ (
      success,
      (V.write_config
          (V.set_access_token ("bearer " <> raw) config)
          (V.load_config (V.exchange (oauth2_config h []) code (exchange_params h) w).1).1).1,
    )

  serve_form-exchange_code :
      (h : CallbackHandler) (form : Form) (code : String) (w : World)
      → form_value "error" form ≡ ""
      → form_value "id_token" form ≡ ""
      → form_value "code" form ≡ code
      → form_value "state" form ≡ example_app_state
      → code ≢ ""
      → serve_form V h form w ≡ exchange_code V h code w
  unfolding serve_form
  serve_form-exchange_code h [] code w no_error no_token its_code its_state some_code =
      absurd (some_code (sym its_code))
  serve_form-exchange_code h (entry ∷ entries) code w no_error no_token its_code its_state
        some_code =
      let form : Form = entry ∷ entries in
      let e₁ = (eq_iff (form_value "error" form) "").1 no_error in
      let e₂ = (eq_iff (form_value "id_token" form) "").1 no_token in
      let e₃ = eq-of-ne (form_value "code" form) "" (λ p. some_code (sym its_code ∙ p)) in
      let e₄ = (eq_iff (form_value "state" form) example_app_state).1 its_state in
      rw (e₁, e₂, e₃, e₄) (ap (λ (c : String). exchange_code V h c w) its_code)

  serve_http-Redirect :
      (h : CallbackHandler) (r : HttpRequest) (code : String) (w : World)
      → Redirect r code example_app_state
      → serve_http V h r w ≡ exchange_code V h code w
  unfolding serve_http
  serve_http-Redirect h r code w x =
      rw ((eq_iff r.method "GET").1 x.is_get, x.parsed, serve_http)
        (serve_form-exchange_code h x.form code w x.no_error x.no_token x.its_code x.its_state
          x.some_code)

  save_token_succeeds :
      (l : Listening U) (code : String) (w w' : World) (raw : String)
      → (o : IsHonest l code w)
      → save_token V raw w' ≡ (
        success,
        (V.write_config
            (V.set_access_token ("bearer " <> raw) (o.loads w').0)
            (V.load_config w').1).1,
      )
  unfolding save_token
  save_token_succeeds l code w w' raw o =
      rw
        (
          (o.loads w').1,
          o.writes (V.set_access_token ("bearer " <> raw) (o.loads w').0) _,
          save_token,
        )
        refl

  -- When the command listens, and the provider sends its user back with the code that it has issued
  -- for the authorization URL and with the URL's state, the login comes to its end: the handler
  -- answers with success, and the ID token for which the code is exchanged is the access token of the
  -- configuration. The provider has to honour the code, and the configuration has to be loaded and
  -- written.
  pub run-LoggedIn :
      (args : List String) (l : Listening U) (r : HttpRequest) (code : String) (w : World)
      → run U args ≡ some (listening l)
      → IsHonest l code w
      → Redirect r code l.auth_state
      → LoggedIn l.handler r code w
  unfolding oauth2_config handler_of
  run-LoggedIn args l r code w h o x =
      let (challenge, _, state) = run-agrees U args l h in
      let (f, from) = run-From U args l h in
      let (token, raw, redeemed, its_token) =
        o.redeems (oauth2_config l.handler []) (exchange_params l.handler)
          (rw (from.handler, from.config) refl) (rw (from.handler, from.config) refl)
          (rw (from.handler, from.config) refl) challenge in
      let w₂ = (V.exchange (oauth2_config l.handler []) code (exchange_params l.handler) w).1 in
      record {
        token = token;
        raw = raw;
        config = (o.loads w₂).0;
        redeemed = redeemed;
        its_token = its_token;
        loaded = (o.loads w₂).1;
        saved =
            serve_http-Redirect l.handler r code w (subst (Redirect r code) state x)
            ∙ exchange_code-saves V l.handler code w token raw redeemed its_token
            ∙ save_token_succeeds l code w w₂ raw o;
      }
