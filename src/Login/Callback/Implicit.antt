-- ===== src/Login/Callback/Implicit.antt =====
-- The implicit flow in the callback of oidc-login-plugin/main.go.
use auth_explore.Base.{String, ◌<>◌, ◌≡◌, refl, ◌∙◌, ◌≢◌, [], ◌∷◌, eq_iff, eq-of-ne}
use auth_explore.Base.Exec.{ok}
use auth_explore.Login.{CallbackHandler}
use auth_explore.Login.Callback.{
  Form, HttpRequest, success, Services, form_value, save_token, serve_form, serve_http,
}

module _ (V : Services) where
  open V use {World, Config}

  save_token-saved :
      (raw : String) (config : Config) (w : World)
      → (V.load_config w).0 ≡ ok config
      → (V.write_config (V.set_access_token ("bearer " <> raw) config) (V.load_config w).1).0
        ≡ ok tt
      → save_token V raw w ≡ (
        success,
        (V.write_config (V.set_access_token ("bearer " <> raw) config) (V.load_config w).1).1,
      )
  unfolding save_token
  save_token-saved raw config w loads writes = rw (loads, writes, save_token) refl

  serve_form-implicit :
      (h : CallbackHandler) (form : Form) (w : World)
      → form_value "error" form ≡ ""
      → form_value "id_token" form ≢ ""
      → serve_form V h form w ≡ save_token V (form_value "id_token" form) w
  unfolding serve_form
  serve_form-implicit h [] w fine some_token = absurd (some_token refl)
  serve_form-implicit h (entry ∷ entries) w fine some_token = rw (
    (eq_iff (form_value "error" (entry ∷ entries)) "").1 fine,
    eq-of-ne (form_value "id_token" (entry ∷ entries)) "" some_token,
  )

  -- A GET whose form holds an ID token and no error is answered with success, and the configuration
  -- that the handler has loaded is written with this token as its access token, if it can be loaded
  -- and written. Nothing else of the form, its state included, and nothing of the flow for which the
  -- plugin was started is looked at, and nothing is exchanged.
  pub serve_http-implicit :
      (h : CallbackHandler) (r : HttpRequest) (form : Form) (config : Config) (w : World)
      → r.method ≡ "GET"
      → r.form ≡ ok form
      → form_value "error" form ≡ ""
      → form_value "id_token" form ≢ ""
      → (V.load_config w).0 ≡ ok config
      → let config' = V.set_access_token ("bearer " <> form_value "id_token" form) config in
        (V.write_config config' (V.load_config w).1).0 ≡ ok tt
        → serve_http V h r w ≡ (
          success,
          (V.write_config
              (V.set_access_token ("bearer " <> form_value "id_token" form) config)
              (V.load_config w).1).1,
        )
  unfolding serve_http
  serve_http-implicit h r form config w get parsed fine some_token loads writes =
      rw ((eq_iff r.method "GET").1 get, parsed, serve_http)
        (serve_form-implicit h form w fine some_token
          ∙ save_token-saved (form_value "id_token" form) config w loads writes)
