-- ===== src/Login/Callback/Refusals.antt =====
-- The requests that the callback of oidc-login-plugin/main.go turns down.
use auth_explore.Base.{
  ℕ, String, ◌≡◌, refl, inl, inr, Bool, true, false, [], ◌∷◌, ◌==◌, arith, Bool-cases, sym,
}
use auth_explore.Base.Exec.{Result-cases}
use auth_explore.Login.{example_app_state, CallbackHandler}
use auth_explore.Login.Callback.{
  Form, HttpRequest, Message, exchange_error, no_id_token, load_error, write_error, http_error,
  bad_request, Services, form_value, save_token, exchange_code, serve_form, serve_http,
}

-- The messages of a request that is turned down before anything is called.
abbrev pub is_early : Message → Bool
is_early (exchange_error _) = false
is_early no_id_token = false
is_early (load_error _) = false
is_early (write_error _) = false
is_early _ = true

module _ (V : Services) where
  open V use {World}

  save_token-late :
      (raw : String) (w : World) (m : Message) (status : ℕ)
      → (save_token V raw w).0 ≡ http_error m status
      → is_early m ≡ false
  unfolding save_token
  save_token-late raw w m status e = ground arith

  exchange_code-late :
      (h : CallbackHandler) (code : String) (w : World) (m : Message) (status : ℕ)
      → (exchange_code V h code w).0 ≡ http_error m status
      → is_early m ≡ false
  unfolding exchange_code save_token
  exchange_code-late h code w m status e = ground arith

  http_error_status : {m n : Message} {a b : ℕ} → http_error m a ≡ http_error n b → a ≡ b
  http_error_status h = cc

  serve_form-early :
      (h : CallbackHandler) (form : Form) (w : World) (m : Message) (status : ℕ)
      → (serve_form V h form w).0 ≡ http_error m status
      → is_early m ≡ true
      → (status ≡ bad_request) × ((serve_form V h form w).1 ≡ w)
  unfolding serve_form
  serve_form-early h [] w m status e early = absurd (cc e)
  serve_form-early h (entry ∷ entries) w m status e early =
      let form : Form = entry ∷ entries in
      elim (Bool-cases (form_value "error" form == "")) [
        | inr n ↦ rw n (sym (http_error_status (rw n at e)), refl)
        | inl y ↦ elim (Bool-cases (form_value "id_token" form == "")) [
          | inr n ↦ absurd (cc (early, save_token-late _ w m status (rw (y, n) at e)))
          | inl y₂ ↦ elim (Bool-cases (form_value "code" form == "")) [
            | inl y₃ ↦ rw (y, y₂, y₃) (sym (http_error_status (rw (y, y₂, y₃) at e)), refl)
            | inr n₃ ↦ elim (Bool-cases (form_value "state" form == example_app_state)) [
              | inr n₄ ↦
                  rw (y, y₂, n₃, n₄) (sym (http_error_status (rw (y, y₂, n₃, n₄) at e)), refl)
              | inl y₄ ↦
                  absurd (cc (early, exchange_code-late h _ w m status (rw (y, y₂, n₃, y₄) at e)))
            ]
          ]
        ]
      ]

  -- A request that is turned down, for its method, its form, an error of the provider, a missing code
  -- or a wrong state, is answered with status 400, and nothing has been exchanged or written.
  pub serve_http-early :
      (h : CallbackHandler) (r : HttpRequest) (w : World) (m : Message) (status : ℕ)
      → (serve_http V h r w).0 ≡ http_error m status
      → is_early m ≡ true
      → (status ≡ bad_request) × ((serve_http V h r w).1 ≡ w)
  unfolding serve_http
  serve_http-early h r w m status e early = elim (Bool-cases (r.method == "GET")) [
    | inr n ↦ rw (n, serve_http) (sym (http_error_status (rw (n, serve_http) at e)), refl)
    | inl y ↦ elim (Result-cases r.form) [
      | inr (x, p) ↦
          rw (y, p, serve_http) (sym (http_error_status (rw (y, p, serve_http) at e)), refl)
      | inl (form, p) ↦
          rw (y, p, serve_http)
            (serve_form-early h form w m status (rw (y, p, serve_http) at e) early)
    ]
  ]
