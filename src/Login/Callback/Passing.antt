-- ===== src/Login/Callback/Passing.antt =====
-- What a request to the callback of oidc-login-plugin/main.go has passed when it is answered with
-- success.
use auth_explore.Base.{
  String, ◌≡◌, refl, ◌≢◌, inl, inr, Option, none, some, List, [], ◌∷◌, ◌==◌, eq_iff, Bool-cases,
  ne-of_test,
}
use auth_explore.Base.Exec.{Result, ok, err, Result-cases}
use auth_explore.Login.{example_app_state, CallbackHandler, oauth2_config}
use auth_explore.Login.Callback.{
  Form, HttpRequest, success, Services, form_value, exchange_params, save_token, exchanged,
  exchange_code, serve_form, serve_http,
}

module _ (V : Services) where
  open V use {World, Token, Config}

  -- Where the raw ID token of a login comes from, and the world in which the configuration is
  -- loaded: from the form as it is, or from the provider, in exchange for the form's code.
  pub data Origin (h : CallbackHandler) (form : List (String × List String)) (w : World)
      (raw : String) (w' : World) : Type 0 where
    from_form : form_value "id_token" form ≡ raw → raw ≢ "" → w' ≡ w → Origin h form w raw w'
    from_code :
        (token : Token)
        → form_value "id_token" form ≡ ""
        → form_value "code" form ≢ ""
        → form_value "state" form ≡ example_app_state
        → (V.exchange (oauth2_config h []) (form_value "code" form) (exchange_params h) w).0
          ≡ ok token
        → V.id_token token ≡ some raw
        → w' ≡ (V.exchange (oauth2_config h []) (form_value "code" form) (exchange_params h) w).1
        → Origin h form w raw w'

  exchanged_token :
      (token : Token) (o : Option String) (w : World)
      → V.id_token token ≡ o
      → (exchanged V (ok token, w)).0 ≡ success
      → (raw : String) × (V.id_token token ≡ some raw)
        × (exchanged V (ok token, w) ≡ save_token V raw w)
  exchanged_token token none w e h = absurd (cc (rw (e, exchanged) at h))
  exchanged_token token (some raw) w e h = (raw, e, rw (e, exchanged))

  -- A code that is redeemed for a token with an ID token goes on to the saving of it.
  pub exchange_code-saves :
      (h : CallbackHandler) (code : String) (w : World) (token : Token) (raw : String)
      → (V.exchange (oauth2_config h []) code (exchange_params h) w).0 ≡ ok token
      → V.id_token token ≡ some raw
      → exchange_code V h code w
        ≡ save_token V raw (V.exchange (oauth2_config h []) code (exchange_params h) w).1
  unfolding exchange_code
  exchange_code-saves h code w token raw e f = rw (e, exchanged) (rw (f, exchanged) refl)

  exchanged-success :
      (q : Result String Token × World)
      → (exchanged V q).0 ≡ success
      → (token : Token) × (raw : String) × (q.0 ≡ ok token)
        × (V.id_token token ≡ some raw)
        × (exchanged V q ≡ save_token V raw q.1)
  exchanged-success (err e, w) h = absurd (cc h)
  exchanged-success (ok token, w) h =
      let (raw, e, s) = exchanged_token token _ w refl h in (token, raw, refl, e, s)

  -- What a login has passed on its way, and where its raw ID token comes from.
  pub record Passed (h : CallbackHandler) (r : HttpRequest) (w : World) : Type 0 where
    pub form : Form
    pub raw : String
    pub before : World
    pub is_get : r.method ≡ "GET"
    pub parsed : r.form ≡ ok form
    pub no_error : form_value "error" form ≡ ""
    pub origin : Origin h form w raw before
    pub saved : serve_http V h r w ≡ save_token V raw before

  serve_form-success :
      (h : CallbackHandler) (form : Form) (w : World)
      → (serve_form V h form w).0 ≡ success
      → (raw : String) × (before : World) × (form_value "error" form ≡ "")
        × Origin h form w raw before
        × (serve_form V h form w ≡ save_token V raw before)
  unfolding serve_form exchange_code
  serve_form-success h [] w e = absurd (cc e)
  serve_form-success h (entry ∷ entries) w e =
      let form : Form = entry ∷ entries in
      elim (Bool-cases (form_value "error" form == "")) [
        | inr n ↦ absurd (cc (rw n at e))
        | inl y ↦ elim (Bool-cases (form_value "id_token" form == "")) [
          | inr n ↦ (
            form_value "id_token" form,
            w,
            (eq_iff _ "").0 y,
            from_form refl (ne-of_test (form_value "id_token" form) "" n) refl,
            rw (y, n),
          )
          | inl y₂ ↦ elim (Bool-cases (form_value "code" form == "")) [
            | inl y₃ ↦ absurd (cc (rw (y, y₂, y₃) at e))
            | inr n₃ ↦ elim (Bool-cases (form_value "state" form == example_app_state)) [
              | inr n₄ ↦ absurd (cc (rw (y, y₂, n₃, n₄) at e))
              | inl y₄ ↦
                  let code = form_value "code" form in
                  let (token, raw, given, has, s) =
                    exchanged-success (V.exchange (oauth2_config h []) code (exchange_params h) w)
                      (rw (y, y₂, n₃, y₄) at e) in
                  (
                    raw,
                    _,
                    (eq_iff _ "").0 y,
                    from_code token ((eq_iff _ "").0 y₂) (ne-of_test code "" n₃) ((eq_iff _ _).0 y₄)
                        given has refl,
                    rw (y, y₂, n₃, y₄) s,
                  )
            ]
          ]
        ]
      ]

  -- A request that is answered with success is a GET whose form holds no error, and its raw ID token,
  -- which becomes the access token, is either taken from the form as it stands, or was given by the
  -- provider in exchange for the form's code, the form's state being the one that the plugin sends.
  pub serve_http-Passed :
      (h : CallbackHandler) (r : HttpRequest) (w : World)
      → (serve_http V h r w).0 ≡ success
      → Passed h r w
  unfolding serve_http
  serve_http-Passed h r w e = elim (Bool-cases (r.method == "GET")) [
    | inr n ↦ absurd (cc (rw (n, serve_http) at e))
    | inl y ↦ elim (Result-cases r.form) [
      | inr (x, p) ↦ absurd (cc (rw (y, p, serve_http) at e))
      | inl (form, p) ↦
          let (raw, before, fine, origin, s) =
            serve_form-success h form w (rw (y, p, serve_http) at e) in
          record {
            form = form;
            raw = raw;
            before = before;
            is_get = (eq_iff r.method "GET").0 y;
            parsed = p;
            no_error = fine;
            origin = origin;
            saved = rw (y, p, serve_http) s;
          }
    ]
  ]
