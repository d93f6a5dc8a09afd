-- ===== src/Login/Callback.antt =====
-- `ServeHTTP` of oidc-login-plugin/main.go: the handler of the redirect from the provider.
pub mod Passing
pub mod Refusals
pub mod Implicit
use auth_explore.Base.{
  ℕ, String, ◌<>◌, Bool, true, false, ◌&&◌, not, Option, none, some, List, [], ◌∷◌, lookup, ◌==◌,
  if◌then◌else◌,
}
use auth_explore.Base.Exec.{Result, ok, err, Exec}
use auth_explore.Login.{AuthParam, example_app_state, CallbackHandler, OauthConfig, oauth2_config}

-- `url.Values`
abbrev pub Form : Type 0
Form = List (String × List String)

-- A request: its method, and what `ParseForm` makes of it, an error or the form.
pub record HttpRequest : Type 0 where
  pub method : String
  pub form : Result String Form

-- The texts that `http.Error` sends.
pub data Message : Type 0 where
  form_error : Message
  provider_error : String → String → Message
  no_code : List (String × List String) → Message
  wrong_state : String → Message
  exchange_error : String → Message
  no_id_token : Message
  bad_method : String → Message
  load_error : String → Message
  write_error : String → Message

pub data Response : Type 0 where
  http_error : Message → ℕ → Response
  login_page : Response
  success : Response

abbrev pub bad_request : ℕ
bad_request = 400

abbrev pub internal_error : ℕ
internal_error = 500

-- What the handler calls: `Exchange` of the OAuth2 library and the cf configuration.
pub record Services : Type 1 where
  pub World : Type 0
  pub Token : Type 0
  pub Config : Type 0
  pub exchange : OauthConfig → String → List AuthParam → Exec World String Token
  -- `token.Extra("id_token").(string)`
  pub id_token : Token → Option String
  pub load_config : Exec World String Config
  -- `config.ConfigFile.AccessToken = …`
  pub set_access_token : String → Config → Config
  pub write_config : Config → Exec World String Unit

abbrev first_or_empty : Option (List String) → String
first_or_empty none = ""
first_or_empty (some []) = ""
first_or_empty (some (v ∷ vs)) = v

-- `r.FormValue(key)`
abbrev pub form_value : String → Form → String
form_value key form = first_or_empty (lookup key form)

-- The options of `Exchange`: the verifier goes with a client that has no secret.
unfoldable pub exchange_params : CallbackHandler → List AuthParam
exchange_params h =
    if h.client_secret == "" && not h.use_implicit
    then record { key = "code_verifier"; value = h.code_verifier } ∷ []
    else []

module _ (V : Services) where
  open V use {World, Token, Config}

  -- From the raw ID token on: it becomes the access token of the cf configuration.
  unfoldable pub save_token : String → World → Response × World
  save_token raw w =
      let loaded = V.load_config w in
      elim loaded.0 [
        | err e ↦ (http_error (load_error e) internal_error, loaded.1)
        | ok config ↦
            let written = V.write_config (V.set_access_token ("bearer " <> raw) config) loaded.1 in
            elim written.0 [
              | err e ↦ (http_error (write_error e) internal_error, written.1)
              | ok _ ↦ (success, written.1)
            ]
      ]

  -- What `Exchange` gave, on to the ID token in it.
  abbrev exchanged : Result String Token × World → Response × World
  exchanged (err e, w) = (http_error (exchange_error e) bad_request, w)
  exchanged (ok token, w) = elim (V.id_token token) [
    | none ↦ (http_error no_id_token internal_error, w)
    | some raw ↦ save_token raw w
  ]

  unfoldable pub exchange_code : CallbackHandler → String → World → Response × World
  unfolding exchange_params oauth2_config
  exchange_code h code w = exchanged (V.exchange (oauth2_config h []) code (exchange_params h) w)

  -- The case of GET, with a form that has been parsed.
  unfoldable pub serve_form : CallbackHandler → Form → World → Response × World
  serve_form h [] w = (login_page, w)
  serve_form h (entry ∷ entries) w =
      let form = entry ∷ entries in
      if not (form_value "error" form == "")
      then (
        http_error (provider_error (form_value "error" form) (form_value "error_description" form))
            bad_request,
        w,
      )
      else if not (form_value "id_token" form == "")
      then save_token (form_value "id_token" form) w
      else if form_value "code" form == ""
      then (http_error (no_code form) bad_request, w)
      else if not (form_value "state" form == example_app_state)
      then (http_error (wrong_state (form_value "state" form)) bad_request, w)
      else exchange_code h (form_value "code" form) w

  abbrev serve_get : CallbackHandler → Result String Form → World → Response × World
  serve_get h (err e) w = (http_error form_error bad_request, w)
  serve_get h (ok form) w = serve_form h form w

  unfoldable pub serve_http : CallbackHandler → HttpRequest → World → Response × World
  unfolding serve_form
  serve_http h r w =
      if r.method == "GET"
      then serve_get h r.form w
      else (http_error (bad_method r.method) bad_request, w)
