-- ===== src/Login/Run/Pkce.antt =====
-- The two ends of a login agree: the authorization URL of `Run` and the exchange of `ServeHTTP`, in
-- oidc-login-plugin/main.go.
use mathlib.Core.Path.{subst}
use mathlib.Core.Option.{some-injective}
use auth_explore.Base.{
  String, ◌≡◌, refl, List, [], ◌∷◌, Option, none, some, ◌==◌, arith, if◌then◌else◌, Bool-cases, inl,
  inr,
}
use auth_explore.Base.Exec.{Result-cases}
use auth_explore.Login.{AuthParam, example_app_state, oauth2_config}
use auth_explore.Login.Callback.{exchange_params}
use auth_explore.Login.Flags.{Flags, defaults, parse_flags}
use auth_explore.Login.Run.{
  Setup, Listening, listening, Outcome, Url, scopes, auth_params, handler_of, listen_with,
  choose_client, run, start,
}

-- The value of a parameter.
abbrev pub param : String → List AuthParam → Option String
param k [] = none
param k (p ∷ ps) = if p.key == k then some p.value else param k ps

-- The challenge that fits a verifier, if there is a verifier.
abbrev pub challenged : (String → String) → Option String → Option String
challenged s256 none = none
challenged s256 (some verifier) = some (s256 verifier)

-- The method that goes with a challenge, if there is one.
abbrev pub challenge_method : Option String → Option String
challenge_method none = none
challenge_method (some _) = some "S256"

method-challenge :
    (f : Flags) (verifier challenge : String)
    → param "code_challenge_method" (auth_params f verifier challenge)
      ≡ challenge_method (param "code_challenge" (auth_params f verifier challenge))
unfolding auth_params
method-challenge f verifier challenge = ground arith

-- The challenge of the options against the verifier of the exchange, flag by flag.
challenge-verifier :
    (s256 : String → String) (f : Flags) (verifier : String)
    → param "code_challenge" (auth_params f verifier (s256 verifier))
      ≡ challenged s256 (param "code_verifier" (exchange_params (handler_of f verifier)))
unfolding auth_params exchange_params handler_of
challenge-verifier s256 f verifier = ground arith

module _ (U : Setup) where
  -- What the server that is about to listen has from the flags.
  pub record From (f : Flags) (l : Listening U) : Type 0 where
    pub handler : l.handler ≡ handler_of f U.code_verifier
    pub options : l.auth_options ≡ auth_params f U.code_verifier (U.code_challenge U.code_verifier)
    pub state : l.auth_state ≡ example_app_state
    pub config : l.auth_config ≡ oauth2_config (handler_of f U.code_verifier) scopes

  listening-injective :
      {l m : Listening U} → ◌≡◌ {A = Outcome U} (listening l) (listening m) → l ≡ m
  listening-injective h = cc

  listen_with-From :
      (f : Flags) (redirect listen : Url) (client : U.HttpClient) (l : Listening U)
      → listen_with U f redirect listen client ≡ listening l
      → From f l
  unfolding listen_with
  listen_with-From f redirect listen client l h =
      elim (Result-cases (U.new_provider client f.issuer)) [
        | inr (x, e) ↦ absurd (cc (rw (e, listen_with) at h))
        | inl (provider, e) ↦ elim (Bool-cases (redirect.path == "")) [
          | inl y ↦ absurd (cc (rw (e, y, listen_with) at h))
          | inr n ↦
              subst (From f) (listening-injective (rw (e, n, listen_with) at h))
                (record { handler = refl; options = refl; state = refl; config = refl })
        ]
      ]

  start-From : (f : Flags) (l : Listening U) → start U f ≡ listening l → From f l
  unfolding start
  start-From f l h = elim (Result-cases (U.parse_url f.redirect_uri)) [
    | inr (x, e) ↦ absurd (cc (rw (e, start) at h))
    | inl (redirect, e) ↦ elim (Result-cases (U.parse_url f.listen)) [
      | inr (x, e₂) ↦ absurd (cc (rw (e, e₂, start) at h))
      | inl (listen, e₂) ↦ elim (Result-cases (choose_client U f.issuer_root_ca)) [
        | inr (x, e₃) ↦ absurd (cc (rw (e, e₂, e₃, start) at h))
        | inl (client, e₃) ↦
            listen_with-From f redirect listen client l (rw (e, e₂, e₃, start) at h)
      ]
    ]
  ]

  pub run-From :
      (args : List String) (l : Listening U)
      → run U args ≡ some (listening l)
      → (f : Flags) × From f l
  unfolding run
  run-From [] l h = absurd (cc h)
  run-From (command ∷ args) l h = elim (Bool-cases (command == "oidc-login")) [
    | inr n ↦ absurd (cc (rw n at h))
    | inl y ↦ (
      parse_flags args defaults,
      start-From (parse_flags args defaults) l (some-injective _ _ (rw y at h)),
    )
  ]

  -- Whenever the command gets to listening, the challenge in the authorization URL is the S256
  -- challenge of the verifier that the handler will send with the exchange, and there is none in the
  -- one exactly when there is none in the other; the method that the URL names is S256 with a
  -- challenge, and none without; and the URL carries the state that the handler expects.
  pub run-agrees :
      (args : List String) (l : Listening U)
      → run U args ≡ some (listening l)
      → (param "code_challenge" l.auth_options
          ≡ challenged U.code_challenge (param "code_verifier" (exchange_params l.handler)))
        × (param "code_challenge_method" l.auth_options
            ≡ challenge_method (param "code_challenge" l.auth_options))
        × (l.auth_state ≡ example_app_state)
  run-agrees args l h =
      let (f, from) = run-From args l h in
      rw (from.handler, from.options)
        (
          challenge-verifier U.code_challenge f U.code_verifier,
          method-challenge f U.code_verifier (U.code_challenge U.code_verifier),
          from.state,
        )
