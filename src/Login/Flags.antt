-- ===== src/Login/Flags.antt =====
-- The flags of the `oidc-login` command in `Run` of oidc-login-plugin/main.go, and Go's package
-- `flag` as far as `flags.Parse` uses it.
pub mod Reading
use Prim.Native.Char.{Char, code}
use auth_explore.Base.{
  ℕ, String, Bool, true, false, ◌||◌, Option, none, some, List, [], ◌∷◌, contains, leb, ◌&&◌, ◌==◌,
  if◌then◌else◌,
}

pub record Flags : Type 0 where
  pub client_id : String
  pub client_secret : String
  pub implicit : Bool
  pub redirect_uri : String
  pub issuer : String
  pub listen : String
  pub issuer_root_ca : String

abbrev pub defaults : Flags
defaults = record {
  client_id = "a5fc3303a934b458e097";
  client_secret = "";
  implicit = false;
  redirect_uri = "http://127.0.0.1:5555/callback";
  issuer = "https://github.com/login/oauth/authorize";
  listen = "http://127.0.0.1:5555";
  issuer_root_ca = "";
}

abbrev is_char : ℕ → Char → Bool
is_char n c = leb n (code c) && leb (code c) n

-- The text up to the first `=` behind its first character, and what stands behind that.
split_value : String → String × Option String
split_value String.[] = (String.[], none)
split_value (String.◌∷◌ c s) =
    let rest = split_value s in
    if is_char b'=' c then (String.[], some s) else (String.◌∷◌ c rest.0, rest.1)

-- One argument, as `parseOne` reads it.
pub data Argument : Type 0 where
  stop : Argument
  bad : Argument
  flag : String → Option String → Argument

name_of : String → Argument
name_of String.[] = bad
name_of (String.◌∷◌ c s) =
    if is_char b'-' c || is_char b'=' c
    then bad
    else flag (String.◌∷◌ c (split_value s).0) (split_value s).1

-- Behind the first dash.
after_dash : String → Argument
after_dash String.[] = stop
after_dash (String.◌∷◌ c String.[]) =
    if is_char b'-' c then stop else name_of (String.◌∷◌ c String.[])
after_dash (String.◌∷◌ c s) = if is_char b'-' c then name_of s else name_of (String.◌∷◌ c s)

unfoldable pub read_argument : String → Argument
unfolding after_dash name_of split_value
read_argument String.[] = stop
read_argument (String.◌∷◌ c s) = if is_char b'-' c then after_dash s else stop

-- `strconv.ParseBool`
unfoldable pub parse_bool : String → Option Bool
parse_bool s =
    if contains ("1" ∷ "t" ∷ "T" ∷ "true" ∷ "TRUE" ∷ "True" ∷ []) s
    then some true
    else if contains ("0" ∷ "f" ∷ "F" ∷ "false" ∷ "FALSE" ∷ "False" ∷ []) s
    then some false
    else none

-- The text flags by name.
unfoldable pub set_text : String → String → Flags → Option Flags
set_text name value f =
    if name == "client-id"
    then some (record f { client_id = value })
    else if name == "client-secret"
    then some (record f { client_secret = value })
    else if name == "redirect-uri"
    then some (record f { redirect_uri = value })
    else if name == "issuer"
    then some (record f { issuer = value })
    else if name == "listen"
    then some (record f { listen = value })
    else if name == "issuer-root-ca"
    then some (record f { issuer_root_ca = value })
    else none

or_same : Option Flags → Flags → Flags
or_same none f = f
or_same (some g) f = g

-- What one argument does: it ends the parse (also by an error), it is complete, or it is a text flag
-- whose value is the next argument.
pub data Step : Type 0 where
  done : Flags → Step
  complete : Flags → Step
  needs_value : String → Step

-- A value that is no Boolean sets the flag to false, and is an error.
set_implicit : Option String → Flags → Step
unfolding parse_bool
set_implicit none f = complete (record f { implicit = true })
set_implicit (some value) f = elim (parse_bool value) [
  | none ↦ done (record f { implicit = false })
  | some b ↦ complete (record f { implicit = b })
]

set_flag : String → Option String → Flags → Step
unfolding set_text or_same
set_flag name (some value) f = elim (set_text name value f) [ none ↦ done f | some g ↦ complete g ]
set_flag name none f = elim (set_text name "" f) [ none ↦ done f | some _ ↦ needs_value name ]

unfoldable pub step : String → Flags → Step
unfolding read_argument set_implicit set_flag
step arg f = elim (read_argument arg) [
  | stop ↦ done f
  | bad ↦ done f
  | flag name value ↦ if name == "implicit" then set_implicit value f else set_flag name value f
]

-- `flags.Parse`, whose error the command ignores: the flags as they are when it stops.
unfoldable pub parse_flags : List String → Flags → Flags
unfolding step
parse_flags [] f = f
parse_flags (arg ∷ []) f = elim (step arg f) [ done g ↦ g | complete g ↦ g | needs_value _ ↦ f ]
parse_flags (arg ∷ next ∷ args) f = elim (step arg f) [
  | done g ↦ g
  | complete g ↦ parse_flags (next ∷ args) g
  | needs_value name ↦ parse_flags args (or_same (set_text name next f) f)
]
