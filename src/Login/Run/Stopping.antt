-- ===== src/Login/Run/Stopping.antt =====
-- The command lines of the login command up to an argument at which the parse of the flags stops.
use auth_explore.Base.{
  String, ◌<>◌, ◌≡◌, ◌≢◌, Bool, true, false, Option, some, List, [], ◌∷◌, ◌++◌, All,
}
use auth_explore.Login.Flags.{Flags}
use auth_explore.Login.Flags.Reading.{is_name, with_value, begins_with_dash}

pub data TextFlag : Type 0 where
  client_id_flag client_secret_flag redirect_uri_flag issuer_flag listen_flag : TextFlag
  issuer_root_ca_flag : TextFlag

abbrev name : TextFlag → String
name client_id_flag = "client-id"
name client_secret_flag = "client-secret"
name redirect_uri_flag = "redirect-uri"
name issuer_flag = "issuer"
name listen_flag = "listen"
name issuer_root_ca_flag = "issuer-root-ca"

abbrev assign : TextFlag → String → Flags → Flags
assign client_id_flag v f = record f { client_id = v }
assign client_secret_flag v f = record f { client_secret = v }
assign redirect_uri_flag v f = record f { redirect_uri = v }
assign issuer_flag v f = record f { issuer = v }
assign listen_flag v f = record f { listen = v }
assign issuer_root_ca_flag v f = record f { issuer_root_ca = v }

-- What the user asks for: a text flag with its value as the next argument or behind a `=`, or the
-- flag for the implicit flow, alone or with a value.
pub data Setting : Type 0 where
  separate joined : TextFlag → String → Setting
  implicit_flag : Setting
  implicit_value : Bool → Setting

abbrev bool_text : Bool → String
bool_text true = "true"
bool_text false = "false"

abbrev pub arguments : Setting → List String
arguments (separate t v) = ("-" <> name t) ∷ v ∷ []
arguments (joined t v) = ("-" <> with_value (name t) (some v)) ∷ []
arguments implicit_flag = "-implicit" ∷ []
arguments (implicit_value b) = ("-" <> with_value "implicit" (some (bool_text b))) ∷ []

abbrev pub apply : Setting → Flags → Flags
apply (separate t v) f = assign t v f
apply (joined t v) f = assign t v f
apply implicit_flag f = record f { implicit = true }
apply (implicit_value b) f = record f { implicit = b }

-- The settings in the order of the command line; a later one of a flag replaces an earlier one.
abbrev pub all_arguments : List Setting → List String
all_arguments [] = []
all_arguments (s ∷ ss) = arguments s ++ all_arguments ss

abbrev pub apply_all : List Setting → Flags → Flags
apply_all [] f = f
apply_all (s ∷ ss) f = apply_all ss (apply s f)

abbrev pub flag_names : List String
flag_names =
    "client-id" ∷ "client-secret" ∷ "implicit" ∷ "redirect-uri" ∷ "issuer" ∷ "listen"
    ∷ "issuer-root-ca" ∷ []

-- The arguments that set nothing and behind which nothing is read: one that does not begin with a
-- dash, one or two dashes alone, and a flag of another name than the seven.
pub data Stops (arg : String) : Type 0 where
  no_dash : begins_with_dash arg ≡ false → Stops arg
  lone_dash : arg ≡ "-" → Stops arg
  two_dashes : arg ≡ "--" → Stops arg
  unknown :
      (n : String) (value : Option String)
      → arg ≡ "-" <> with_value n value
      → is_name n ≡ true
      → All (λ known. n ≢ known) flag_names
      → Stops arg
