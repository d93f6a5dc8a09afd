-- ===== src/Login/Run/Given.antt =====
-- The command line that gives all flags, and what the plugin makes of it.
use auth_explore.Base.{String, ◌≡◌, refl, Bool, true, false, List, [], ◌∷◌, ◌++◌}
use auth_explore.Login.Flags.{Flags, parse_flags}

abbrev implicit_argument : Bool → String
implicit_argument true = "-implicit=true"
implicit_argument false = "-implicit=false"

-- Each text flag with its value as the next argument, whatever the value looks like.
abbrev pub given : Flags → List String
given f =
    "-client-id"
    ∷ f.client_id
    ∷ "-client-secret"
    ∷ f.client_secret
    ∷ "-redirect-uri"
    ∷ f.redirect_uri
    ∷ "-issuer"
    ∷ f.issuer
    ∷ "-listen"
    ∷ f.listen
    ∷ "-issuer-root-ca"
    ∷ f.issuer_root_ca
    ∷ implicit_argument f.implicit
    ∷ []

given_cases :
    (b : Bool) (f g : Flags) (rest : List String)
    → f.implicit ≡ b
    → parse_flags (given (record f { implicit = b }) ++ rest) g
      ≡ parse_flags rest (record f { implicit = b })
unfolding parse_flags
given_cases true f g [] e = refl
given_cases true f g (x ∷ rest) e = refl
given_cases false f g [] e = refl
given_cases false f g (x ∷ rest) e = refl

-- The arguments that give the flags of `f` are read as these, whatever the flags were before and
-- whatever the values look like, and the parse goes on with what stands behind.
pub parse_flags-given :
    (f g : Flags) (rest : List String) → parse_flags (given f ++ rest) g ≡ parse_flags rest f
parse_flags-given f g rest = given_cases f.implicit f g rest refl
