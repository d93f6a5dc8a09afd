-- ===== src/Base/Exit.antt =====
-- `exitfIfError` and `exitIfError`, which the programs' mains share in text: an error ends the
-- program with exit code 1, once the message and the error have been printed.
use mathlib.Core.Path.{◌≡◌, subst, sym}
use mathlib.Core.Logic.{inl, inr}
use Prim.Native.String.{String}
use auth_explore.Base.Exec.{Result, ok, err, Exec, continue, settle, ◌>>=◌, Result-cases}

pub record Exit (E : Type 0) : Type 0 where
  pub message : String
  pub cause : E

module _ {E : Type 0} where
  abbrev pub exitf_if_error : {A : Type 0} → String → Result E A → Result (Exit E) A
  exitf_if_error message (ok a) = ok a
  exitf_if_error message (err e) = err (record { message = message; cause = e })

  abbrev pub exit_if_error : {A : Type 0} → Result E A → Result (Exit E) A
  exit_if_error = exitf_if_error "an unexpected error occurred"

module _ {E F A : Type 0} where
  abbrev pub caused : (E → F) → Result E A → Result F A
  caused cause (ok a) = ok a
  caused cause (err e) = err (cause e)

-- A call whose error ends the program.
module _ {W E F A : Type 0} where
  abbrev pub checked : String → (E → F) → Exec W E A → Exec W (Exit F) A
  checked message cause m = settle (λ r. exitf_if_error message (caused cause r)) m

-- What holds if the program ends here, and if it goes on, holds of the program.
module _ {W E F A B : Type 0} (P : Result (Exit F) B × W → Type 0) where
  pub checked-step :
      (message : String) (cause : E → F) (m : Exec W E A) (f : A → Exec W (Exit F) B) (w : W)
      → ((e : E)
          → (m w).0 ≡ err e
          → P (err (record { message = message; cause = cause e }), (m w).1))
      → ((a : A) → (m w).0 ≡ ok a → P (f a (m w).1))
      → P ((checked message cause m >>= f) w)
  checked-step message cause m f w stop go =
      let shape =
        λ (r : Result E A). P (continue (exitf_if_error message (caused cause r)) f (m w).1) in
      elim (Result-cases (m w).0) [
        | inl (a, e) ↦ subst shape (sym e) (go a e)
        | inr (x, e) ↦ subst shape (sym e) (stop x e)
      ]
