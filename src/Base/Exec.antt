-- ===== src/Base/Exec.antt =====
-- Calls that change a world and may return an error. What was done before an error stays done, so
-- the world comes back beside the error too.
use mathlib.Core.Path.{◌≡◌, refl}
use mathlib.Core.Logic.{◌⊎◌, inl, inr}

pub data Result (E A : Type 0) : Type 0 where
  ok : A → Result E A
  err : E → Result E A

abbrev pub Exec : Type 0 → Type 0 → Type 0 → Type 0
Exec W E A = W → Result E A × W

module _ {W E A : Type 0} where
  abbrev pub pure : A → Exec W E A
  pure a w = (ok a, w)

  abbrev pub raise : E → Exec W E A
  raise e w = (err e, w)

module _ {W E A B : Type 0} where
  abbrev pub continue : Result E A → (A → Exec W E B) → Exec W E B
  continue (ok a) f w = f a w
  continue (err e) f w = (err e, w)

  infixl 5 ◌>>=◌ ◌>>◌
  abbrev pub ◌>>=◌ : Exec W E A → (A → Exec W E B) → Exec W E B
  ◌>>=◌ m f w = continue (m w).0 f (m w).1

  abbrev pub ◌>>◌ : Exec W E A → Exec W E B → Exec W E B
  m >> k = m >>= λ _. k

-- The error result seen by a caller that turns it into its own.
module _ {W E F A B : Type 0} where
  abbrev pub settle : (Result E A → Result F B) → Exec W E A → Exec W F B
  settle h m w = (h (m w).0, (m w).1)

module _ {E A : Type 0} where
  pub Result-cases : (r : Result E A) → ((a : A) × (r ≡ ok a)) ⊎ ((e : E) × (r ≡ err e))
  Result-cases (ok a) = inl (a, refl)
  Result-cases (err e) = inr (e, refl)

  pub ok-injective : {a b : A} → ◌≡◌ {A = Result E A} (ok a) (ok b) → a ≡ b
  ok-injective h = cc

module _ {W E A B : Type 0} where
  continue-eq-ok :
      (r : Result E A) (f : A → Exec W E B) (w : W) {b : B}
      → (continue r f w).0 ≡ ok b
      → (a : A) × (r ≡ ok a) × ((f a w).0 ≡ ok b) × (continue r f w ≡ f a w)
  continue-eq-ok (ok a) f w h = (a, refl, h, refl)
  continue-eq-ok (err e) f w h = cc

  -- A sequence that returns no error has run both of its parts without one.
  pub >>=-eq-ok :
      (m : Exec W E A) (f : A → Exec W E B) (w : W) {b : B}
      → ((m >>= f) w).0 ≡ ok b
      → (a : A) × ((m w).0 ≡ ok a) × ((f a (m w).1).0 ≡ ok b) × ((m >>= f) w ≡ f a (m w).1)
  >>=-eq-ok m f w h = continue-eq-ok (m w).0 f (m w).1 h

  continue-world : (r : Result E A) (f : A → B) (w : W) → (continue r (λ a. pure (f a)) w).1 ≡ w
  continue-world (ok a) f w = refl
  continue-world (err e) f w = refl

  -- What follows without an effect leaves the world alone.
  pub pure-world : (m : Exec W E A) (f : A → B) (w : W) → ((m >>= λ a. pure (f a)) w).1 ≡ (m w).1
  pure-world m f w = continue-world (m w).0 f (m w).1
