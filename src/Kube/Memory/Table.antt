-- ===== src/Kube/Memory/Table.antt =====
-- Objects kept in a list by a key; of two with one key the first counts.
use mathlib.Core.Option.{some-injective}
use auth_explore.Base.{
  ◌≡◌, refl, sym, ap, ◌∙◌, ◌⊎◌, ◌↔◌, Bool, true, false, Option, none, some, List, [], ◌∷◌, In, inl,
  inr, arith, if◌then◌else◌, Bool-cases,
}

module _ {K A : Type 0} (eqk : K → K → Bool) (key : A → K) where
  unfoldable pub find : K → List A → Option A
  find k [] = none
  find k (x ∷ xs) = if eqk k (key x) then some x else find k xs

  unfoldable pub erase : K → List A → List A
  erase k [] = []
  erase k (x ∷ xs) = let rest = erase k xs in if eqk k (key x) then rest else x ∷ rest

  uniq : List A → List A
  uniq [] = []
  uniq (x ∷ xs) = x ∷ erase (key x) (uniq xs)

  keep : (A → Bool) → List A → List A
  keep p [] = []
  keep p (x ∷ xs) = let rest = keep p xs in if p x then x ∷ rest else rest

  -- The objects that count and pass the test.
  unfoldable pub listing : (A → Bool) → List A → List A
  unfolding uniq keep
  listing p xs = keep p (uniq xs)

abbrev pub passing : {A : Type 0} → (A → Bool) → Option A → Option A
passing p none = none
passing p (some x) = if p x then some x else none

In-of_if :
    {A : Type 0} {y : A} (b : Bool) (x : A) (rest : List A)
    → In y (if b then x ∷ rest else rest)
    → ((b ≡ true) × (y ≡ x)) ⊎ In y rest
In-of_if true x rest (inl q) = inl (refl, q)
In-of_if true x rest (inr m) = inr m
In-of_if false x rest m = inr m

In-if_later :
    {A : Type 0} (y : A) (b : Bool) (x : A) (rest : List A)
    → In y rest
    → In y (if b then x ∷ rest else rest)
In-if_later y true x rest m = inr m
In-if_later y false x rest m = m

module _ {K A : Type 0} (eqk : K → K → Bool) (key : A → K)
    (eqk_iff : (a b : K) → (eqk a b ≡ true) ↔ (a ≡ b)) where
  pub find-key : (k : K) (l : List A) (x : A) → find eqk key k l ≡ some x → key x ≡ k
  unfolding find
  find-key k [] x h = absurd (cc h)
  find-key k (y ∷ l) x h = ground (arith, eqk_iff k (key y), find-key k l x)

  pub find-erase :
      (j k : K) (l : List A)
      → find eqk key j (erase eqk key k l) ≡ (if eqk j k then none else find eqk key j l)
  unfolding find erase
  find-erase j k [] = ground arith
  find-erase j k (x ∷ l) =
      ground (arith, find-erase j k l, eqk_iff j (key x), eqk_iff k (key x), eqk_iff j k)

  find-uniq : (j : K) (l : List A) → find eqk key j (uniq eqk key l) ≡ find eqk key j l
  unfolding find uniq
  find-uniq j [] = refl
  find-uniq j (x ∷ l) = ground (arith, find-uniq j l, find-erase j (key x) (uniq eqk key l))

  -- No two objects have one key.
  abbrev pub Uniq : List A → Type 0
  Uniq [] = Unit
  Uniq (x ∷ l) = (find eqk key (key x) l ≡ none) × Uniq l

  erase-Uniq : (k : K) (l : List A) → Uniq l → Uniq (erase eqk key k l)
  unfolding erase
  erase-Uniq k [] u = tt
  erase-Uniq k (x ∷ l) (fresh, u) = ground (arith, erase-Uniq k l u, find-erase (key x) k l)

  uniq-Uniq : (l : List A) → Uniq (uniq eqk key l)
  unfolding uniq
  uniq-Uniq [] = tt
  uniq-Uniq (x ∷ l) = (
    rw (find-erase (key x) (key x), (eqk_iff (key x) (key x)).1 refl),
    erase-Uniq (key x) (uniq eqk key l) (uniq-Uniq l),
  )

  find-keep :
      (p : A → Bool) (j : K) (l : List A)
      → Uniq l
      → find eqk key j (keep eqk key p l) ≡ passing p (find eqk key j l)
  unfolding find keep
  find-keep p j [] u = refl
  find-keep p j (x ∷ l) (fresh, u) = ground (arith, find-keep p j l u, eqk_iff j (key x))

  pub find-listing :
      (p : A → Bool) (j : K) (l : List A)
      → find eqk key j (listing eqk key p l) ≡ passing p (find eqk key j l)
  unfolding listing
  find-listing p j l = rw (find-keep p j (uniq eqk key l) (uniq-Uniq l), find-uniq j l)

  keep-Uniq : (p : A → Bool) (l : List A) → Uniq l → Uniq (keep eqk key p l)
  unfolding keep
  keep-Uniq p [] u = tt
  keep-Uniq p (x ∷ l) (fresh, u) = elim (Bool-cases (p x)) [
    | inl e ↦ rw e (rw (find-keep p (key x) l u, fresh) refl, keep-Uniq p l u)
    | inr e ↦ rw e (keep-Uniq p l u)
  ]

  -- No two objects of a listing have one key.
  pub listing-Uniq : (p : A → Bool) (l : List A) → Uniq (listing eqk key p l)
  unfolding listing
  listing-Uniq p l = keep-Uniq p (uniq eqk key l) (uniq-Uniq l)

  In-of_keep : (p : A → Bool) (y : A) (l : List A) → In y (keep eqk key p l) → In y l × (p y ≡ true)
  unfolding keep
  In-of_keep p y [] m = absurd m
  In-of_keep p y (x ∷ l) m = elim (In-of_if (p x) x (keep eqk key p l) m) [
    | inl (e, q) ↦ (inl q, ap p q ∙ e)
    | inr m' ↦ let (n, py) = In-of_keep p y l m' in (inr n, py)
  ]

  In-keep : (p : A → Bool) (y : A) (l : List A) → In y l → p y ≡ true → In y (keep eqk key p l)
  unfolding keep
  In-keep p y [] m py = absurd m
  In-keep p y (x ∷ l) (inl q) py = rw (sym (ap p q) ∙ py) (inl q)
  In-keep p y (x ∷ l) (inr m) py = In-if_later y (p x) x (keep eqk key p l) (In-keep p y l m py)

  find-In : (y : A) (l : List A) → Uniq l → In y l → find eqk key (key y) l ≡ some y
  unfolding find
  find-In y [] u m = absurd m
  find-In y (x ∷ l) (fresh, u) (inl q) = ground (arith, eqk_iff (key y) (key x), ap key q)
  find-In y (x ∷ l) (fresh, u) (inr m) =
      ground (arith, eqk_iff (key y) (key x), find-In y l u m, fresh)

  In-of_find : (k : K) (y : A) (l : List A) → find eqk key k l ≡ some y → In y l
  unfolding find
  In-of_find k y [] h = absurd (cc h)
  In-of_find k y (x ∷ l) h = elim (Bool-cases (eqk k (key x))) [
    | inl e ↦ inl (some-injective y x (sym h ∙ rw e))
    | inr e ↦ inr (In-of_find k y l (ground arith))
  ]

  -- A listing holds the objects that are found under their keys and pass the test.
  pub In-listing :
      (p : A → Bool) (y : A) (l : List A)
      → In y (listing eqk key p l) ↔ ((find eqk key (key y) l ≡ some y) × (p y ≡ true))
  unfolding listing
  In-listing p y l = (
    (λ m.
        let (n, py) = In-of_keep p y (uniq eqk key l) m in
        (sym (find-uniq (key y) l) ∙ find-In y (uniq eqk key l) (uniq-Uniq l) n, py)),
    (λ h.
        In-keep p y (uniq eqk key l)
          (In-of_find (key y) y (uniq eqk key l) (find-uniq (key y) l ∙ h.0)) h.1),
  )
