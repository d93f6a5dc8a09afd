-- ===== src/Scheme/Entering.antt =====
-- The registration of a list of types in the client library's scheme.
use auth_explore.Base.{String, ◌≡◌, sym, ap, ◌∙◌, ◌≢◌, inl, inr, List, [], ◌∷◌, All}
use auth_explore.Base.Exec.{Result, continue}
use auth_explore.Scheme.{GroupVersion, GoType, Stop, Runtime}
use auth_explore.Scheme.Registry.{Fits, Only, Named, Entered, IsRegistry}

-- The types have names of their own.
abbrev pub Differ : List GoType → Type 0
Differ [] = Unit
Differ (t ∷ ts) = Named ts t.name × Differ ts

module _ (L : Runtime) (R : IsRegistry L) (gv : GroupVersion) where
  open L use {Scheme}
  open R use {known, kinds}

  abbrev pub Free : List GoType → Scheme → Type 0
  Free ts s = All (λ t. Fits (known s gv t.name) t) ts

  Free-same :
      (t : GoType) (ts : List GoType) (s s' : Scheme)
      → ((n : String) → n ≢ t.name → known s' gv n ≡ known s gv n)
      → Named ts t.name
      → Free ts s
      → Free ts s'
  Free-same t [] s s' same apart free = tt
  Free-same t (u ∷ ts) s s' same (differs, apart) (fits, free) =
      (rw (same u.name differs) fits, Free-same t ts s s' same apart free)

  Only-same :
      (t : GoType) (ts : List GoType) (s s' s'' : Scheme)
      → ((u : GoType) → u.name ≢ t.name → kinds s' u ≡ kinds s u)
      → Named ts t.name
      → All (λ u. Only (kinds s' u) (gv, u.name) → kinds s'' u ≡ (gv, u.name) ∷ []) ts
      → All (λ u. Only (kinds s u) (gv, u.name) → kinds s'' u ≡ (gv, u.name) ∷ []) ts
  Only-same t [] s s' s'' same apart h = tt
  Only-same t (u ∷ ts) s s' s'' same (differs, apart) (h, hs) =
      (λ o. h (rw (same u differs) o), Only-same t ts s s' s'' same apart hs)

  Entered-cons :
      (t : GoType) (ts : List GoType) (s : Scheme) (first last : Result Stop Unit × Scheme)
      → Named ts t.name
      → Entered known kinds gv (t ∷ []) s first
      → Entered known kinds gv ts first.1 last
      → Entered known kinds gv (t ∷ ts) s last
  Entered-cons t ts s first last apart one rest = record {
    answer = rest.answer;
    resolved = (rest.others gv t.name (inr apart) ∙ one.resolved.0, rest.resolved);
    only = (
      (λ o. rest.other_types t apart ∙ one.only.0 o),
      Only-same t ts s first.1 last.1 (λ u d. one.other_types u ((λ e. d (sym e)), tt)) apart
          rest.only,
    );
    others = λ v n other. elim other [
      | inl e ↦ rest.others v n (inl e) ∙ one.others v n (inl e)
      | inr (d, ds) ↦ rest.others v n (inr ds) ∙ one.others v n (inr (d, tt))
    ];
    other_types = λ u (d, ds). rest.other_types u ds ∙ one.other_types u (d, tt);
  }

  -- Types that have names of their own and contradict nothing are all registered.
  pub add_known_types-Entered :
      (ts : List GoType) (s : Scheme)
      → gv.version ≢ ""
      → Differ ts
      → Free ts s
      → Entered known kinds gv ts s (L.add_known_types gv ts s)
  add_known_types-Entered [] s version differ free = R.add_none gv s
  add_known_types-Entered (t ∷ ts) s version (apart, differ) (fits, free) =
      let one = R.add_one gv t s version fits in
      let s' = (L.add_known_types gv (t ∷ []) s).1 in
      let free' =
        Free-same t ts s s' (λ n d. one.others gv n (inr ((λ e. d (sym e)), tt))) apart free in
      let ran : L.add_known_types gv (t ∷ ts) s ≡ L.add_known_types gv ts s' =
        R.add_more gv t ts s ∙ ap (λ r. continue r (λ _. L.add_known_types gv ts) s') one.answer in
      let rest = add_known_types-Entered ts s' version differ free' in
      rw ran (
        Entered-cons t ts s (L.add_known_types gv (t ∷ []) s) (L.add_known_types gv ts s') apart one
          rest)
