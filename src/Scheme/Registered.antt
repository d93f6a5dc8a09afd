-- ===== src/Scheme/Registered.antt =====
-- What pkg/apis/org/v1/register.go and the `init` of the scheme packages leave in the scheme.
use auth_explore.Base.{
  String, ◌≡◌, refl, ap, ◌∙◌, ◌≢◌, ◌⊎◌, inl, inr, false, none, some, List, [], ◌∷◌, In, All,
  All-map, All-of_In, All-at, contains, ne-of_test,
}
use auth_explore.Base.Exec.{Result, ok, Exec, continue}
use auth_explore.Scheme.{
  GroupVersion, GoType, Stop, Runtime, add_known_types, api_add_to_scheme, add_to_scheme, bare_v1,
  init, fake_init,
}
use auth_explore.Scheme.Registry.{
  api_types, api_version, Gvk, Fits, Only, Named, Entered, Extended, IsRegistry,
}
use auth_explore.Scheme.Entering.{Differ, add_known_types-Entered}

api_types-Differ : Differ api_types
api_types-Differ = (
  (
    ne-of_test "OrgList" "Org" refl,
    (ne-of_test "GlobalUser" "Org" refl, (ne-of_test "GlobalUserList" "Org" refl, tt)),
  ),
  (
    (ne-of_test "GlobalUser" "OrgList" refl, (ne-of_test "GlobalUserList" "OrgList" refl, tt)),
    ((ne-of_test "GlobalUserList" "GlobalUser" refl, tt), (tt, tt)),
  ),
)

module _ (L : Runtime) (R : IsRegistry L) where
  open L use {Scheme, build, new_scheme, add_to_group_version}
  open R use {known, kinds, meta_kinds, meta_type, meta_pkg_path, meta_apart}

  -- What the library registers is what it registers everywhere.
  abbrev pub MetaFits : Scheme → Type 0
  MetaFits s =
      (v : GroupVersion) (n : String)
      → contains meta_kinds n ≢ false
      → Fits (known s v n) (meta_type v n)

  abbrev pub its_kind : GoType → Gvk
  its_kind t = (api_version, t.name)

  abbrev Resolves : Scheme → GoType → Type 0
  Resolves s t = known s api_version t.name ≡ some t

  abbrev MayResolve : Scheme → GoType → Type 0
  MayResolve s t = Fits (known s api_version t.name) t

  abbrev IsOnly : Scheme → GoType → Type 0
  IsOnly s t = kinds s t ≡ its_kind t ∷ []

  abbrev MayBeOnly : Scheme → GoType → Type 0
  MayBeOnly s t = Only (kinds s t) (its_kind t)

  -- Each of the four kinds stands for its type, and each of the four types is registered as its kind
  -- and as nothing else.
  pub record Registered (s : Scheme) : Type 0 where
    pub resolved : All (Resolves s) api_types
    pub only : All (IsOnly s) api_types
    pub meta : MetaFits s

  -- Nothing stands in the way of that.
  pub record Ready (s : Scheme) : Type 0 where
    pub resolved : All (MayResolve s) api_types
    pub only : All (MayBeOnly s) api_types
    pub meta : MetaFits s

  pub record Done (s : Scheme) (res : Result Stop Unit × Scheme) : Type 0 where
    pub answer : res.0 ≡ ok tt
    pub registered : Registered res.1
    pub others :
        (v : GroupVersion) (n : String)
        → contains meta_kinds n ≡ false
        → (v ≢ api_version) ⊎ Named api_types n
        → known res.1 v n ≡ known s v n

  Registered-Ready : (s : Scheme) → Registered s → Ready s
  Registered-Ready s h = record {
    resolved = All-map {P = Resolves s} {Q = MayResolve s} api_types (λ t e. inr e) h.resolved;
    only = All-map {P = IsOnly s} {Q = MayBeOnly s} api_types (λ t e. inr e) h.only;
    meta = h.meta;
  }

  abbrev Apart : GoType → Type 0
  Apart t = (contains meta_kinds t.name ≡ false) × (t.pkg_path ≢ meta_pkg_path)

  -- A kind of the library's own is none of the four.
  meta-Named :
      (ts : List GoType) (n : String) → contains meta_kinds n ≢ false → All Apart ts → Named ts n
  meta-Named [] n h apart = tt
  meta-Named (t ∷ ts) n h ((f, _), apart) = (λ e. h (rw e at f), meta-Named ts n h apart)

  MetaFits-Entered :
      (s : Scheme) (res : Result Stop Unit × Scheme)
      → Entered known kinds api_version api_types s res
      → MetaFits s
      → MetaFits res.1
  MetaFits-Entered s res e fits v n h =
      rw (e.others v n (inr (meta-Named api_types n h meta_apart))) (fits v n h)

  Entered-Done :
      (s : Scheme) (first last : Result Stop Unit × Scheme)
      → Ready s
      → Entered known kinds api_version api_types s first
      → Extended known kinds meta_kinds meta_pkg_path first.1 last
      → MetaFits last.1
      → Done s last
  Entered-Done s first last ready e x fits =
      let apart = λ (t : GoType) (m : In t api_types). All-at Apart api_types t meta_apart m in
      record {
        answer = x.answer;
        registered = record {
          resolved = All-of_In (Resolves last.1) api_types (λ t m.
              x.others api_version t.name (apart t m).0
              ∙ All-at (Resolves first.1) api_types t e.resolved m);
          only = All-of_In (IsOnly last.1) api_types (λ t m.
              x.other_types t (apart t m).1
              ∙ (All-at (λ t. MayBeOnly s t → IsOnly first.1 t) api_types t e.only m)
                  (All-at (MayBeOnly s) api_types t ready.only m));
          meta = fits;
        };
        others = λ v n plain other. x.others v n plain ∙ e.others v n other;
      }

  Done-nil : (s : Scheme) (res : Result Stop Unit × Scheme) → Done s res → Done s (ok tt, res.1)
  Done-nil s res h = record { answer = refl; registered = h.registered; others = h.others }

  add_known_types-Done : (s : Scheme) → Ready s → Done s (add_known_types L s)
  unfolding add_known_types
  add_known_types-Done s ready =
      let version = ne-of_test "v1" "" refl in
      let gv = api_version in
      let first = L.add_known_types gv api_types s in
      let e = add_known_types-Entered L R gv api_types s version api_types-Differ ready.resolved in
      let (x, fits) = R.add_meta gv first.1 version (MetaFits-Entered s first e ready.meta) in
      let last = add_to_group_version gv first.1 in
      let ran : add_known_types L s ≡ (ok tt, last.1) = rw (e.answer, x.answer) refl in
      rw ran (Done-nil s last (Entered-Done s first last ready e x fits))

  build_one :
      (f : Exec Scheme Stop Unit) (s : Scheme)
      → (f s).0 ≡ ok tt
      → build (f ∷ []) s ≡ (ok tt, (f s).1)
  build_one f s h =
      R.build_more f [] s ∙ ap (λ r. continue r (λ _. build []) (f s).1) h ∙ R.build_none (f s).1

  -- A `SchemeBuilder` of one function does what this function does.
  build-Done : (f : Exec Scheme Stop Unit) (s : Scheme) → Done s (f s) → Done s (build (f ∷ []) s)
  build-Done f s h = rw (build_one f s h.answer) (Done-nil s (f s) h)

  -- Where nothing stands in the way, `AddToScheme` returns `nil` and has registered the four types.
  pub add_to_scheme-Done : (s : Scheme) → Ready s → Done s (add_to_scheme L s)
  add_to_scheme-Done s ready =
      build-Done (api_add_to_scheme L) s
        (build-Done (add_known_types L) s (add_known_types-Done s ready))

  -- The library's own registration leaves an empty scheme ready, and returns `nil`.
  abbrev bare : Result Stop Unit × Scheme
  bare = add_to_group_version bare_v1 new_scheme

  bare-Ready : Ready bare.1 × Extended known kinds meta_kinds meta_pkg_path new_scheme bare
  bare-Ready =
      let (x, fits) =
        R.add_meta bare_v1 new_scheme (ne-of_test "v1" "" refl) (λ v n h. inl (R.new_known v n)) in
      let apart = λ (t : GoType) (m : In t api_types). All-at Apart api_types t meta_apart m in
      (
        record {
          resolved =
              All-of_In (MayResolve bare.1) api_types
                (λ t m. inl (x.others api_version t.name (apart t m).0 ∙ R.new_known _ _));
          only =
              All-of_In (MayBeOnly bare.1) api_types
                (λ t m. inl (x.other_types t (apart t m).1 ∙ R.new_kinds t));
          meta = fits;
        },
        x,
      )

  init-answer : init L new_scheme ≡ (ok tt, (add_to_scheme L bare.1).1)
  unfolding init
  init-answer =
      let (ready, x) = bare-Ready in
      let d = add_to_scheme-Done bare.1 ready in
      rw (x.answer, d.answer) (ap (λ r. (r, (add_to_scheme L bare.1).1)) R.must_ok)

  -- The `init` of the scheme package does not panic. Then each of the four kinds Org, OrgList,
  -- GlobalUser and GlobalUserList of the group and version stands for the Go type of its name in the
  -- API's package, which is registered as this kind only, and apart from the library's own kinds
  -- nothing else is registered. `AddToScheme` once more returns `nil`, and it is so still. The `init`
  -- of the fake package does the same.
  pub init-Registered :
      ((init L new_scheme).0 ≡ ok tt)
      × Registered (init L new_scheme).1
      × ((v : GroupVersion) (n : String)
          → contains meta_kinds n ≡ false
          → (v ≢ api_version) ⊎ Named api_types n
          → known (init L new_scheme).1 v n ≡ none)
      × Done (init L new_scheme).1 (add_to_scheme L (init L new_scheme).1)
      × (fake_init L new_scheme ≡ init L new_scheme)
  unfolding init fake_init
  init-Registered =
      let (ready, x) = bare-Ready in
      let d = add_to_scheme-Done _ ready in
      rw init-answer (
        refl,
        d.registered,
        λ v n plain other. d.others v n plain other ∙ x.others v n plain ∙ R.new_known v n,
        add_to_scheme-Done _ (Registered-Ready _ d.registered),
        refl,
      )
