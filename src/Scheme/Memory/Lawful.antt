-- ===== src/Scheme/Memory/Lawful.antt =====
-- The scheme in memory does what the registration relies on.
use auth_explore.Base.{
  String, Bool, ◌≡◌, refl, sym, ap, ◌∙◌, ◌≢◌, ◌⊎◌, inl, inr, true, false, List, [], ◌∷◌, contains,
  ◌==◌, ◌&&◌, eq_iff, eq_self, eq-of-ne, Bool-cases, arith,
}
use auth_explore.Base.Exec.{ok, Result-cases, ◌>>◌}
use auth_explore.Scheme.{GroupVersion, GoType}
use auth_explore.Scheme.Registry.{Gvk, Fits, Only, Entered, Extended, IsRegistry}
use auth_explore.Scheme.Memory.{
  Store, same_version, same_type, same_kind, with_kind, put, enter, enter_all, watch_event, memory,
}

same_version_self : (v : GroupVersion) → same_version v v ≡ true
same_version_self v = rw (eq_self v.group, eq_self v.version) refl

same_type_self : (t : GoType) → same_type t t ≡ true
same_type_self t = rw (eq_self t.pkg_path, eq_self t.name) refl

same_kind_self : (v : GroupVersion) (n : String) → same_kind (v, n) (v, n) ≡ true
same_kind_self v n = rw (same_version_self v, eq_self n) refl

and-true : (a b : Bool) → (a && b) ≡ true → (a ≡ true) × (b ≡ true)
and-true true b h = (refl, h)
and-true false b h = absurd (cc h)

same_version-eq : (v w : GroupVersion) → same_version v w ≡ true → v ≡ w
same_version-eq v w h =
    let (g, x) = and-true (v.group == w.group) _ h in
    ap (λ g. record { group = g; version = v.version }) ((eq_iff v.group w.group).0 g)
    ∙ ap (λ x. record { group = w.group; version = x }) ((eq_iff v.version w.version).0 x)

same_kind-false :
    (gv v : GroupVersion) (m n : String) → (v ≢ gv) ⊎ (m ≢ n) → same_kind (gv, m) (v, n) ≡ false
same_kind-false gv v m n other = elim (Bool-cases (same_kind (gv, m) (v, n))) [
  | inr f ↦ f
  | inl t ↦
      let (e, e') = and-true (same_version gv v) _ t in
      elim other [
        | inl h ↦ absurd (h (sym (same_version-eq gv v e)))
        | inr h ↦ absurd (h ((eq_iff m n).0 e'))
      ]
]

same_type-false :
    (t u : GoType) → (t.pkg_path ≢ u.pkg_path) ⊎ (t.name ≢ u.name) → same_type t u ≡ false
same_type-false t u other = elim (Bool-cases (same_type t u)) [
  | inr f ↦ f
  | inl h ↦
      let (e, e') = and-true (t.pkg_path == u.pkg_path) _ h in
      elim other [
        | inl d ↦ absurd (d ((eq_iff t.pkg_path u.pkg_path).0 e))
        | inr d ↦ absurd (d ((eq_iff t.name u.name).0 e'))
      ]
]

enter-eq :
    (gv : GroupVersion) (t : GoType) (s : Store)
    → gv.version ≢ ""
    → Fits (s.known gv t.name) t
    → enter gv t s ≡ (ok tt, put gv t s)
enter-eq gv t s version (inl e) = rw (eq-of-ne gv.version "" version, e) refl
enter-eq gv t s version (inr e) = rw (eq-of-ne gv.version "" version, e, same_type_self t) refl

with_kind-Only :
    (v : GroupVersion) (n : String) (l : List Gvk)
    → Only l (v, n)
    → with_kind (v, n) l ≡ (v, n) ∷ []
with_kind-Only v n l (inl e) = rw e refl
with_kind-Only v n l (inr e) = rw (e, same_kind_self v n) refl

put-Entered :
    (gv : GroupVersion) (t : GoType) (s : Store)
    → Entered (λ s. s.known) (λ s. s.kinds) gv (t ∷ []) s (ok tt, put gv t s)
put-Entered gv t s = record {
  answer = refl;
  resolved = (rw (same_kind_self gv t.name) refl, tt);
  only = (λ o. rw (same_type_self t) (with_kind-Only gv t.name (s.kinds t) o), tt);
  others = λ v n other.
      rw (same_kind-false gv v t.name n (elim other [ inl h ↦ inl h | inr (h, _) ↦ inr h ])) refl;
  other_types = λ u (h, _). rw (same_type-false t u (inr h)) refl;
}

enter-Entered :
    (gv : GroupVersion) (t : GoType) (s : Store)
    → gv.version ≢ ""
    → Fits (s.known gv t.name) t
    → Entered (λ s. s.known) (λ s. s.kinds) gv (t ∷ []) s (enter_all gv (t ∷ []) s)
enter-Entered gv t s version fits = rw (enter-eq gv t s version fits) (put-Entered gv t s)

enter_all-more :
    (gv : GroupVersion) (t : GoType) (ts : List GoType) (s : Store)
    → enter_all gv (t ∷ ts) s ≡ (enter_all gv (t ∷ []) >> enter_all gv ts) s
enter_all-more gv t ts s = elim (Result-cases (enter gv t s).0) [
  | inl (_, e) ↦ rw (e) refl
  | inr (_, e) ↦ rw (e) refl
]

-- The one kind of the library's own.
is_watch_event : (n : String) → contains ("WatchEvent" ∷ []) n ≢ false → "WatchEvent" ≡ n
is_watch_event n h = ground (arith, eq_iff "WatchEvent" n)

abbrev MetaFits : Store → Type 0
MetaFits s =
    (v : GroupVersion) (n : String)
    → contains ("WatchEvent" ∷ []) n ≢ false
    → Fits (s.known v n) watch_event

watch_event-Extended :
    (gv : GroupVersion) (s : Store)
    → gv.version ≢ ""
    → MetaFits s
    → Extended
        (λ s. s.known)
        (λ s. s.kinds)
        ("WatchEvent" ∷ [])
        watch_event.pkg_path
        s
        (enter gv watch_event s)
      × MetaFits (enter gv watch_event s).1
watch_event-Extended gv s version fits =
    let its = put-Entered gv watch_event s in
    let plain : (n : String) → contains ("WatchEvent" ∷ []) n ≡ false → "WatchEvent" ≢ n =
      λ n h. ground (arith, eq_iff "WatchEvent" n) in
    rw (enter-eq gv watch_event s version (fits gv "WatchEvent" (λ e. cc e))) (
      record {
        answer = refl;
        others = λ v n h. its.others v n (inr (plain n h, tt));
        other_types = λ u h. rw (same_type-false watch_event u (inl (λ e. h (sym e)))) refl;
      },
      λ v n h. elim (Bool-cases (same_kind (gv, "WatchEvent") (v, n))) [
        | inl t ↦ inr (rw t refl)
        | inr f ↦ rw f (fits v n h)
      ],
    )

pub memory-IsRegistry : IsRegistry memory
memory-IsRegistry = record {
  known = λ s. s.known;
  kinds = λ s. s.kinds;
  meta_kinds = "WatchEvent" ∷ [];
  meta_type = λ v n. watch_event;
  meta_pkg_path = watch_event.pkg_path;
  new_known = λ v n. refl;
  new_kinds = λ t. refl;
  add_none = λ gv s. record {
    answer = refl;
    resolved = tt;
    only = tt;
    others = λ v n h. refl;
    other_types = λ u h. refl;
  };
  add_more = enter_all-more;
  add_one = enter-Entered;
  add_meta = watch_event-Extended;
  meta_apart =
      ((refl, λ e. cc e), ((refl, λ e. cc e), ((refl, λ e. cc e), ((refl, λ e. cc e), tt))));
  build_none = λ s. refl;
  build_more = λ f fs s. refl;
  must_ok = refl;
}
