-- ===== src/Scheme/Memory.antt =====
-- A scheme in memory, to run the registration on. Of the library's own kinds it has one.
pub mod Lawful
use auth_explore.Base.{
  String, Bool, ◌≡◌, refl, sym, ap, ◌∙◌, ◌≢◌, ◌⊎◌, inl, inr, true, false, Option, none, some, List,
  [], ◌∷◌, contains, ◌==◌, ◌&&◌, if◌then◌else◌, eq_iff, eq_self, eq-of-ne, ne-of_test, Bool-cases,
  arith,
}
use auth_explore.Base.Exec.{Result, ok, err, Exec, pure, Result-cases, continue, ◌>>=◌, ◌>>◌}
use auth_explore.Scheme.{GroupVersion, GoType, Stop, failed, panicked, Runtime}
use auth_explore.Scheme.Registry.{Gvk, Fits, Only, Named, Entered, Extended, IsRegistry}

pub record Store : Type 0 where
  pub known : GroupVersion → String → Option GoType
  pub kinds : GoType → List Gvk

abbrev pub same_version : GroupVersion → GroupVersion → Bool
same_version v w = (v.group == w.group) && (v.version == w.version)

abbrev pub same_type : GoType → GoType → Bool
same_type t u = (t.pkg_path == u.pkg_path) && (t.name == u.name)

abbrev pub same_kind : Gvk → Gvk → Bool
same_kind (v, n) (w, m) = same_version v w && (n == m)

abbrev pub with_kind : Gvk → List Gvk → List Gvk
with_kind k [] = k ∷ []
with_kind k (j ∷ l) = let rest = with_kind k l in if same_kind k j then j ∷ l else j ∷ rest

abbrev pub put : GroupVersion → GoType → Store → Store
put gv t s = record {
  known = λ v n. if same_kind (gv, t.name) (v, n) then some t else s.known v n;
  kinds = λ u. if same_type t u then with_kind (gv, t.name) (s.kinds u) else s.kinds u;
}

abbrev place : GroupVersion → GoType → Option GoType → Exec Store Stop Unit
place gv t none s = (ok tt, put gv t s)
place gv t (some u) s =
    if same_type u t then (ok tt, put gv t s) else (err (panicked "double registration"), s)

abbrev pub enter : GroupVersion → GoType → Exec Store Stop Unit
enter gv t s =
    if gv.version == ""
    then (err (panicked "version is required"), s)
    else place gv t (s.known gv t.name) s

abbrev pub enter_all : GroupVersion → List GoType → Exec Store Stop Unit
enter_all gv [] s = (ok tt, s)
enter_all gv (t ∷ ts) s = (enter gv t >> enter_all gv ts) s

abbrev pub watch_event : GoType
watch_event = record { pkg_path = "k8s.io/apimachinery/pkg/apis/meta/v1"; name = "WatchEvent" }

abbrev pub build_all : List (Exec Store Stop Unit) → Exec Store Stop Unit
build_all [] s = (ok tt, s)
build_all (f ∷ fs) s = (f >> build_all fs) s

abbrev or_panic : Result Stop Unit → Result Stop Unit
or_panic (err (failed e)) = err (panicked e)
or_panic r = r

abbrev pub memory : Runtime
memory = record {
  Scheme = Store;
  new_scheme = record { known = λ v n. none; kinds = λ t. [] };
  add_known_types = enter_all;
  add_to_group_version = λ gv. enter gv watch_event;
  build = build_all;
  must = or_panic;
}
