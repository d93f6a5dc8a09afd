-- ===== src/Tests/Succeeding.antt =====
-- A whole run of the reconciler of global users over two clusters.
use mathlib.Core.Path.{subst}
use mathlib.Core.Option.{some-ne-none}
use auth_explore.Base.{
  String, ◌≡◌, refl, sym, ap, ◌∙◌, ◌≢◌, true, none, some, List, [], ◌∷◌, In, inl, inr, map, eq_iff,
  Bool-cases, ne-of_test, ◌==◌,
}
use auth_explore.Base.Exec.{ok}
use auth_explore.Kube.{Namespace, Request, has_label}
use auth_explore.Kube.Server.{Distinct}
use auth_explore.Kube.Memory.{Machine, find_namespace, find_binding, namespace_key, or_not_found}
use auth_explore.Kube.Memory.Table.{find, Uniq, listing-Uniq}
use auth_explore.Kube.Memory.Lawful.Views.{cluster, view}
use auth_explore.Controller.{subject_index}
use auth_explore.Reconcilers.{org_label, subject_name_index}
use auth_explore.Reconcilers.Bindings.{role_binding}
use auth_explore.Reconcilers.Bindings.Granting.{nil, cons, requested, bindings_of}
use auth_explore.Reconcilers.GlobalUsers.{ns_name, GlobalUserReconciler, reconcile}
use auth_explore.Reconcilers.GlobalUsers.Grants.{Served}
use auth_explore.Reconcilers.GlobalUsers.Complete.{Once, Ready, Open, reconcile_succeeds}
use auth_explore.Tests.Sample.{M, M-IsServer, M-IsHealthy, root, start, old_namespace, one_ne_two}

abbrev G : GlobalUserReconciler M
G = record { client = "management"; cluster_clients = ("one", "one") ∷ ("two", "two") ∷ [] }

both-Distinct : Distinct {A = String} (("one", "one") ∷ ("two", "two") ∷ [])
both-Distinct = ((one_ne_two, tt), (tt, tt))

abbrev request : Request
request = record { namespace = "org"; name = "root" }

names-apart :
    (n : String) (l : List Namespace)
    → find ◌==◌ namespace_key n l ≡ none
    → (m : String) → In m (map ns_name l)
    → m ≢ n
unfolding find
names-apart n [] e m i = absurd i
names-apart n (ns ∷ l) e m i = elim (Bool-cases (n == ns.name)) [
  | inl t ↦ absurd (cc (rw t at e))
  | inr t ↦ elim i [
    | inl p ↦ λ q. ne-of_test n ns.name t (sym q ∙ p)
    | inr i' ↦ names-apart n l (rw t at e) m i'
  ]
]

Uniq-Once : (l : List Namespace) → Uniq ◌==◌ namespace_key eq_iff l → Once (map ns_name l)
Uniq-Once [] u = tt
Uniq-Once (ns ∷ l) (fresh, u) = (names-apart ns.name l fresh, Uniq-Once l u)

at_one : (ns : Namespace) → (view start "one").namespaces ns.name ≡ some ns → ns.name ≡ "old-x"
unfolding cluster find_namespace find
at_one ns there = elim (Bool-cases (ns.name == "old-x")) [
  | inl t ↦ (eq_iff ns.name "old-x").0 t
  | inr t ↦ absurd (cc (rw t at there))
]

at_two : (j : String) → (view start "two").namespaces j ≡ none
unfolding cluster find_namespace find
at_two j = refl

old-Ready : Ready root (view start "one") "old-x"
unfolding cluster find_namespace find_binding find requested bindings_of role_binding
old-Ready = (some-ne-none old_namespace, cons refl nil)

listed :
    (cl : String) (w : Machine)
    → (l : List Namespace) × ((M.list_namespaces cl org_label w).0 ≡ ok l) × Once (map ns_name l)
listed cl w = (_, refl, Uniq-Once _ (listing-Uniq ◌==◌ namespace_key eq_iff _ _))

abbrev Opened : String → Type 0
Opened cl = Open M subject_name_index subject_index M-IsServer M-IsHealthy root cl start

one-Open : Opened "one"
one-Open = record {
  listed = λ w _. listed "one" w;
  ready =
      λ ns there _. subst (λ n. Ready root (view start "one") n) (sym (at_one ns there)) old-Ready;
}

two-Open : Opened "two"
two-Open = record {
  listed = λ w _. listed "two" w;
  ready = λ ns there _. absurd (some-ne-none ns (sym there ∙ at_two ns.name));
}

clients-Open :
    (name cl : String)
    → In {A = String × String} (name, cl) (("one", "one") ∷ ("two", "two") ∷ [])
    → Opened cl
clients-Open name cl (inl e) = subst Opened (sym (ap (λ (p : String × String). p.1) e)) one-Open
clients-Open name cl (inr (inl e)) =
    subst Opened (sym (ap (λ (p : String × String). p.1) e)) two-Open
clients-Open name cl (inr (inr n)) = absurd n

found : (M.get_global_user "management" request start).0 ≡ ok root
unfolding or_not_found find
found = refl

reconcile_succeeds_example :
    ((reconcile M G request start).0 ≡ ok tt)
    × ((name cl : String) (ns : Namespace)
        → In {A = String × String} (name, cl) (("one", "one") ∷ ("two", "two") ∷ [])
        → (view start cl).namespaces ns.name ≡ some ns
        → has_label org_label ns.labels ≡ true
        → Served root ns (view start cl) (view (reconcile M G request start).1 cl))
reconcile_succeeds_example =
    reconcile_succeeds M subject_name_index subject_index M-IsServer M-IsHealthy G request root
      start both-Distinct found clients-Open
