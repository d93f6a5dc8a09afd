-- ===== src/Tests/Indexing.antt =====
-- Runs of the indexing program's functions.
use mathlib.Core.Path.{subst}
use mathlib.Core.Option.{some-injective}
use auth_explore.Base.{
  String, ◌≡◌, refl, sym, ◌↔◌, inl, inr, Bool, true, ◌&&◌, some, List, [], ◌∷◌, In, contains, ◌==◌,
  eq_iff, if◌then◌else◌, Bool-cases, ap, ◌∙◌,
}
use auth_explore.Base.Exec.{ok, ok-injective}
use auth_explore.Indexing.{
  Pod, pod_object, container_names, get_process_guid, PodClient, pods_count, first_pod,
  perform_listings, list_labels,
}
use auth_explore.Indexing.Listed.{IsPodServer, Prefix, perform_listings-Prefix}

abbrev keep : (Pod → Bool) → List Pod → List Pod
keep q [] = []
keep q (p ∷ ps) = if q p then p ∷ keep q ps else keep q ps

-- A pod of the namespace that is indexed under the value.
abbrev selected : String → String → Pod → Bool
selected n x p = p.namespace == n && contains (container_names [] p.containers) x

abbrev pods : PodClient
pods = record { World = List Pod; list_pods = λ n f x w. (ok (keep (selected n x) w), w) }

In-keep : (q : Pod → Bool) (l : List Pod) (p : Pod) → In p (keep q l) ↔ (In p l × (q p ≡ true))
In-keep q [] p = (λ m. absurd m, λ h. absurd h.0)
In-keep q (r ∷ l) p = elim (Bool-cases (q r)) [
  | inl e ↦ rw e (
    λ m. elim m [
      | inl s ↦ (inl s, ap q s ∙ e)
      | inr t ↦ let (i, k) = (In-keep q l p).0 t in (inr i, k)
    ],
    λ (m, k). elim m [ inl s ↦ inl s | inr t ↦ inr ((In-keep q l p).1 (t, k)) ],
  )
  | inr e ↦ rw e (
    λ m. let (i, k) = (In-keep q l p).0 m in (inr i, k),
    λ (m, k). elim m [
      | inl s ↦ absurd (cc (sym (ap q s) ∙ k, e))
      | inr t ↦ (In-keep q l p).1 (t, k)
    ],
  )
]

contains-In : (l : List String) (s : String) → (contains l s ≡ true) ↔ In s l
contains-In [] s = (λ h. absurd (cc h), λ m. absurd m)
contains-In (t ∷ l) s = elim (Bool-cases (t == s)) [
  | inl e ↦ rw e (λ _. inl (sym ((eq_iff t s).0 e)), λ _. refl)
  | inr e ↦ rw e (
    λ h. inr ((contains-In l s).0 h),
    λ m. elim m [
      | inl i ↦ absurd (cc (sym ((eq_iff t s).1 (sym i)) ∙ e))
      | inr i ↦ (contains-In l s).1 i
    ],
  )
]

abbrev Indexed : String → Pod → Type 0
Indexed x p = (names : List String) × (get_process_guid (pod_object p) ≡ some names) × In x names

selected_iff :
    (n x : String) (p : Pod) → (selected n x p ≡ true) ↔ ((p.namespace ≡ n) × Indexed x p)
unfolding get_process_guid
selected_iff n x p =
    let names = container_names [] p.containers in
    (
      λ h. elim (Bool-cases (p.namespace == n)) [
        | inl e ↦ ((eq_iff p.namespace n).0 e, (names, refl, (contains-In names x).0 (rw e at h)))
        | inr e ↦ absurd (cc (rw e at h))
      ],
      λ (e, (l, f, m)). rw ((eq_iff p.namespace n).1 e) (
          (contains-In names x).1
            (subst (λ (k : List String). In x k) (sym (some-injective _ _ f)) m)),
    )

keep-selected :
    (n x : String) (w l : List Pod)
    → keep (selected n x) w ≡ l
    → (p : Pod) → In p l ↔ (In p w × (p.namespace ≡ n) × Indexed x p)
keep-selected n x w l h p =
    subst (λ (k : List Pod). In p k ↔ (In p w × (p.namespace ≡ n) × Indexed x p)) h
      (
        λ m.
            let (i, k) = (In-keep (selected n x) w p).0 m in
            let (e, f) = (selected_iff n x p).0 k in (i, e, f),
        λ (i, e, f). (In-keep (selected n x) w p).1 (i, (selected_iff n x p).1 (e, f)),
      )

abbrev pods-IsPodServer : IsPodServer pods
pods-IsPodServer = record {
  has_pod = λ w p. In p w;
  list_pods_world = λ n f x w. refl;
  list_pods_ok = λ n x w l h. keep-selected n x w l (ok-injective h);
}

abbrev manager : Pod
manager = record {
  namespace = "hnc-system";
  name = "hnc-0";
  containers = record { name = "kube-rbac-proxy" } ∷ record { name = "manager" } ∷ [];
}

abbrev elsewhere : Pod
elsewhere = record {
  namespace = "default";
  name = "app";
  containers = record { name = "manager" } ∷ [];
}

abbrev two_pods : List Pod
two_pods = elsewhere ∷ manager ∷ []

perform_listings_printed :
    (perform_listings pods two_pods).printed
    ≡ pods_count 1 ∷ first_pod "hnc-0" ∷ pods_count 1 ∷ first_pod "hnc-0" ∷ pods_count 0 ∷ []
unfolding perform_listings list_labels container_names
perform_listings_printed = refl

perform_listings-Prefix_example :
    Prefix pods pods-IsPodServer two_pods
      ("manager" ∷ "kube-rbac-proxy" ∷ "arghhh" ∷ [])
      (perform_listings pods two_pods).printed
      (perform_listings pods two_pods).answer
perform_listings-Prefix_example = perform_listings-Prefix pods pods-IsPodServer two_pods

abbrev manager_names : List String
manager_names = "kube-rbac-proxy" ∷ "manager" ∷ []

get_process_guid-manager : get_process_guid (pod_object manager) ≡ some manager_names
unfolding get_process_guid container_names
get_process_guid-manager = refl
