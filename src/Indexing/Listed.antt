-- ===== src/Indexing/Listed.antt =====
-- What `performListings` of process-indexing/main.go prints.
use mathlib.Core.Path.{subst}
use mathlib.Core.List.{append_assoc, append-nil}
use mathlib.Core.Option.{some-injective}
use auth_explore.Base.{
  String, ◌≡◌, refl, sym, ap, ◌∙◌, ◌↔◌, ◌⊎◌, inl, inr, some, List, [], ◌∷◌, ◌++◌, In,
  In-append_left, In-append_right,
}
use auth_explore.Base.Exec.{Result, ok, err, Result-cases}
use auth_explore.Kube.{ApiError}
use auth_explore.Indexing.{
  Container, Pod, pod_object, index_field, container_names, get_process_guid, PodClient, Line,
  Error, list_pods_failed, labels, report, list_labels, perform_listings,
}

-- The pod has a container of this name.
pub record Runs (name : String) (p : Pod) : Type 0 where
  pub container : Container
  pub member : In container p.containers
  pub named : container.name ≡ name

In-append_cases : {A : Type 0} (x : A) (xs ys : List A) → In x (xs ++ ys) → In x xs ⊎ In x ys
In-append_cases x [] ys m = inr m
In-append_cases x (y ∷ xs) ys (inl e) = inl (inl e)
In-append_cases x (y ∷ xs) ys (inr m) = elim (In-append_cases x xs ys m) [
  | inl l ↦ inl (inr l)
  | inr r ↦ inr r
]

abbrev Named : String → List Container → Type 0
Named s [] = ⊥
Named s (c ∷ cs) = (c.name ≡ s) ⊎ Named s cs

container_names-In :
    (s : String) (processes : List String) (cs : List Container)
    → In s (container_names processes cs) ↔ (In s processes ⊎ Named s cs)
unfolding container_names
container_names-In s processes [] = (λ m. inl m, λ h. elim h [ inl m ↦ m | inr n ↦ absurd n ])
container_names-In s processes (c ∷ cs) =
    let rest = container_names-In s (processes ++ (c.name ∷ [])) cs in
    (
      λ m. elim (rest.0 m) [
        | inr n ↦ inr (inr n)
        | inl n ↦ elim (In-append_cases s processes _ n) [
          | inl l ↦ inl l
          | inr (inl e) ↦ inr (inl (sym e))
          | inr (inr e) ↦ absurd e
        ]
      ],
      λ h. elim h [
        | inl m ↦ rest.1 (inl (In-append_left s processes _ m))
        | inr (inl e) ↦ rest.1 (inl (In-append_right s processes _ (inl (sym e))))
        | inr (inr n) ↦ rest.1 (inr n)
      ],
    )

Named-In :
    (s : String) (cs : List Container) → Named s cs → (c : Container) × In c cs × (c.name ≡ s)
Named-In s [] n = absurd n
Named-In s (c ∷ cs) (inl e) = (c, inl refl, e)
Named-In s (c ∷ cs) (inr n) = let (d, m, e) = Named-In s cs n in (d, inr m, e)

In-Named : (c : Container) (cs : List Container) → In c cs → Named c.name cs
In-Named c [] m = absurd m
In-Named c (d ∷ cs) (inl e) = inl (ap (λ (x : Container). x.name) (sym e))
In-Named c (d ∷ cs) (inr m) = inr (In-Named c cs m)

-- A pod is indexed under the names of its containers and under no others.
pub get_process_guid-Runs :
    (p : Pod) (names : List String) (s : String)
    → get_process_guid (pod_object p) ≡ some names
    → In s names ↔ Runs s p
unfolding get_process_guid
get_process_guid-Runs p names s h =
    subst (λ (l : List String). In s l ↔ Runs s p) (some-injective _ _ h)
      (
        λ m. elim ((container_names-In s [] p.containers).0 m) [
          | inl e ↦ absurd e
          | inr n ↦
              let (c, member, named) = Named-In s p.containers n in
              record { container = c; member = member; named = named }
        ],
        λ r. (container_names-In s [] p.containers).1 (
            inr (
              subst (λ (t : String). Named t p.containers) r.named
                (In-Named r.container p.containers r.member))),
      )

module _ (C : PodClient) where
  open C use {World}

  -- What the program relies on: a list changes nothing, and it gives the pods of the namespace that
  -- the index function puts under the value.
  pub record IsPodServer : Type 1 where
    pub has_pod : World → Pod → Type 0
    pub list_pods_world : (n f x : String) (w : World) → (C.list_pods n f x w).1 ≡ w
    pub list_pods_ok :
        (n x : String) (w : World) (l : List Pod)
        → (C.list_pods n index_field x w).0 ≡ ok l
        → (p : Pod)
        → In p l ↔ (
            has_pod w p
            × (p.namespace ≡ n)
            × ((names : List String) × (get_process_guid (pod_object p) ≡ some names) × In x names))

module _ (C : PodClient) (S : IsPodServer C) where
  open C use {World}
  open S use {has_pod}

  -- These are the pods of the namespace that have a container named by the label.
  pub record Found (w : World) (label : String) (pods : List Pod) : Type 0 where
    pub sound : (p : Pod) → In p pods → has_pod w p × (p.namespace ≡ "hnc-system") × Runs label p
    pub complete : (p : Pod) → has_pod w p → p.namespace ≡ "hnc-system" → Runs label p → In p pods

  -- The lines for these labels, in their order.
  pub data Printed (w : World) : List String → List Line → Type 0 where
    nothing : Printed w [] []
    listing :
        {label : String} {rest : List String} {lines : List Line} (pods : List Pod)
        → Found w label pods
        → Printed w rest lines
        → Printed w (label ∷ rest) (report pods ++ lines)

  list_pods-Found :
      (label : String) (w : World) (pods : List Pod)
      → (C.list_pods "hnc-system" index_field label w).0 ≡ ok pods
      → Found w label pods
  unfolding get_process_guid
  list_pods-Found label w pods h = record {
    sound = λ p m.
        let (there, ns, (names, e, named)) = (S.list_pods_ok "hnc-system" label w pods h p).0 m in
        (there, ns, (get_process_guid-Runs p names label e).0 named);
    complete = λ p there ns r. (S.list_pods_ok "hnc-system" label w pods h p).1 (
      there,
      ns,
      (container_names [] p.containers, refl, (get_process_guid-Runs p _ label refl).1 r),
    );
  }

  -- How a run ends behind which these labels are left: with no error and none of them, or with the
  -- error of the list of the first of them.
  abbrev pub Ends : World → List String → Result Error Unit → Type 0
  Ends w [] answer = answer ≡ ok tt
  Ends w (label ∷ rest) answer =
      (e : ApiError) × ((C.list_pods "hnc-system" ".index.process.guid" label w).0 ≡ err e)
      × (answer ≡ err (list_pods_failed e))

  -- The run has printed the lines of the labels up to the one whose list failed, if one did.
  pub record Prefix (w : World) (all : List String) (printed : List Line)
      (answer : Result Error Unit) : Type 0 where
    pub done : List String
    pub left : List String
    pub split : all ≡ done ++ left
    pub lines : Printed w done printed
    pub ends : Ends w left answer

  list_labels-Prefix :
      (ls : List String) (printed : List Line) (w : World)
      → (lines : List Line) × ((list_labels C ls printed w).printed ≡ printed ++ lines)
        × Prefix w ls lines (list_labels C ls printed w).answer
  unfolding list_labels
  list_labels-Prefix [] printed w = (
    [],
    sym (append-nil printed),
    record { done = []; left = []; split = refl; lines = nothing; ends = refl },
  )
  list_labels-Prefix (label ∷ rest) printed w =
      elim (Result-cases (C.list_pods "hnc-system" index_field label w).0) [
        | inr (e, h) ↦
            rw (h, list_labels)
              (
                [],
                sym (append-nil printed),
                record {
                  done = [];
                  left = label ∷ rest;
                  split = refl;
                  lines = nothing;
                  ends = (e, h, refl);
                },
              )
        | inl (pods, h) ↦
            let (lines, e, p) = list_labels-Prefix rest (printed ++ report pods) w in
            rw (h, S.list_pods_world "hnc-system" index_field label w, list_labels)
              (
                report pods ++ lines,
                e ∙ append_assoc printed (report pods) lines,
                record {
                  done = label ∷ p.done;
                  left = p.left;
                  split = ap (λ (l : List String). label ∷ l) p.split;
                  lines = listing pods (list_pods-Found label w pods h) p.lines;
                  ends = p.ends;
                },
              )
      ]

  -- A run of `performListings` has printed, in the order of the labels manager, kube-rbac-proxy and
  -- arghhh, the report on each label up to the first one whose list failed. If no list failed, it has
  -- reported on all three and returns no error; otherwise it returns the error of the failed list. A
  -- report is on the pods of hnc-system that have a container named by the label, on all of them and
  -- on no others.
  pub perform_listings-Prefix :
      (w : World)
      → Prefix w
          ("manager" ∷ "kube-rbac-proxy" ∷ "arghhh" ∷ [])
          (perform_listings C w).printed
          (perform_listings C w).answer
  unfolding perform_listings
  perform_listings-Prefix w =
      let (lines, e, p) = list_labels-Prefix labels [] w in
      subst (λ (l : List Line). Prefix w labels l (list_labels C labels [] w).answer) (sym e) p
