-- ===== src/Controller/Main/Watching.antt =====
-- What `main` of cross-cluster-orgs/org-controller/main.go starts.
use mathlib.Core.Path.{subst}
use auth_explore.Base.{String, ◌≡◌, refl, sym, ◌∙◌, ◌⊎◌, inl, inr, List, [], ◌∷◌, ◌++◌, In}
use auth_explore.Base.Exec.{Result, ok, err, Exec, continue, settle, ◌>>=◌, Result-cases}
use auth_explore.Base.Exit.{Exit, checked, checked-step}
use auth_explore.Kube.{Client}
use auth_explore.Controller.{KubeObject, get_subject_user_name}
use auth_explore.Controller.Clusters.{
  config_path, cluster_names, connect, connect_all, get_cluster_clients, from_library, from_index,
}
use auth_explore.Controller.Main.{
  Options, manager_options, Kind, org_kind, global_user_kind, Cause, library, clusters_failed,
  Reconciler, Library, clusters, scheme_checked, new_org, new_global_user, start_manager,
  control_global_users, control_orgs, run_manager, make_manager, main,
}
use auth_explore.Reconcilers.{subject_name_index}

module _ (C : Client) (L : Library C) where
  open C use {World, Conn}
  open L use {Manager, Config, Cluster}

  -- What the program relies on: a new manager has no controllers, one that is completed is added to
  -- them, and the calls that make the clients of the clusters leave them alone.
  pub record IsManaging : Type 0 where
    pub controllers : World → Manager → List (Kind × Reconciler C)
    pub new_manager_ok :
        (config : Config) (options : Options) (w : World) (mgr : Manager)
        → (L.new_manager config options w).0 ≡ ok mgr
        → controllers (L.new_manager config options w).1 mgr ≡ []
    pub complete_ok :
        (mgr : Manager) (kind : Kind) (reconciler : Reconciler C) (w : World)
        → (L.complete mgr kind reconciler w).0 ≡ ok tt
        → controllers (L.complete mgr kind reconciler w).1 mgr
          ≡ controllers w mgr ++ (kind, reconciler) ∷ []
    pub build_config_keeps :
        (path : String) (w : World) (mgr : Manager)
        → controllers (L.build_config path w).1 mgr ≡ controllers w mgr
    pub new_cluster_keeps :
        (config : Config) (w : World) (mgr : Manager)
        → controllers (L.new_cluster config w).1 mgr ≡ controllers w mgr
    pub index_field_keeps :
        (cl : Cluster) (f : String) (index : KubeObject → List String) (w : World) (mgr : Manager)
        → controllers (L.index_field cl f index w).1 mgr ≡ controllers w mgr
    pub start_cache_keeps :
        (cl : Cluster) (w : World) (mgr : Manager)
        → controllers (L.start_cache cl w) mgr ≡ controllers w mgr

-- The messages of the errors that end the program before the manager is started.
abbrev pub early_messages : List String
early_messages =
    "an unexpected error occurred" ∷ "Failed to build kubeconfig"
    ∷ "failed to create k8s controller runtime manager" ∷ "failed to create cluster clients"
    ∷ "Failed to build controller" ∷ []

module _ (C : Client) (L : Library C) (S : IsManaging C L) where
  open C use {World, Conn}
  open L use {Manager, Config, Cluster}
  open S use {controllers}

  abbrev Outcome : Type 0
  Outcome = Result (Exit Cause) Unit × World

  pub record Stopped (out : Outcome) : Type 0 where
    pub exit : Exit Cause
    pub answer : out.0 ≡ err exit
    pub early : In exit.message early_messages

  -- The manager has been started in the world `began`, with the controllers of the two kinds and no
  -- other, and the program answers what the manager does.
  pub record Started (out : Outcome) : Type 0 where
    pub mgr : Manager
    pub connecting : World
    pub cluster_clients : List (String × Conn)
    pub began : World
    pub connected : (get_cluster_clients (clusters C L) connecting).0 ≡ ok cluster_clients
    pub controlled :
        controllers began mgr
        ≡ (org_kind, new_org C (L.manager_client mgr) cluster_clients)
          ∷ (global_user_kind, new_global_user C (L.manager_client mgr) cluster_clients)
          ∷ []
    pub ended : out ≡ checked "Failed to start manager" library (L.start mgr) began

  abbrev pub Ends : Outcome → Type 0
  Ends out = Stopped out ⊎ Started out

  -- A call leaves the controllers of the manager alone.
  abbrev Keeps : {E A : Type 0} → Manager → Exec World E A → Type 0
  Keeps mgr m = (w : World) → controllers (m w).1 mgr ≡ controllers w mgr

  Keeps-bind :
      {E A B : Type 0} (mgr : Manager) (m : Exec World E A) (f : A → Exec World E B)
      → Keeps mgr m
      → ((a : A) → Keeps mgr (f a))
      → Keeps mgr (m >>= f)
  Keeps-bind mgr m f keeps more w =
      let shape =
        λ (r : Result _ _). controllers (continue r f (m w).1).1 mgr ≡ controllers w mgr in
      elim (Result-cases (m w).0) [
        | inl (a, e) ↦ subst shape (sym e) (more a (m w).1 ∙ keeps w)
        | inr (x, e) ↦ subst shape (sym e) (keeps w)
      ]

  connect-Keeps : (mgr : Manager) (name : String) → Keeps mgr (connect (clusters C L) name)
  unfolding connect
  connect-Keeps mgr name =
      Keeps-bind mgr (settle from_library (L.build_config (config_path name))) _
        (λ w. S.build_config_keeps _ w mgr)
        (λ config.
          Keeps-bind mgr (settle from_library (L.new_cluster config)) _
            (λ w. S.new_cluster_keeps config w mgr)
            (λ cl.
              Keeps-bind mgr
                (settle (from_index name)
                  (L.index_field cl subject_name_index get_subject_user_name))
                _ (λ w. S.index_field_keeps cl _ _ w mgr) (λ _ w. S.start_cache_keeps cl w mgr)))

  connect_all-Keeps :
      (mgr : Manager) (names : List String) (result : List (String × Conn))
      → Keeps mgr (connect_all (clusters C L) names result)
  unfolding connect_all
  connect_all-Keeps mgr [] result = λ w. refl
  connect_all-Keeps mgr (name ∷ names) result =
      Keeps-bind mgr (connect (clusters C L) name) _ (connect-Keeps mgr name)
        (λ cl. connect_all-Keeps mgr names _)

  control_orgs-Ends :
      (mgr : Manager) (w w₁ : World) (clients : List (String × Conn))
      → (get_cluster_clients (clusters C L) w).0 ≡ ok clients
      → controllers w₁ mgr ≡ []
      → Ends (control_orgs C L mgr clients w₁)
  unfolding control_orgs control_global_users
  control_orgs-Ends mgr w w₁ clients connected none_yet =
      let org = new_org C (L.manager_client mgr) clients in
      let user = new_global_user C (L.manager_client mgr) clients in
      let w₂ = (L.complete mgr org_kind org w₁).1 in
      let fifth = inr (inr (inr (inr (inl refl)))) in
      checked-step Ends "Failed to build controller" library (L.complete mgr org_kind org)
        (λ _. control_global_users C L mgr clients) w₁
        (λ e _. inl (record { exit = _; answer = refl; early = fifth }))
        (λ _ first.
          checked-step Ends "Failed to build controller" library
            (L.complete mgr global_user_kind user) (λ _. start_manager C L mgr) w₂
            (λ e _. inl (record { exit = _; answer = refl; early = fifth }))
            (λ _ second. inr (record {
              mgr = mgr;
              connecting = w;
              cluster_clients = clients;
              began = (L.complete mgr global_user_kind user w₂).1;
              connected = connected;
              controlled =
                  rw
                    (
                      S.complete_ok mgr global_user_kind user w₂ second,
                      S.complete_ok mgr org_kind org w₁ first,
                      none_yet,
                    )
                    refl;
              ended = refl;
            })))

  run_manager-Ends :
      (mgr : Manager) (w : World) → controllers w mgr ≡ [] → Ends (run_manager C L mgr w)
  unfolding run_manager get_cluster_clients
  run_manager-Ends mgr w none_yet =
      checked-step Ends "failed to create cluster clients" clusters_failed
        (get_cluster_clients (clusters C L)) (control_orgs C L mgr) w
        (λ e _. inl (record { exit = _; answer = refl; early = inr (inr (inr (inl refl))) }))
        (λ clients connected.
          control_orgs-Ends mgr w _ clients connected
            (connect_all-Keeps mgr cluster_names [] w ∙ none_yet))

  make_manager-Ends : (config : Config) (w : World) → Ends (make_manager C L config w)
  unfolding make_manager
  make_manager-Ends config w =
      checked-step Ends "failed to create k8s controller runtime manager" library
        (L.new_manager config manager_options) (run_manager C L) w
        (λ e _. inl (record { exit = _; answer = refl; early = inr (inr (inl refl)) }))
        (λ mgr made. run_manager-Ends mgr _ (S.new_manager_ok config manager_options w mgr made))

  configure-Ends :
      (w : World)
      → Ends (
          (checked "Failed to build kubeconfig" library (L.build_config "") >>= make_manager C L) w)
  configure-Ends w =
      checked-step Ends "Failed to build kubeconfig" library (L.build_config "") (make_manager C L)
        w (λ e _. inl (record { exit = _; answer = refl; early = inr (inl refl) }))
        (λ config _. make_manager-Ends config _)

  -- Every run of the controller's `main` ends in one of two ways. Either an error from before the
  -- start of the manager ends it, with one of the five messages; or the manager has been started with
  -- two controllers and no other, that of the orgs and that of the global users, whose reconcilers
  -- share the manager's client and the clients that `getClusterClients` gave, and the program answers
  -- what the manager answers.
  pub main-Ends : (w : World) → Ends (main C L w)
  unfolding main
  main-Ends w =
      let rest = λ (_ : Unit).
        checked "Failed to build kubeconfig" library (L.build_config "") >>= make_manager C L in
      let shape = λ (r : Result String Unit).
        Ends (continue (scheme_checked C r) rest (L.add_to_scheme w).1) in
      elim (Result-cases (L.add_to_scheme w).0) [
        | inl (a, e) ↦ subst shape (sym e) (configure-Ends _)
        | inr (x, e) ↦
            subst shape (sym e) (inl (record { exit = _; answer = refl; early = inl refl }))
      ]
