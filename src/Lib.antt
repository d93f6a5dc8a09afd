-- ===== src/Lib.antt =====
-- The programs of auth-explore: the controller of cross-cluster orgs, the OIDC login plugin of the
-- cf command, and the two programs that try out the caching of Kubernetes clients.
--
-- The org controller (cross-cluster-orgs/org-controller) watches two custom resources of a management
-- cluster and keeps the configured clusters in step with them. An org has spaces, and each space
-- becomes a namespace of the space's cluster, with a role binding for every role of every user. A
-- global user has its roles in all of these namespaces.
-- - Api: pkg/apis/org/v1/org.go and globaluser.go, the resources.
-- - DeepCopy: pkg/apis/org/v1/zz_generated.deepcopy.go, on a heap of arrays; a slice stands for a whole
--   array, and the metadata and their copies are the parameter `Metadata`. `DeepCopy.Kinds` says what a
--   value reads as and what it reaches.
-- - Scheme: pkg/apis/org/register.go, pkg/apis/org/v1/register.go, and register.go of the packages
--   scheme and fake of pkg/generated/clientset/versioned: the registration of the resources, over
--   `Runtime`, which stands for the scheme of the client library. `Scheme.Registry` names what is relied
--   on of it, and `Scheme.Memory` is a scheme that meets this.
-- - Kube: the Kubernetes objects that the controller writes, and `Client`, the calls that it makes of
--   the client library. The library is vendored and is a parameter. `Kube.Server` names what the
--   controller relies on: `IsServer`, the meaning of the answers, `IsHealthy`, which adds when a
--   create succeeds, and `IsRefusing`: the API cannot delete namespaces as a collection.
--   `Kube.Memory` is a server in memory that meets all three; the tests run it.
-- - Reconcilers: reconcilers/org.go and reconcilers/global_user.go. `Reconcilers.Bindings` is
--   createRoleBindings, `Reconcilers.Namespaces` createNamespace, `Reconcilers.Orgs` and
--   `Reconcilers.GlobalUsers` the two Reconcile methods and what they call; the modules below these
--   hold the proofs. A function that returns an error is an `Exec` (`Base.Exec`): it maps a world to
--   an answer and a world, so that what was done before an error stays done. An error is a value of
--   `Error`: the context that fmt.Errorf or errors.Wrap puts in front, over the error below it.
--   A map of clusters is a list of its entries, in the order in which a range delivers them,
--   and this order is any.
--   `Reconcilers.Calls` reads a run as a sequence of calls with given rights; `Reconcilers.System` puts
--   both reconcilers to work on the same clusters, in any order of turns, and `Kube.Tight` names what
--   is relied on there: a call brings in no object but the one that it is given.
-- - Controller: main.go, the index of role bindings by their subject, and in `Controller.Clusters`
--   getClusterClients, over `Clusters`, the calls that set a cluster's client up. `Controller.Main` is
--   main, over `Library`, which adds the manager; `Base.Exit` ends a program on an error.
--
-- The login plugin (oidc-login-plugin/main.go) serves the callback of an OpenID Connect login and
-- writes the ID token into the configuration of the cf command.
-- - Login: the constants and the handler's data; `Login.Flags` the flags and how `flag.FlagSet` reads
--   them, by its documentation; `Login.Callback` ServeHTTP, over `Services`, which stands for oauth2
--   and the cf configuration; `Login.Run` the method Run, over `Setup`, which stands for the libraries
--   that it sets itself up with, until the server listens; `Login.Serving` the server from there on,
--   as steps of the connections and of Run. A server that cannot listen is not modelled.
--
-- The caching program (caching/main.go) fills a cluster with apps and lists them.
-- - Caching: populateCluster and performListings, over `AppClient`, the calls of the client library.
--   Their loops count to a bound; the recursion is on the number of rounds that are left, which is
--   this bound at the start, so that it never ends early. `Caching.Main` is main, over `Experiment`.
--
-- The indexing program (process-indexing/main.go) lists pods by the names of their containers.
-- - Indexing: getProcessGuid and performListings, over `PodClient`. What is printed is kept as lines.
--   `Indexing.Main` is main, over `Libraries`.
--
-- Every loop of the controller is a recursion on the list that it ranges over, so there is no fuel.
-- A world changes by the calls alone: what others do to a cluster in the middle of a Reconcile is not
-- modelled, and the lists, which are read from caches, are supposed to be up to date. Logging, what the
-- controller manager does with its controllers, the generated clients, and the vendored libraries
-- are not modelled.
pub mod Base
pub mod Api
pub mod Indexing
pub mod DeepCopy
pub mod Scheme
pub mod Kube
pub mod Reconcilers
pub mod Controller
pub mod Login
pub mod Caching
mod Tests
