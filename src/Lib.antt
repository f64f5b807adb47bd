-- ===== src/Lib.antt =====
-- A model of the pluma operator: a Kubernetes operator that installs the components of HelmApp
-- resources as Helm releases, and turns IstioOperator resources into HelmApp resources.
--
-- The program has two controllers. The HelmApp controller (internal/controller/helmapp.go) brings
-- the Helm releases of a HelmApp to what its spec says and reports a status for each; when the
-- HelmApp is deleted it uninstalls them before it takes its finalizer off. The IstioOperator
-- controller (internal/istio/iop.go) merges an operator with a profile, converts it to a HelmApp,
-- and creates or updates that; the HelmApp controller then sees the HelmApp through the API server.
-- The resource types are those of apis/operator/v1alpha1, and the clients and informers for them
-- those of apis/client.
--
-- The files, and the code that they model:
--   Base        the libraries' names passed on, Boolean tests, lists by native numbers, slices cut
--               by index, Go maps as association lists (Dict), strconv.Itoa (Decimal)
--   Effects     Go functions as actions on a world that return or panic, and error values; the
--               rules for what such a block returns (Returns) and keeps (Keeps), and for blocks that
--               never panic (Effects.Total)
--   Values      map[string]any as Fields and its values as Any; Values.Merge is MergeValues,
--               Values.Equal is reflect.DeepEqual as hasConfigChanged uses it.
--               Values.Merge.Abstract is Go maps without the order of their entries, a quotient
--   Constants   internal/pkg/constants/constants.go and the delays of helmapp.go
--   Api         the messages of helmapp.pb.go and helmapp_types.go, their getters and the maps of
--               the phase names. Json: the methods of helmapp_json.gen.go
--   Cluster     the interface to Kubernetes and Helm that the HelmApp controller calls
--   Controller  helmapp.go. Phase: calculateOverallPhase. Uninstall: uninstallComponent and
--               newActionConfiguration. Component: reconcileComponent and hasConfigChanged.
--               Delete: reconcileDelete. Reconcile: Reconcile. What stands below each is proofs.
--   Copies      zz_generated.deepcopy.go and helmapp_deepcopy.gen.go of apis/operator/v1alpha1, on a
--               heap of addresses
--   Client      the typed client of HelmApps, below apis/client/clientset/versioned: typed/operator/
--               v1alpha1/helmapp.go. Fake: the fake client, fake/fake_helmapp.go; Fake.Clientset: the fake
--               clientset, fake/clientset_generated.go. Requests reads what the client asks of the
--               API server. Sets: clientset.go and operator_client.go.
--   Informers   apis/client/informers/externalversions/factory.go. HelmApps: the informer of HelmApps
--               and the ways to it, which are the other files there. HelmApps.Listers:
--               apis/client/listers/operator/v1alpha1/helmapp.go
--   Istio       iop.go. Resource: what it reads of an IstioOperator and the library that it calls.
--               Step: a value, an error or a panic. Convert: convertIopToHelmApp,
--               mergeIOPWithProfile and structToMap. Reconcile: Reconcile, reconcileDelete and
--               createOrUpdateHelmApp, with their own interface to the Kubernetes client.
--   Scheme      the registration of the types: groupversion_info.go, and the files register.go of
--               the client packages
--   Startup     cmd/main.go, and SetupWithManager of both controllers
--   Tests       the theorems at concrete inputs, on a cluster that is kept in memory
--
-- A call of another package is a field of an interface: Cluster, Istio.Reconcile.Cluster,
-- Library, Cloning, FakeServer, Testing, ClientGo, Cache, SharedCache, Index, JsonPb, SchemeLibrary or
-- Runtime. Most take the world and give an answer and a new world, so any server, any Helm and any
-- sequence of failures is an instance. What a proof needs of one is a record of laws that the theorem
-- takes (Laws in Controller.Delete.Sweep, FiniteFailures in Controller.Delete.Retries, SparesLaws in
-- Controller.Spared, SteadyLaws in Controller.Reconcile.Steady, KeepsSpec in
-- Controller.Reconcile.Returning, CompleteLaws in Controller.Component.Complete, ForeignLaws and DeletionLaws below Istio.Reconcile,
-- CloningLaws in Copies.Message, LimiterLaws in Client.Sets.Limits,
-- TrackerLaws in Client.Fake.Clientset.Found, IndexLaws in Informers.HelmApps.Listers.Keys, SchemeLaws
-- in Scheme.Known and ManagerLaws in Startup.Order), and Tests has an instance of each. A nil
-- dereference is a panic of the model, that of a release's Info or Chart included.
--
-- Every loop is a structural recursion, over a list or, in reconcileDelete, over the index that runs
-- down to 0; there is no fuel, but for the number of reconciles in Controller.Reconcile.Retries. A Go
-- map is an association list. A float, an int, an int32 and an int64 are their bit patterns, and a
-- length is reduced modulo 2 ^ 32 where the code converts it to an int32, as is a timeout modulo 2 ^ 64.
-- An object of the heap in Copies has its plain fields as a number, and points to its parts; how deep
-- a copy recurses is a field of Cloning.
--
-- Not modelled: logging; the options of the registry client; sending a request and decoding its answer,
-- which is client-go; the codec factories beside the schemes; the getters Discovery and Tracker of the
-- fake clientset and the nil REST client of its operator client; the protobuf runtime's reflection and
-- file descriptor at the end of helmapp.pb.go.
pub mod Base
pub mod Values
pub mod Effects
pub mod Constants
pub mod Api
pub mod Cluster
pub mod Controller
pub mod Copies
pub mod Client
pub mod Informers
pub mod Istio
pub mod Scheme
pub mod Startup
mod Tests
