-- ===== src/Lib.antt =====
-- Kertical, a kubernetes controller that forwards ports of a host to the pods of a service and
-- proxies traffic to external addresses.
--
-- Its parts, and how they interact. A controller notes what it has asked the API server for
-- (expectations); the handlers of events (events) take the notes off and fill the work queue. The
-- controller of port forwarding asks the guard (portforwarding) to forward a port; the guard tests that
-- no program of the host listens on it (transport) and calls the implementation that the registry has
-- chosen: goroutines of the process (purego), or rules of the kernel (nftables), which are built from
-- conditions and recognised by matching. Which ports are to be forwarded, the controller derives from the
-- service and from what the node's status records; a finalizer holds the resource until its ports are
-- removed. The controller of external proxies keeps a Service, EndpointSlices and an Ingress for each
-- resource, and waits for the events of what it has created or deleted before it goes on. The webhooks
-- fill in defaults and refuse a resource before a controller sees it.
--
-- Which file models which part.
--   Prelude: Boolean tests, lists over native numbers, maps as functions, and `SetPackage`, what the
--     program uses of k8s.io/apimachinery/pkg/util/sets, with a list as an instance.
--   Expectations: internal/expectations/expectations.go. `Cache` is the map of
--     realControllerExpectations; each method is one function from cache to cache.
--   Events: internal/events. A handler returns the cache and what it asks of the queue.
--   Forwarding.Transport: internal/portforwarding/transport for Linux. A file is
--     the lines that a scanner gives of it, with whether the scanner was cut short.
--   Forwarding.Guard: internal/portforwarding/portforwarding.go, over an implementation that is an
--     argument; Guard.Contract says what the guard relies on. The pure Go implementation
--     keeps it; nftables, whose matching may panic, is not shown to. Guard.Sequence is about additions and
--     removals only: Close closes the implementation and leaves the books.
--   Forwarding.PureGo: internal/portforwarding/purego/purego.go, the contexts and the table
--     that has them by port, not the goroutines that are started with them, and the
--     proof that it keeps the contract.
--   Forwarding.Registry: internal/portforwarding/registry.go.
--   Nftables.Userdata, Nftables.Condition: the packages userdata and condition of
--     internal/portforwarding/nftables. Nftables.Condition.Begins says, apart from the
--     code, when a list of expressions begins with what a condition builds. Nftables.Expr has the expressions of
--     github.com/google/nftables/expr that they use.
--   Nftables.Tables, Nftables.ReadWrite: derive/derive.go and readwrite.go. `Slice` is a Go slice with
--     the array behind it, since a loop over the rules runs while they are deleted.
--   Nftables.Mutation: mutation/mutation.go with its packages filter and predicate.
--   Nftables.NfTables: nftables.go, over a kernel that is an argument (`Connection`).
--   Controllers.Ports: internal/controller/networking/portforwarding/portforwarding.go. Ports.Decided
--     and Ports.Kept are about what becomes of the ports of the specification and of the status.
--   Controllers.Cluster: what a call of the API server answers, the retry on conflict, and what a
--     reconciliation returns. Controllers.Forwarder: the forwarder as the controller sees it (`Tracked`),
--     with the guard as an instance.
--   Controllers.Objects, Controllers.PortForwarding: finalizer.go and status.go beside that file, and
--     internal/controller/networking/portforwarding_controller.go. The state is that of the forwarder with
--     the cluster. PortForwarding.Reconcile has the handler; Removal, Ready, Register, Deletion and
--     Release are about its loops and the finalizer, Resolve is about the events that wake it.
--   Controllers.Proxy: api/networking/v1alpha1/externalproxy_types.go, internal/controller/networking/
--     externalproxy (Proxy.Build, and UpdateStatus in Proxy.Reconcile) and externalproxy_controller.go
--     (Proxy.Kinds: the calls for one kind of object with their expectations; Proxy.Sync: SyncService,
--     SyncEndpointSlices, SyncIngress; Proxy.Reconcile: the handler over the three caches; Proxy.Slices,
--     Contents, Stored and Synced are about the EndpointSlices that SyncEndpointSlices leaves).
--   Webhooks: internal/webhook/validation/kubernetes.go (Webhooks.Kubernetes), the validators and the
--     defaults of internal/webhook/networking/v1alpha1 (Webhooks.Validation, Webhooks.Defaults). An error
--     is its kind with its place.
--
-- Functions of the libraries that the program calls are arguments: a set of strings (SetPackage), the
-- numbers of the kernel (Platform), whether a socket can be bound (binds), the clock (two readings),
-- the API server (Client, Kind, Setup, with what is relied on in Server, Store and Contents), sorting, the order in
-- which a map is ranged over, printing a number, parsing an address, and the checks
-- of single values (Webhooks.Library).
-- Panics are values: `none`, or `panics`. No function runs on fuel: every loop is over a list, or
-- over the number of elements that a slice has when the loop begins.
--
-- Not modelled: how the webhooks are called and the controllers of their configurations, how
-- controllers are set up with their watches and indexes, UpdateCondition, which nothing calls, what other
-- goroutines do during one reconciliation, the copying of bytes between sockets,
-- the start of the processes and their flags, certificates, generated code, and the parts of the API
-- server and the work queue.
pub mod Prelude
pub mod Controllers
pub mod Events
pub mod Expectations
pub mod Forwarding
pub mod Nftables
pub mod Webhooks
