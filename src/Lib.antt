-- ===== src/Lib.antt =====
-- hydra-operator: a Kubernetes operator that pulls the desired state of a cluster from Hydra,
-- reconciles namespaces, Knative services, OpenShift routes, custom domains and Gatekeeper policies
-- with it, and reports the outcome of each back to Hydra.
--
-- How the parts interact. `Manager.SyncOnce` (internal/reconciler/manager.go) pulls the desired
-- state with the client of Hydra (internal/hydraclient/client.go), asks the detector
-- (internal/capabilities/detector.go) whether Gatekeeper is installed, runs the reconcilers of
-- policies, namespaces and containers, and for each container those of its route and domains, and
-- sends one status for each. `Manager.HeartbeatOnce` sends the detected capabilities. The client
-- authenticates with a token that registration gives and that a Secret keeps
-- (internal/tokenstore/tokenstore.go). The configuration (internal/config/config.go) is validated
-- at the start, and `main` (cmd/operator/main.go) checks for Knative Serving and gets a token before
-- it runs the manager.
--
-- The model. An action is a function from a session to a result and a session. A session is the
-- world outside of the operator and the log of the calls made, newest first. What the API server,
-- Hydra, the JSON decoder and the parser of quantities answer is an environment (`Env`): an argument
-- of every definition, of which nothing is assumed but what a theorem names: `CanSend` (a body can
-- be marshalled and a request built) and `Obeys` (the laws of get, create, update and delete of one
-- kind of object, up to the parts that the server fills in), `Answers` (a server that answers while
-- nobody else writes), `Undisturbed` (an object changes only by the calls for it), or that a read of
-- a Secret changes none. The world is the environment's own type,
-- so what others do to the cluster between two calls is in the environment's answers. `Kube.Memory` and `Kube.Fake` are a concrete
-- environment, in which `Obeys` holds and the model runs.
--
-- Files and code:
--   Wire                  the bodies of internal/hydraclient/client.go
--   Hydra.Client          its operations: `do` is `send`, `Register` is `register`, and so on
--   Kube.Objects, Names, Calls
--                         the Kubernetes objects and the calls that the operator makes
--   Kube.Env, Clients     the environment, the actions, and internal/k8sclient/client.go
--   Kube.Keeps            actions that keep a property of the log, and the rules that show it
--   Kube.Laws             what a theorem may assume of the API server
--   Capabilities          internal/capabilities/detector.go
--   TokenStore            internal/tokenstore/tokenstore.go
--   Config                internal/config/config.go: Defs has the settings, Load their loading
--   Reconciler.Naming     internal/reconciler/naming.go and the labels
--   Reconciler.Namespace, Container, Status, Route, Domain, Policy, Manager
--                         the file of that name in internal/reconciler
--   Reconciler.RunLoop    `runLoop` of internal/reconciler/manager.go, over what is ready at each
--                         `select`, and Run the two loops of its `Run`
--   Reconciler.Bounds     the number of calls, with Kube.Costs for the rules
--   Reconciler.Convergence
--                         the cluster after a round, with Kube.Leaves for the rules: actions that
--                         leave a part of the world as it is
--   K8sClient             the constructors of internal/k8sclient/client.go
--   Logging               internal/logging/logging.go
--   Startup               cmd/operator/main.go, and internal/version/version.go
--   Reconciler.Ownership  which calls are the operator's own
--   Reconciler.Reports    what is reported to Hydra, and in which order
--   Examples              the theorems at concrete inputs
-- In a module of several files, Defs has the definitions and the others have the theorems.
--
-- Correspondence. A Go error is its text, in a result type, and an error of the API server keeps
-- whether it is NotFound or AlreadyExists. A nil pointer is `none`. A map is an association list. A
-- Kubernetes object has the fields that the code reads or writes; its status is what the operator
-- observes of it. A Go int is an integer without bounds: the code compares the numbers that it is
-- given, prints them, and counts elements of lists that fit in memory. A quantity is the text by
-- which the API transmits it. A loop over a slice is a recursion on a list. The only fuel is in
-- `itoa`, which prints n with n + 1 rounds, more than it has digits.
--
-- Not modelled: what is logged; contexts and timeouts, since an answer that comes too late is an error
-- that the environment may give; what viper, zerolog and client-go do, which are parameters (`Viper`,
-- `Zerolog`, `ClientGo`) with what they document as named hypotheses; and of `main` the parsing of
-- flags, the signals and the HTTP server. The two loops of `Manager.Run` share no state but the world
-- outside: each is an action of its own, with its interval, and what the other does between two of its
-- calls is in the environment's answers. That the two run at once, and that a panic of one ends the
-- process, is not modelled.

pub mod Base
pub mod Wire
pub mod Kube
pub mod Reconciler
pub mod Hydra
pub mod Capabilities
pub mod TokenStore
pub mod Config
pub mod Startup
pub mod Logging
pub mod K8sClient
mod Examples
