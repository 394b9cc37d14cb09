-- ===== src/Reconciler/Manager.antt =====
-- internal/reconciler/manager.go: the two periodic jobs. What the source only logs is left out.
use hydra_operator.Base.{
  ℕ, suc, String, Bool, false, List, [], ◌∷◌, Result, ok, err, is_ok, is_empty, not, ◌==◌,
  if◌then◌else◌,
}
use hydra_operator.Base.Int.{ℤ}
use hydra_operator.Wire
use hydra_operator.Wire.{
  SecurityPolicy, ClusterStatusRequest, NamespaceSyncStatusRequest, AgentK8sStatusRequest,
  DomainStatusRequest,
}
use hydra_operator.Kube.Env.{Env, Action, pure, or_return, ◌>>=◌, ◌>>◌}
use hydra_operator.Hydra.Client.{
  Client, post_heartbeat, get_desired_state, put_cluster_status, put_namespace_sync_status,
  put_agent_k8s_status, put_domain_status,
}
use hydra_operator.Capabilities.{detect, marshal_capabilities_json}
use hydra_operator.Reconciler.Namespace
use hydra_operator.Reconciler.Status.{ContainerStatus}
use hydra_operator.Reconciler.Container
use hydra_operator.Reconciler.Route
use hydra_operator.Reconciler.Domain
use hydra_operator.Reconciler.Domain.{DomainStatus}
use hydra_operator.Reconciler.Policy

-- `ManagerConfig`, without the clients, which are the environment's.
pub record ManagerConfig : Type 0 where
  pub hydra : Client
  pub operator_version : String
  pub sync_interval : ℤ
  pub heartbeat_interval : ℤ

abbrev pub unreachable : ClusterStatusRequest
unreachable = record { status = "unreachable"; namespaces_synced = 0; containers_ready = 0 }

abbrev pub reachable : ℕ → ℕ → ClusterStatusRequest
reachable synced ready = record {
  status = "reachable";
  namespaces_synced = synced;
  containers_ready = ready;
}

-- The report of a namespace, from the error of its reconciliation.
abbrev pub namespace_report : Result String (Unit {0}) → NamespaceSyncStatusRequest
namespace_report (ok _) = record { sync_status = "synced"; sync_error = "" }
namespace_report (err e) = record { sync_status = "error"; sync_error = e }

abbrev pub error_report : AgentK8sStatusRequest
error_report = record {
  status = "error";
  ready_replicas = 0;
  endpoint_url = "";
  active_revision = "";
  revisions = [];
}

-- The report of a container that was reconciled.
abbrev pub status_report : ContainerStatus → String → AgentK8sStatusRequest
status_report status endpoint = record {
  status = status.status;
  ready_replicas = status.ready_replicas;
  endpoint_url = endpoint;
  active_revision = status.active_revision;
  revisions = status.revisions;
}

-- The route's endpoint, where there is one, goes before the service's own.
abbrev pub choose_endpoint : String → Result String String → String
choose_endpoint own (err _) = own
choose_endpoint own (ok routed) = if not (is_empty routed) then routed else own

module _ (env : Env) (cfg : ManagerConfig) where
  unfoldable pub heartbeat_once : Action env.World (Unit {0})
  heartbeat_once =
      or_return (detect env) (λ _. pure tt)
        (λ result.
          or_return (pure (marshal_capabilities_json result)) (λ _. pure tt)
            (λ caps. do
              post_heartbeat env cfg.hydra (record {
                operator_version = cfg.operator_version;
                k8s_version = result.k8s_version;
                node_count = result.node_count;
                capabilities = caps;
              })
              pure tt))

  unfoldable pub reconcile_policy : SecurityPolicy → Action env.World (Unit {0})
  reconcile_policy policy =
      or_return (detect env) (λ _. pure tt)
        (λ caps.
          if not caps.capabilities.gatekeeper_available
          then pure tt
          else (do Policy.reconcile env policy; pure tt))

  -- The loop of `reconcileNamespaces`, with the count so far.
  unfoldable pub sync_namespaces : ℕ → List Wire.Namespace → Action env.World ℕ
  sync_namespaces synced [] = pure synced
  sync_namespaces synced (ns ∷ namespaces) = do
    r ← Namespace.reconcile env ns
    put_namespace_sync_status env cfg.hydra ns.id (namespace_report r)
    sync_namespaces (if is_ok r then suc synced else synced) namespaces

  unfoldable pub reconcile_namespaces : List Wire.Namespace → Action env.World ℕ
  reconcile_namespaces = sync_namespaces 0

  unfoldable pub report_domain_statuses : List DomainStatus → Action env.World (Unit {0})
  report_domain_statuses [] = pure tt
  report_domain_statuses (d ∷ statuses) = do
    if is_empty d.id
        then pure (ok tt)
        else put_domain_status env cfg.hydra d.id
            (record { status = d.status; error_message = d.error })
    report_domain_statuses statuses

  -- The part of a round that follows a successful `Containers.Reconcile`; the result says whether
  -- the container counts as ready.
  unfoldable pub finish_container : Wire.Container → ContainerStatus → Action env.World Bool
  finish_container c status = do
    routed ← Route.reconcile env c
    domains ← Domain.reconcile env c
    report_domain_statuses domains
    put_agent_k8s_status env cfg.hydra c.id
        (status_report status (choose_endpoint status.endpoint_url routed))
    pure (status.status == "running")

  unfoldable pub sync_container : Wire.Container → Action env.World Bool
  sync_container c =
      or_return (Container.reconcile env c)
        (λ _. do put_agent_k8s_status env cfg.hydra c.id error_report; pure false)
        (λ status. finish_container c status)

  -- The loop of `reconcileContainers`, with the count so far.
  unfoldable pub sync_containers : ℕ → List Wire.Container → Action env.World ℕ
  sync_containers ready [] = pure ready
  sync_containers ready (c ∷ containers) = do
    is_ready ← sync_container c
    sync_containers (if is_ready then suc ready else ready) containers

  unfoldable pub reconcile_containers : List Wire.Container → Action env.World ℕ
  reconcile_containers = sync_containers 0

  unfoldable pub sync_once : Action env.World (Unit {0})
  sync_once =
      or_return (get_desired_state env cfg.hydra)
        (λ _. do put_cluster_status env cfg.hydra unreachable; pure tt)
        (λ state. do
          reconcile_policy state.security_policy
          synced ← reconcile_namespaces state.namespaces
          ready ← reconcile_containers state.containers
          put_cluster_status env cfg.hydra (reachable synced ready)
          pure tt)
