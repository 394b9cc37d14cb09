-- ===== src/Reconciler/Ownership/Sync.antt =====
-- A whole round of the sync loop, and of the heartbeat loop.
use hydra_operator.Base.{ℕ, String, refl, true, Option, List, [], ◌∷◌, Result}
use hydra_operator.Wire
use hydra_operator.Wire.{SecurityPolicy}
use hydra_operator.Kube.Calls.{Call, Body}
use hydra_operator.Kube.Env.{Env, Action, Session}
use hydra_operator.Kube.Keeps.{
  Allows, Keeps, Keeps-pure, Keeps-bind, Keeps-or_return, Keeps-unless, Keeps-perform, keeps_rules,
}
use hydra_operator.Hydra.Client.{
  Client, send, report, build_request, post_heartbeat, put_cluster_status,
  put_namespace_sync_status, put_agent_k8s_status, put_domain_status, get_desired_state,
}
use hydra_operator.Reconciler.Domain.{DomainStatus}
use hydra_operator.Reconciler.Manager.{
  ManagerConfig, sync_namespaces, reconcile_namespaces, report_domain_statuses, finish_container,
  sync_container, sync_containers, reconcile_containers, sync_once, heartbeat_once,
}
use hydra_operator.Reconciler.Ownership.Defs.{
  AllOwned, IsAuthenticated, IsClusterCall, Allows-request, Allows-cluster,
}
use hydra_operator.Reconciler.Ownership.Cluster.{
  namespace-Keeps, container-Keeps, route-Keeps, domain-Keeps,
}
use hydra_operator.Reconciler.Ownership.Policies.{detect-Keeps, reconcile_policy-Keeps}

module _ (env : Env) (hydra : Client) where
  abbrev Owned : List Call → Type 0
  Owned = AllOwned env.lower_wide hydra

  request-IsAuthenticated :
      (method path : String) (body : Option Body)
      → IsAuthenticated hydra (build_request hydra method path body true)
  unfolding build_request
  request-IsAuthenticated method path body = (path, refl, refl)

  pub send-IsOwned :
      {A : Type 0} (method path : String) (body : Option Body) (zero_value : A)
      (decode : Option (String → Result String A))
      → Keeps Owned (send env hydra method path body true zero_value decode)
  unfolding send
  send-IsOwned method path body z decode =
      Keeps-unless _ _ _ (λ e. Keeps-pure _)
        (Keeps-unless _ _ _ (λ e. Keeps-pure _)
          (Keeps-or_return _ _ _
            (Keeps-perform _ _
              (Allows-request env.lower_wide hydra _ (request-IsAuthenticated method path body)))
            (λ e. Keeps-pure _) (λ resp. Keeps-pure _)))

  report-IsOwned :
      (op method path : String) (body : Body) → Keeps Owned (report env hydra op method path body)
  unfolding report
  report-IsOwned op method path body = search (keeps_rules, send-IsOwned) depth 12

  put_cluster_status-IsOwned :
      (req : Wire.ClusterStatusRequest) → Keeps Owned (put_cluster_status env hydra req)
  unfolding put_cluster_status
  put_cluster_status-IsOwned req = report-IsOwned _ _ _ _

  put_namespace_sync_status-IsOwned :
      (id : String) (req : Wire.NamespaceSyncStatusRequest)
      → Keeps Owned (put_namespace_sync_status env hydra id req)
  unfolding put_namespace_sync_status
  put_namespace_sync_status-IsOwned id req = report-IsOwned _ _ _ _

  put_agent_k8s_status-IsOwned :
      (id : String) (req : Wire.AgentK8sStatusRequest)
      → Keeps Owned (put_agent_k8s_status env hydra id req)
  unfolding put_agent_k8s_status
  put_agent_k8s_status-IsOwned id req = report-IsOwned _ _ _ _

  put_domain_status-IsOwned :
      (id : String) (req : Wire.DomainStatusRequest)
      → Keeps Owned (put_domain_status env hydra id req)
  unfolding put_domain_status
  put_domain_status-IsOwned id req = report-IsOwned _ _ _ _

  post_heartbeat-IsOwned :
      (req : Wire.HeartbeatRequest) → Keeps Owned (post_heartbeat env hydra req)
  unfolding post_heartbeat
  post_heartbeat-IsOwned req = report-IsOwned _ _ _ _

  get_desired_state-IsOwned : Keeps Owned (get_desired_state env hydra)
  unfolding get_desired_state
  get_desired_state-IsOwned = search (keeps_rules, send-IsOwned) depth 12

module _ (env : Env) (cfg : ManagerConfig) where
  abbrev pub Sync : {A : Type 0} → Action env.World A → Type 0
  Sync = Keeps (AllOwned env.lower_wide cfg.hydra)

  abbrev allow :
      (c : Call) → IsClusterCall env.lower_wide c → Allows (AllOwned env.lower_wide cfg.hydra) c
  allow = Allows-cluster env.lower_wide cfg.hydra

  sync_namespaces-IsOwned :
      (n : ℕ) (namespaces : List Wire.Namespace) → Sync (sync_namespaces env cfg n namespaces)
  unfolding sync_namespaces
  sync_namespaces-IsOwned n [] = Keeps-pure _
  sync_namespaces-IsOwned n (ns ∷ namespaces) = Keeps-bind _ _ (namespace-Keeps env allow ns) (λ r.
      Keeps-bind _ _ (put_namespace_sync_status-IsOwned env cfg.hydra ns.id _)
        (λ _. sync_namespaces-IsOwned _ namespaces))

  report_domain_statuses-IsOwned :
      (statuses : List DomainStatus) → Sync (report_domain_statuses env cfg statuses)
  unfolding report_domain_statuses
  report_domain_statuses-IsOwned [] = Keeps-pure _
  report_domain_statuses-IsOwned (d ∷ statuses) =
      Keeps-bind _ _ (search (keeps_rules, put_domain_status-IsOwned) depth 12)
        (λ _. report_domain_statuses-IsOwned statuses)

  sync_container-IsOwned : (c : Wire.Container) → Sync (sync_container env cfg c)
  unfolding sync_container finish_container
  sync_container-IsOwned c =
      search
        (
          keeps_rules,
          container-Keeps env allow,
          route-Keeps env allow,
          domain-Keeps env allow,
          report_domain_statuses-IsOwned,
          put_agent_k8s_status-IsOwned,
        )
        depth 16

  sync_containers-IsOwned :
      (n : ℕ) (containers : List Wire.Container) → Sync (sync_containers env cfg n containers)
  unfolding sync_containers
  sync_containers-IsOwned n [] = Keeps-pure _
  sync_containers-IsOwned n (c ∷ containers) =
      Keeps-bind _ _ (sync_container-IsOwned c) (λ r. sync_containers-IsOwned _ containers)

  pub sync_once-Keeps : Sync (sync_once env cfg)
  unfolding sync_once reconcile_namespaces reconcile_containers
  sync_once-Keeps =
      search
        (
          keeps_rules,
          get_desired_state-IsOwned,
          put_cluster_status-IsOwned,
          reconcile_policy-Keeps env allow cfg,
          sync_namespaces-IsOwned,
          sync_containers-IsOwned,
        )
        depth 16

  pub heartbeat_once-Keeps : Sync (heartbeat_once env cfg)
  unfolding heartbeat_once
  heartbeat_once-Keeps =
      Keeps-or_return _ _ _ (detect-Keeps env allow) (λ _. Keeps-pure _)
        (λ result.
          Keeps-or_return _ _ _ (Keeps-pure _) (λ _. Keeps-pure _)
            (λ caps. Keeps-bind _ _ (post_heartbeat-IsOwned env cfg.hydra _) (λ _. Keeps-pure _)))

  -- Whatever the API server and Hydra answer, and whatever others do in between, a round of the
  -- sync loop that starts after owned calls has made only owned calls. It reads no Secret. It
  -- creates only namespaces labelled as the operator's, the quota `hydra-quota`, services and routes
  -- named and labelled after a container, labelled domain mappings, and the objects of the three
  -- policy templates, the namespaced ones in the namespace that the call addresses. It updates the
  -- same but for namespaces, and deletes only quotas and routes of those names and the registry
  -- constraint. Each request goes to Hydra's root and carries the cluster token.
  pub sync_once-IsOwned :
      (s : Session env.World)
      → AllOwned env.lower_wide cfg.hydra s.log
      → AllOwned env.lower_wide cfg.hydra (sync_once env cfg s).1.log
  sync_once-IsOwned s = sync_once-Keeps.holds_after s
