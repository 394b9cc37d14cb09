-- ===== src/Reconciler/Convergence/Loops.antt =====
-- What the loops of a round leave, where all that they may change is free.
use hydra_operator.Base.{◌==◌, ℕ, String, Bool, Option, List, [], ◌∷◌, Result, All}
use hydra_operator.Wire
use hydra_operator.Wire.{SecurityPolicy}
use hydra_operator.Kube.Calls.{Body}
use hydra_operator.Kube.Env.{Env, Action, pure, ◌>>=◌, ◌>>◌}
use hydra_operator.Kube.Leaves.{
  Leaves, Leaves-pure, Leaves-if, Leaves-bind, Leaves-or_return, leave_rules,
}
use hydra_operator.Hydra.Client.{
  send, report, get_desired_state, put_cluster_status, put_namespace_sync_status,
  put_agent_k8s_status, put_domain_status,
}
use hydra_operator.Reconciler.Naming.{ksvc_name_for}
use hydra_operator.Reconciler.Domain
use hydra_operator.Reconciler.Domain.{DomainStatus}
use hydra_operator.Reconciler.Status.{ContainerStatus}
use hydra_operator.Reconciler.Manager.{
  ManagerConfig, reconcile_policy, namespace_report, sync_namespaces, report_domain_statuses,
  finish_container, sync_container, sync_containers, status_report, choose_endpoint,
}
use hydra_operator.Reconciler.Convergence.Defs.{
  Undisturbed, Free, FreeContainer, FreeDomains, FreeNamespace,
}
use hydra_operator.Reconciler.Convergence.Parts.{
  detect-Leaves, container-Leaves, namespace-Leaves, route-Leaves, domain-Leaves, policy-Leaves,
}

-- The reports at the end of the part of a container.
abbrev pub after_domains :
    (env : Env)
    → ManagerConfig
    → Wire.Container
    → ContainerStatus
    → Result String String
    → List DomainStatus
    → Action env.World Bool
after_domains env cfg c status routed domains = do
  report_domain_statuses env cfg domains
  put_agent_k8s_status env cfg.hydra c.id
      (status_report status (choose_endpoint status.endpoint_url routed))
  pure (status.status == "running")

module _ (env : Env) (cfg : ManagerConfig) {V : Type 0} {part : env.World → V} {free : Free}
    (u : Undisturbed env part free) where
  send-Leaves :
      {A : Type 0} (method path : String) (body : Option Body) (authed : Bool) (zero_value : A)
      (decode : Option (String → Result String A))
      → Leaves part (send env cfg.hydra method path body authed zero_value decode)
  unfolding send
  send-Leaves method path body authed z decode = search (leave_rules, u.round_trip) depth 12

  report-Leaves :
      (op method path : String) (body : Body)
      → Leaves part (report env cfg.hydra op method path body)
  unfolding report
  report-Leaves op method path body = Leaves-bind _ _ (send-Leaves _ _ _ _ _ _) (λ r. Leaves-pure _)

  pub get_desired_state-Leaves : Leaves part (get_desired_state env cfg.hydra)
  unfolding get_desired_state
  get_desired_state-Leaves = Leaves-bind _ _ (send-Leaves _ _ _ _ _ _) (λ r. Leaves-pure _)

  pub put_cluster_status-Leaves :
      (req : Wire.ClusterStatusRequest) → Leaves part (put_cluster_status env cfg.hydra req)
  unfolding put_cluster_status
  put_cluster_status-Leaves req = report-Leaves _ _ _ _

  pub put_agent_k8s_status-Leaves :
      (id : String) (req : Wire.AgentK8sStatusRequest)
      → Leaves part (put_agent_k8s_status env cfg.hydra id req)
  unfolding put_agent_k8s_status
  put_agent_k8s_status-Leaves id req = report-Leaves _ _ _ _

  pub reconcile_policy-Leaves :
      (policy : SecurityPolicy) → Leaves part (reconcile_policy env cfg policy)
  unfolding reconcile_policy
  reconcile_policy-Leaves policy =
      Leaves-or_return _ _ _ (detect-Leaves env u) (λ e. Leaves-pure _)
        (λ caps.
          Leaves-if _ _ _ (Leaves-pure _)
            (Leaves-bind _ _ (policy-Leaves env u policy) (λ r. Leaves-pure _)))

  pub report_namespace-Leaves :
      (id : String) (r : Result String (Unit {0}))
      → Leaves part (put_namespace_sync_status env cfg.hydra id (namespace_report r))
  unfolding put_namespace_sync_status
  report_namespace-Leaves id r = report-Leaves _ _ _ _

  pub sync_namespaces-Leaves :
      (n : ℕ) (namespaces : List Wire.Namespace)
      → All (FreeNamespace free) namespaces
      → Leaves part (sync_namespaces env cfg n namespaces)
  unfolding sync_namespaces
  sync_namespaces-Leaves n [] are_free = Leaves-pure _
  sync_namespaces-Leaves n (one ∷ namespaces) (is_free, are_free) =
      Leaves-bind _ _ (namespace-Leaves env u one is_free) (λ r.
        Leaves-bind _ _ (report_namespace-Leaves one.id r)
          (λ _. sync_namespaces-Leaves _ namespaces are_free))

  report_domain_statuses-Leaves :
      (statuses : List DomainStatus) → Leaves part (report_domain_statuses env cfg statuses)
  unfolding report_domain_statuses put_domain_status
  report_domain_statuses-Leaves [] = Leaves-pure _
  report_domain_statuses-Leaves (d ∷ statuses) =
      Leaves-bind _ _ (Leaves-if _ _ _ (Leaves-pure _) (report-Leaves _ _ _ _))
        (λ _. report_domain_statuses-Leaves statuses)

  pub after_domains-Leaves :
      (c : Wire.Container) (status : ContainerStatus) (routed : Result String String)
      (domains : List DomainStatus)
      → Leaves part (after_domains env cfg c status routed domains)
  after_domains-Leaves c status routed domains =
      Leaves-bind _ _ (report_domain_statuses-Leaves domains)
        (λ _. Leaves-bind _ _ (put_agent_k8s_status-Leaves _ _) (λ _. Leaves-pure _))

  pub after_route-Leaves :
      (c : Wire.Container) (status : ContainerStatus)
      → FreeDomains free c
      → (routed : Result String String)
      → Leaves part (do
        domains ← Domain.reconcile env c
        report_domain_statuses env cfg domains
        put_agent_k8s_status env cfg.hydra c.id
            (status_report status (choose_endpoint status.endpoint_url routed))
        pure (status.status == "running"))
  after_route-Leaves c status are_free routed =
      Leaves-bind _ _ (domain-Leaves env u c are_free) (after_domains-Leaves c status routed)

  pub finish_container-Leaves :
      (c : Wire.Container) (status : ContainerStatus)
      → free.route c.namespace_k8s_name (ksvc_name_for env.lower_wide c.id)
      → FreeDomains free c
      → Leaves part (finish_container env cfg c status)
  unfolding finish_container
  finish_container-Leaves c status is_free are_free =
      Leaves-bind _ _ (route-Leaves env u c is_free) (after_route-Leaves c status are_free)

  sync_container-Leaves :
      (c : Wire.Container)
      → FreeContainer env.lower_wide free c
      → Leaves part (sync_container env cfg c)
  unfolding sync_container
  sync_container-Leaves c (service, route, domains) =
      Leaves-or_return _ _ _ (container-Leaves env u c service)
        (λ e. Leaves-bind _ _ (put_agent_k8s_status-Leaves _ _) (λ _. Leaves-pure _))
        (λ status. finish_container-Leaves c status route domains)

  pub sync_containers-Leaves :
      (n : ℕ) (containers : List Wire.Container)
      → All (FreeContainer env.lower_wide free) containers
      → Leaves part (sync_containers env cfg n containers)
  unfolding sync_containers
  sync_containers-Leaves n [] are_free = Leaves-pure _
  sync_containers-Leaves n (c ∷ containers) (is_free, are_free) =
      Leaves-bind _ _ (sync_container-Leaves c is_free)
        (λ is_ready. sync_containers-Leaves _ containers are_free)
