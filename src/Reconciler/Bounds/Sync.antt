-- ===== src/Reconciler/Bounds/Sync.antt =====
-- The number of calls of a round, by the size of the desired state.
use hydra_operator.Base.{
  ℕ, ◌+◌, ◌*◌, ◌≤◌, ◌≡◌, String, Bool, Option, List, [], ◌∷◌, Result, ok, arith, length,
}
use hydra_operator.Wire
use hydra_operator.Wire.{CustomDomain, DesiredState, SecurityPolicy}
use hydra_operator.Kube.Calls.{Body}
use hydra_operator.Kube.Env.{Env, Session, pure, ◌>>=◌, ◌>>◌, or_return}
use hydra_operator.Kube.Costs.{
  Costs, Costs-pure, Costs-if, Costs-bind, Costs-bind_known, Costs-or_return, cost_rules,
}
use hydra_operator.Hydra.Client.{
  Client, send, report, get_desired_state, put_cluster_status, put_namespace_sync_status,
  put_agent_k8s_status, put_domain_status,
}
use hydra_operator.Reconciler.Domain.{DomainStatus, reconcile_domains}
use hydra_operator.Reconciler.Domain
use hydra_operator.Reconciler.Status.{ContainerStatus}
use hydra_operator.Reconciler.Manager.{
  ManagerConfig, reconcile_policy, sync_namespaces, reconcile_namespaces, report_domain_statuses,
  finish_container, sync_container, sync_containers, reconcile_containers, sync_once, reachable,
}
use hydra_operator.Reconciler.Bounds.Parts.{
  detect-Costs, namespace-Costs, container-Costs, route-Costs, domain-Costs, policy-Costs,
}

module _ (env : Env) (hydra : Client) where
  send-Costs :
      {A : Type 0} (method path : String) (body : Option Body) (authed : Bool) (zero_value : A)
      (decode : Option (String → Result String A))
      → Costs 1 (send env hydra method path body authed zero_value decode)
  unfolding send
  send-Costs method path body authed z decode = search cost_rules depth 12

  report-Costs :
      (op method path : String) (body : Body) → Costs 1 (report env hydra op method path body)
  unfolding report
  report-Costs op method path body =
      Costs-bind 1 0 _ _ (omega arith) (send-Costs _ _ _ _ _ _) (λ r. Costs-pure 0 _)

  get_desired_state-Costs : Costs 1 (get_desired_state env hydra)
  unfolding get_desired_state
  get_desired_state-Costs =
      Costs-bind 1 0 _ _ (omega arith) (send-Costs _ _ _ _ _ _) (λ r. Costs-pure 0 _)

-- At most this many calls for the containers: each has a service, a route and a report, and for each
-- domain a mapping and a report.
abbrev pub container_calls : List Wire.Container → ℕ
container_calls [] = 0
container_calls (c ∷ containers) = 5 + 3 * length c.custom_domains + container_calls containers

module _ (env : Env) (cfg : ManagerConfig) where
  reconcile_policy-Costs : (policy : SecurityPolicy) → Costs 19 (reconcile_policy env cfg policy)
  unfolding reconcile_policy
  reconcile_policy-Costs policy =
      Costs-or_return 7 12 _ _ _ (omega arith) (detect-Costs env) (λ e. Costs-pure 12 _)
        (λ caps.
          Costs-if _ _ _ (Costs-pure 12 _)
            (Costs-bind 12 0 _ _ (omega arith) (policy-Costs env policy) (λ r. Costs-pure 0 _)))

  sync_namespaces-Costs :
      (n : ℕ) (namespaces : List Wire.Namespace)
      → Costs (5 * length namespaces) (sync_namespaces env cfg n namespaces)
  unfolding sync_namespaces put_namespace_sync_status
  sync_namespaces-Costs n [] = Costs-pure _ _
  sync_namespaces-Costs n (ns ∷ namespaces) =
      Costs-bind 4 (1 + 5 * length namespaces) _ _ (omega arith) (namespace-Costs env ns) (λ r.
        Costs-bind 1 (5 * length namespaces) _ _ (omega arith) (report-Costs env cfg.hydra _ _ _ _)
          (λ _. sync_namespaces-Costs _ namespaces))

  report_domain_statuses-Costs :
      (statuses : List DomainStatus)
      → Costs (length statuses) (report_domain_statuses env cfg statuses)
  unfolding report_domain_statuses put_domain_status
  report_domain_statuses-Costs [] = Costs-pure _ _
  report_domain_statuses-Costs (d ∷ statuses) =
      Costs-bind 1 (length statuses) _ _ (omega arith)
        (Costs-if _ _ _ (Costs-pure 1 _) (report-Costs env cfg.hydra _ _ _ _))
        (λ _. report_domain_statuses-Costs statuses)

  length-reconcile_domains :
      (ns name : String) (domains : List CustomDomain) (s : Session env.World)
      → length (reconcile_domains env ns name domains s).0 ≡ length domains
  unfolding reconcile_domains ◌>>=◌ pure
  length-reconcile_domains ns name [] s = omega arith
  length-reconcile_domains ns name (d ∷ domains) s =
      omega (arith, length-reconcile_domains ns name domains _)

  length-reconcile :
      (c : Wire.Container) (s : Session env.World)
      → length (Domain.reconcile env c s).0 ≡ length c.custom_domains
  unfolding Domain.reconcile
  length-reconcile c = length-reconcile_domains _ _ c.custom_domains

  finish_container-Costs :
      (c : Wire.Container) (status : ContainerStatus)
      → Costs (3 + 3 * length c.custom_domains) (finish_container env cfg c status)
  unfolding finish_container put_agent_k8s_status
  finish_container-Costs c status =
      Costs-bind 2 (1 + 3 * length c.custom_domains) _ _ (omega arith) (route-Costs env c)
        (λ routed.
          Costs-bind_known (2 * length c.custom_domains) (1 + length c.custom_domains)
            (λ domains. length domains ≡ length c.custom_domains) _ _ (omega arith)
            (domain-Costs env c) (length-reconcile c)
            (λ domains same.
              Costs-bind (length domains) 1 _ _ (omega arith) (report_domain_statuses-Costs domains)
                (λ _.
                  Costs-bind 1 0 _ _ (omega arith) (report-Costs env cfg.hydra _ _ _ _)
                    (λ _. Costs-pure 0 _))))

  sync_container-Costs :
      (c : Wire.Container) → Costs (5 + 3 * length c.custom_domains) (sync_container env cfg c)
  unfolding sync_container put_agent_k8s_status
  sync_container-Costs c =
      Costs-or_return 2 (3 + 3 * length c.custom_domains) _ _ _ (omega arith)
        (container-Costs env c)
        (λ e.
          Costs-bind 1 0 _ _ (omega arith) (report-Costs env cfg.hydra _ _ _ _)
            (λ _. Costs-pure 0 _))
        (λ status. finish_container-Costs c status)

  sync_containers-Costs :
      (n : ℕ) (containers : List Wire.Container)
      → Costs (container_calls containers) (sync_containers env cfg n containers)
  unfolding sync_containers
  sync_containers-Costs n [] = Costs-pure _ _
  sync_containers-Costs n (c ∷ containers) =
      Costs-bind (5 + 3 * length c.custom_domains) (container_calls containers) _ _ (omega arith)
        (sync_container-Costs c) (λ r. sync_containers-Costs _ containers)

  -- The part of a round that follows the pull.
  applied-Costs :
      (state : DesiredState)
      → Costs (20 + 5 * length state.namespaces + container_calls state.containers) (do
        reconcile_policy env cfg state.security_policy
        synced ← reconcile_namespaces env cfg state.namespaces
        ready ← reconcile_containers env cfg state.containers
        put_cluster_status env cfg.hydra (reachable synced ready)
        pure tt)
  unfolding reconcile_namespaces reconcile_containers put_cluster_status
  applied-Costs state =
      Costs-bind 19 (1 + 5 * length state.namespaces + container_calls state.containers) _ _
        (omega arith) (reconcile_policy-Costs state.security_policy)
        (λ _.
          Costs-bind (5 * length state.namespaces) (1 + container_calls state.containers) _ _
            (omega arith) (sync_namespaces-Costs 0 state.namespaces)
            (λ synced.
              Costs-bind (container_calls state.containers) 1 _ _ (omega arith)
                (sync_containers-Costs 0 state.containers)
                (λ ready.
                  Costs-bind 1 0 _ _ (omega arith) (report-Costs env cfg.hydra _ _ _ _)
                    (λ _. Costs-pure 0 _))))

  -- A round over a pulled desired state makes at most 21 calls, 5 more for each namespace, 5 for each
  -- container and 3 for each of its domains, whatever the API server and Hydra answer.
  pub sync_once-bounds :
      (s : Session env.World) (state : DesiredState)
      → (get_desired_state env cfg.hydra s).0 ≡ ok state
      → length (sync_once env cfg s).1.log
        ≤ 21 + 5 * length state.namespaces + container_calls state.containers + length s.log
  unfolding sync_once or_return
  sync_once-bounds s state h = ground (
    arith,
    (get_desired_state-Costs env cfg.hydra).bounds s,
    (applied-Costs state).bounds (get_desired_state env cfg.hydra s).1,
  )
