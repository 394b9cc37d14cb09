-- ===== src/Reconciler/Reports/Containers.antt =====
-- The reports of `reconcileContainers`.
use hydra_operator.Base.{
  ℕ, suc, ◌+◌, String, ◌≡◌, refl, List, [], ◌∷◌, Result, ok, err, count_if, arith, is_empty,
  if◌then◌else◌, ◌∙◌, ap, Bool, false, ◌==◌, Result-cases, inl, inr,
}
use hydra_operator.Wire
use hydra_operator.Wire.{AgentK8sStatusRequest}
use hydra_operator.Kube.Calls.{agent_status}
use hydra_operator.Kube.Env.{Env, CanSend, Session, ◌>>=◌, ◌>>◌, or_return, pure}
use hydra_operator.Hydra.Client.{put_agent_k8s_status}
use hydra_operator.Reconciler.Status.{ContainerStatus}
use hydra_operator.Reconciler.Container
use hydra_operator.Reconciler.Route
use hydra_operator.Reconciler.Domain
use hydra_operator.Reconciler.Domain.{DomainStatus}
use hydra_operator.Reconciler.Manager.{
  ManagerConfig, error_report, status_report, choose_endpoint, report_domain_statuses,
  finish_container, sync_container, sync_containers, reconcile_containers,
}
use hydra_operator.Reconciler.Ownership.Cluster.{container-Keeps, route-Keeps, domain-Keeps}
use hydra_operator.Reconciler.Reports.Defs.{
  Sent, reports, Allows-Reported, agent_url, put_agent_k8s_status-reports,
}
use hydra_operator.Reconciler.Reports.Domains.{domain_reports, report_domain_statuses-reports}

-- What one round comes to: the statuses of the domains and the report of the container.
pub record Round : Type 0 where
  pub domains : List DomainStatus
  pub report : AgentK8sStatusRequest

-- The endpoint to be told: the route's, unless there is none or its reconciliation failed.
abbrev pub told_endpoint : String → Result String String → String
told_endpoint own (err _) = own
told_endpoint own (ok routed) = if is_empty routed then own else routed

choose_endpoint-told :
    (own : String) (routed : Result String String)
    → choose_endpoint own routed ≡ told_endpoint own routed
choose_endpoint-told own (err _) = refl
choose_endpoint-told own (ok routed) = ground arith

module _ (env : Env) (cfg : ManagerConfig) where
  -- A container that was reconciled: the route is next, then the domains.
  abbrev reconciled : Wire.Container → ContainerStatus → Session env.World → Round
  reconciled c status s =
      let (routed, t) = Route.reconcile env c s in
      record {
        domains = (Domain.reconcile env c t).0;
        report = record {
          status = status.status;
          ready_replicas = status.ready_replicas;
          endpoint_url = told_endpoint status.endpoint_url routed;
          active_revision = status.active_revision;
          revisions = status.revisions;
        };
      }

  abbrev round_from : Wire.Container → Result String ContainerStatus → Session env.World → Round
  round_from c (err _) s = record {
    domains = [];
    report = record {
      status = "error";
      ready_replicas = 0;
      endpoint_url = "";
      active_revision = "";
      revisions = [];
    };
  }
  round_from c (ok status) s = reconciled c status s

  abbrev pub round : Wire.Container → Session env.World → Round
  round c s = round_from c (Container.reconcile env c s).0 (Container.reconcile env c s).1

  abbrev pub rounds : List Wire.Container → Session env.World → List Round
  rounds [] s = []
  rounds (c ∷ containers) s = round c s ∷ rounds containers (sync_container env cfg c s).1

  abbrev pub is_running : Round → Bool
  is_running r = r.report.status == "running"

  -- The reports of a round: the domains', then the container's.
  abbrev pub round_reports : Wire.Container → Round → List Sent → List Sent
  round_reports c r before =
      (agent_url cfg.hydra c.id, agent_status r.report) ∷ domain_reports env cfg r.domains before

  abbrev pub container_reports : List Wire.Container → List Round → List Sent → List Sent
  container_reports (c ∷ containers) (r ∷ rs) before =
      container_reports containers rs (round_reports c r before)
  container_reports _ _ before = before

  module _ (can : CanSend env) where
    finish_container-reports :
        (c : Wire.Container) (status : ContainerStatus) (s : Session env.World)
        → reports (finish_container env cfg c status s).1.log
          ≡ round_reports c (reconciled c status s) (reports s.log)
    unfolding finish_container ◌>>=◌
    finish_container-reports c status s =
        let t = (Route.reconcile env c s).1 in
        let u = (Domain.reconcile env c t).1 in
        let statuses = (Domain.reconcile env c t).0 in
        cc (
          choose_endpoint-told status.endpoint_url (Route.reconcile env c s).0,
          (route-Keeps env (Allows-Reported env.lower_wide (reports s.log)) c).holds_after s refl,
          (domain-Keeps env (Allows-Reported env.lower_wide (reports t.log)) c).holds_after t refl,
          report_domain_statuses-reports env cfg can statuses u,
          put_agent_k8s_status-reports env can cfg.hydra c.id
              (status_report status
                (choose_endpoint status.endpoint_url (Route.reconcile env c s).0))
              (report_domain_statuses env cfg statuses u).1,
        )

    sync_container-reports :
        (c : Wire.Container) (s : Session env.World)
        → reports (sync_container env cfg c s).1.log ≡ round_reports c (round c s) (reports s.log)
    unfolding sync_container or_return
    sync_container-reports c s = elim (Result-cases (Container.reconcile env c s).0) [
      | inl (status, done) ↦ ground (
        arith,
        finish_container-reports c status (Container.reconcile env c s).1,
        (container-Keeps env (Allows-Reported env.lower_wide (reports s.log)) c).holds_after s refl,
      )
      | inr (e, failed) ↦ ground (
        arith,
        put_agent_k8s_status-reports env can cfg.hydra c.id error_report
            (Container.reconcile env c s).1,
        (container-Keeps env (Allows-Reported env.lower_wide (reports s.log)) c).holds_after s refl,
      )
    ]

    sync_containers-reports :
        (n : ℕ) (containers : List Wire.Container) (s : Session env.World)
        → reports (sync_containers env cfg n containers s).1.log
          ≡ container_reports containers (rounds containers s) (reports s.log)
    unfolding sync_containers ◌>>=◌
    sync_containers-reports n [] s = refl
    sync_containers-reports n (c ∷ containers) s =
        sync_containers-reports (if (sync_container env cfg c s).0 then suc n else n) containers
          (sync_container env cfg c s).1
        ∙ ap (container_reports containers (rounds containers (sync_container env cfg c s).1))
            (sync_container-reports c s)

  finished-is_running :
      (c : Wire.Container) (r : Result String ContainerStatus) (t : Session env.World)
      → (elim r as (λ _. Bool × Session env.World) [
        | ok status ↦ finish_container env cfg c status t
        | err _ ↦ (put_agent_k8s_status env cfg.hydra c.id error_report >> pure false) t
      ]).0
        ≡ is_running (round_from c r t)
  unfolding finish_container ◌>>=◌
  finished-is_running c (ok status) t = refl
  finished-is_running c (err e) t = refl

  -- A round counts as ready exactly if it reports the container as running.
  sync_container-is_running :
      (c : Wire.Container) (s : Session env.World)
      → (sync_container env cfg c s).0 ≡ is_running (round c s)
  unfolding sync_container or_return
  sync_container-is_running c s =
      finished-is_running c (Container.reconcile env c s).0 (Container.reconcile env c s).1

  sync_containers-count :
      (n : ℕ) (containers : List Wire.Container) (s : Session env.World)
      → (sync_containers env cfg n containers s).0 ≡ n + count_if is_running (rounds containers s)
  unfolding sync_containers ◌>>=◌
  sync_containers-count n [] s = omega arith
  sync_containers-count n (c ∷ containers) s = ground (
    arith,
    sync_container-is_running c s,
    sync_containers-count (suc n) containers (sync_container env cfg c s).1,
    sync_containers-count n containers (sync_container env cfg c s).1,
  )

  -- When requests can be built, the containers are reported in their order, each once: as `error` if its service could not be
  -- applied, and otherwise with the status read from the service and with the route's endpoint in
  -- place of the service's where there is one, after a report for each of its domains that has an
  -- ID. The count that goes into the cluster status is the number of containers reported as running.
  pub reconcile_containers-reports :
      CanSend env
      → (containers : List Wire.Container) (s : Session env.World)
      → (reports (reconcile_containers env cfg containers s).1.log
          ≡ container_reports containers (rounds containers s) (reports s.log))
        × ((reconcile_containers env cfg containers s).0
            ≡ count_if is_running (rounds containers s))
  unfolding reconcile_containers
  reconcile_containers-reports can containers s = (
    sync_containers-reports can 0 containers s,
    omega (arith, sync_containers-count 0 containers s),
  )
