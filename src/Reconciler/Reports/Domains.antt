-- ===== src/Reconciler/Reports/Domains.antt =====
-- The reports of `reportDomainStatuses`.
use hydra_operator.Base.{◌≡◌, refl, List, [], ◌∷◌, ok, arith, is_empty, if◌then◌else◌, ◌∙◌, ap}
use hydra_operator.Wire.{DomainStatusRequest}
use hydra_operator.Kube.Calls.{domain_status}
use hydra_operator.Kube.Env.{Env, CanSend, Session, Action, ◌>>=◌, pure}
use hydra_operator.Hydra.Client.{Failable, put_domain_status}
use hydra_operator.Reconciler.Domain.{DomainStatus}
use hydra_operator.Reconciler.Manager.{ManagerConfig, report_domain_statuses}
use hydra_operator.Reconciler.Reports.Defs.{Sent, reports, domain_url, put_domain_status-reports}

abbrev pub status_of : DomainStatus → DomainStatusRequest
status_of d = record { status = d.status; error_message = d.error }

module _ (env : Env) (cfg : ManagerConfig) where
  abbrev pub domain_sent : DomainStatus → Sent
  domain_sent d = (domain_url cfg.hydra d.id, domain_status (status_of d))

  -- One report for each status that has an ID, on top of those before.
  abbrev pub domain_reports : List DomainStatus → List Sent → List Sent
  domain_reports [] before = before
  domain_reports (d ∷ statuses) before =
      domain_reports statuses (if is_empty d.id then before else domain_sent d ∷ before)

  module _ (can : CanSend env) where
    abbrev report_one : DomainStatus → Action env.World Failable
    report_one d =
        if is_empty d.id then pure (ok tt) else put_domain_status env cfg.hydra d.id (status_of d)

    report_one-reports :
        (d : DomainStatus) (s : Session env.World)
        → reports (report_one d s).1.log
          ≡ (if is_empty d.id then reports s.log else domain_sent d ∷ reports s.log)
    unfolding pure
    report_one-reports d s =
        ground (arith, put_domain_status-reports env can cfg.hydra d.id (status_of d) s)

    -- When requests can be built, each status with an ID is reported once, in order; one without is
    -- passed over.
    pub report_domain_statuses-reports :
        (statuses : List DomainStatus) (s : Session env.World)
        → reports (report_domain_statuses env cfg statuses s).1.log
          ≡ domain_reports statuses (reports s.log)
    unfolding report_domain_statuses ◌>>=◌
    report_domain_statuses-reports [] s = refl
    report_domain_statuses-reports (d ∷ statuses) s =
        report_domain_statuses-reports statuses (report_one d s).1
        ∙ ap (domain_reports statuses) (report_one-reports d s)
