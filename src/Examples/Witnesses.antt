-- ===== src/Examples/Witnesses.antt =====
-- The theorems at concrete inputs, over the environment in memory.
use mathlib.Core.Option
use hydra_operator.Base.{String, ◌≡◌, refl, [], Option, ok}
use hydra_operator.Kube.Objects.{ResourceList}
use hydra_operator.Kube.Env.{CanSend, ◌>>=◌, or_return, unless, perform, get, create}
use hydra_operator.Kube.Laws.{Obeys}
use hydra_operator.Kube.Memory.{find, table-Obeys}
use hydra_operator.Kube.Fake.{World}
use hydra_operator.Hydra.Client.{send, build_request, read_response, get_desired_state}
use hydra_operator.Reconciler.Namespace
use hydra_operator.Reconciler.Namespace.Settles.{
  quota_name, quota_hard, wanted_limits, reconcile-limits,
}
use hydra_operator.Reconciler.Manager.{sync_once}
use hydra_operator.Reconciler.Ownership.{AllOwned}
use hydra_operator.Reconciler.Ownership.Sync.{sync_once-IsOwned}
use hydra_operator.Reconciler.Reports.{reports}
use hydra_operator.Reconciler.Reports.Sync.{round_total, sync_once-reports}
use hydra_operator.Examples.Data.{env, cfg, hydra, state, prod, fresh, with_gatekeeper}

pub can_send : CanSend env
can_send = record { marshals = λ b. refl; builds = λ method url. refl }

sync_once-IsOwned_example : AllOwned env.lower_wide hydra (sync_once env cfg with_gatekeeper).1.log
sync_once-IsOwned_example = sync_once-IsOwned env cfg with_gatekeeper tt

pub pulled : (get_desired_state env hydra with_gatekeeper).0 ≡ ok state
unfolding get_desired_state send unless perform build_request read_response ◌>>=◌ or_return
pulled = refl

sync_once-reports_example :
    reports (sync_once env cfg with_gatekeeper).1.log
    ≡ round_total env cfg state (get_desired_state env hydra with_gatekeeper).1 []
sync_once-reports_example = sync_once-reports env cfg can_send with_gatekeeper state pulled

unfoldable pub quotas_in : String → String → World → Option ResourceList
quotas_in ns name w = Option.map quota_hard (find ns name w.resource_quotas)

pub quotas-Obeys : Obeys env.resource_quotas quotas_in quota_name quota_hard
unfolding quotas_in
quotas-Obeys =
    table-Obeys (λ w. w.resource_quotas) (λ t w. record w { resource_quotas = t }) quota_name
      (λ t w. refl) quota_hard

prod_done : (Namespace.reconcile env prod fresh).0 ≡ ok tt
unfolding Namespace.reconcile Namespace.ensure_namespace Namespace.reconcile_quota
    Namespace.write_quota or_return get create
prod_done = refl

reconcile-limits_example :
    quotas_in "prod" "hydra-quota" (Namespace.reconcile env prod fresh).1.world
    ≡ wanted_limits env prod
reconcile-limits_example = reconcile-limits env quotas_in quotas-Obeys prod fresh prod_done
