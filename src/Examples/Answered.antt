-- ===== src/Examples/Answered.antt =====
-- The theorems about what a round comes to, at concrete inputs.
use hydra_operator.Base.{◌+◌, ◌*◌, ◌≤◌, ◌≡◌, refl, some, [], ◌∷◌, ok, arith, length}
use hydra_operator.Kube.Calls.{Kind, service_object, update_call, get_call}
use hydra_operator.Kube.Objects.{Service}
use hydra_operator.Kube.Env.{Session}
use hydra_operator.Kube.Laws.{Answers}
use hydra_operator.Kube.Memory.{table-Answers}
use hydra_operator.Kube.Fake.{World, start, empty_world}
use hydra_operator.Reconciler.Naming.{ksvc_name_for}
use hydra_operator.Reconciler.Naming.Labels.{IsDnsLabel, ksvc_name_for-IsDnsLabel}
use hydra_operator.Base.Text.{codes, to_lower}
use hydra_operator.Reconciler.Status.{ContainerStatus}
use hydra_operator.Reconciler.Container
use hydra_operator.Reconciler.Container.Settles.{service_name, service_view}
use hydra_operator.Reconciler.Container.Progress.{service_version, service-progress}
use hydra_operator.Reconciler.Container.Updates.{Updates, reconcile-Updates}
use hydra_operator.Reconciler.Domain.Settles.{mapping_name}
use hydra_operator.Reconciler.Domain.Progress.{mapping_version}
use hydra_operator.Reconciler.Route.Settles.{route_name}
use hydra_operator.Reconciler.Route.Progress.{route_version}
use hydra_operator.Reconciler.Namespace
use hydra_operator.Reconciler.Namespace.Settles.{quota_name, wanted_limits}
use hydra_operator.Reconciler.Namespace.Progress.{
  namespace_name, namespace_version, quota_version, limits-progress,
}
use hydra_operator.Reconciler.Manager.{sync_once}
use hydra_operator.Reconciler.Bounds.Sync.{container_calls, sync_once-bounds}
use hydra_operator.Examples.Data.{env, cfg, state, agent, prod, fresh, with_gatekeeper}
use hydra_operator.Examples.Settled.{filled, services_in, services-Obeys}
use hydra_operator.Examples.Witnesses.{quotas_in, quotas-Obeys, pulled}

pub services-Answers : Answers env.services service_name service_version
services-Answers =
    table-Answers (λ w. w.services) (λ t w. record w { services = t }) service_name service_version

pub routes-Answers : Answers env.routes route_name route_version
routes-Answers =
    table-Answers (λ w. w.routes) (λ t w. record w { routes = t }) route_name route_version

pub namespaces-Answers : Answers env.namespaces namespace_name namespace_version
namespaces-Answers =
    table-Answers (λ w. w.namespaces) (λ t w. record w { namespaces = t }) namespace_name
      namespace_version

pub quotas-Answers : Answers env.resource_quotas quota_name quota_version
quotas-Answers =
    table-Answers (λ w. w.resource_quotas) (λ t w. record w { resource_quotas = t }) quota_name
      quota_version

pub mappings-Answers : Answers env.domain_mappings mapping_name mapping_version
mappings-Answers =
    table-Answers (λ w. w.domain_mappings) (λ t w. record w { domain_mappings = t }) mapping_name
      mapping_version

service-progress_example :
    ((status : ContainerStatus) × ((Container.reconcile env agent fresh).0 ≡ ok status))
    × (services_in "prod"
          (ksvc_name_for env.lower_wide "AGENT-1")
          (Container.reconcile env agent fresh).1.world
        ≡ some (
            service_view filled
              (Container.build_service env (ksvc_name_for env.lower_wide "AGENT-1") agent)))
service-progress_example =
    service-progress env services-Answers agent filled services_in services-Obeys fresh

limits-progress_example :
    ((Namespace.reconcile env prod fresh).0 ≡ ok tt)
    × (quotas_in "prod" "hydra-quota" (Namespace.reconcile env prod fresh).1.world
        ≡ wanted_limits env prod)
limits-progress_example =
    limits-progress env namespaces-Answers quotas-Answers prod quotas_in quotas-Obeys fresh refl

sync_once-bounds_example :
    length (sync_once env cfg with_gatekeeper).1.log
    ≤ 21 + 5 * length state.namespaces + container_calls state.containers + 0
sync_once-bounds_example = sync_once-bounds env cfg with_gatekeeper state pulled

ksvc_name_for-IsDnsLabel_example :
    IsDnsLabel (codes (ksvc_name_for (λ c. c) "3F2504E0-4F89-41D3-9A0C-0305E82C3301"))
ksvc_name_for-IsDnsLabel_example =
    ksvc_name_for-IsDnsLabel (λ c. c) "3F2504E0-4F89-41D3-9A0C-0305E82C3301" refl refl (omega arith)

-- The cluster of `with_gatekeeper`, with the service of the container in it.
abbrev deployed : Service
deployed = Container.build_service env (ksvc_name_for env.lower_wide "AGENT-1") agent

with_service : Session World
with_service = start (record empty_world {
  services = ("prod", ksvc_name_for env.lower_wide "AGENT-1", deployed) ∷ [];
})

service_found :
    (env.services.get "prod" (ksvc_name_for env.lower_wide "AGENT-1") with_service.world).0
    ≡ ok deployed
unfolding with_service ksvc_name_for to_lower
service_found = refl

reconcile-Updates_example :
    (sent : Service) × ((Container.reconcile env agent with_service).1.log
      ≡ update_call "prod" (service_object sent)
        ∷ get_call Kind.services "prod" (ksvc_name_for env.lower_wide "AGENT-1")
        ∷ [])
    × Updates deployed deployed sent
unfolding with_service
reconcile-Updates_example = reconcile-Updates env agent deployed with_service service_found
