-- ===== src/Examples/Settled.antt =====
-- The theorems about what a reconciler leaves in the cluster, at concrete inputs.
use mathlib.Core.Option
use hydra_operator.Base.{String, ◌≡◌, ◌≢◌, refl, none, some, [], ◌∷◌, Option, ok, arith}
use hydra_operator.Base.Int.{ℤ, pos}
use hydra_operator.Base.Dict.{Dict}
use hydra_operator.Kube.Objects.{ServiceSpec, DomainMapping, Reference}
use hydra_operator.Kube.Env.{Session, or_return, get, create, update}
use hydra_operator.Kube.Laws.{Obeys}
use hydra_operator.Kube.Memory.{find, table-Obeys}
use hydra_operator.Kube.Fake.{World, empty_world, start}
use hydra_operator.Reconciler.Naming.{ksvc_name_for}
use hydra_operator.Reconciler.Status.{ContainerStatus, derive_container_status, collect_revisions}
use hydra_operator.Reconciler.Container
use hydra_operator.Reconciler.Container.Settles.{service_name, service_view, reconcile-service}
use hydra_operator.Reconciler.Container.Restart.{build_service-restart}
use hydra_operator.Reconciler.Route
use hydra_operator.Reconciler.Route.Settles.{
  RouteView, route_name, route_view, wanted_route, reconcile-route,
}
use hydra_operator.Reconciler.Domain
use hydra_operator.Reconciler.Domain.Settles.{mapping_name, mapping_view, reconcile_one-active}
use hydra_operator.TokenStore.{Store, build_secret, load, save}
use hydra_operator.TokenStore.RoundTrip.{secret_name_of, secret_view, load-save}
use hydra_operator.Examples.Data.{env, agent, fresh}

abbrev defaulted : Option ℤ → ℤ
defaulted none = pos 0
defaulted (some n) = n

-- Knative's default for a concurrency that is nil.
abbrev pub filled : ServiceSpec → ServiceSpec
filled spec = record spec {
  template = record spec.template {
    container_concurrency = some (defaulted spec.template.container_concurrency);
  };
}

unfoldable pub services_in : String → String → World → Option (Dict String × ServiceSpec)
services_in ns name w = Option.map (service_view filled) (find ns name w.services)

pub services-Obeys : Obeys env.services services_in service_name (service_view filled)
unfolding services_in
services-Obeys =
    table-Obeys (λ w. w.services) (λ t w. record w { services = t }) service_name (λ t w. refl)
      (service_view filled)

deploying : ContainerStatus
deploying = record {
  status = "deploying";
  ready_replicas = 0;
  endpoint_url = "";
  active_revision = "";
  revisions = [];
}

agent_done : (Container.reconcile env agent fresh).0 ≡ ok deploying
unfolding Container.reconcile or_return get create derive_container_status deploying
    collect_revisions Container.build_service
agent_done = refl

reconcile-service_example :
    services_in "prod"
      (ksvc_name_for env.lower_wide "AGENT-1")
      (Container.reconcile env agent fresh).1.world
    ≡ some (
        service_view filled
          (Container.build_service env (ksvc_name_for env.lower_wide "AGENT-1") agent))
reconcile-service_example =
    reconcile-service env filled services_in services-Obeys agent fresh deploying agent_done

unfoldable pub routes_in : String → String → World → Option RouteView
routes_in ns name w = Option.map route_view (find ns name w.routes)

pub routes-Obeys : Obeys env.routes routes_in route_name route_view
unfolding routes_in
routes-Obeys =
    table-Obeys (λ w. w.routes) (λ t w. record w { routes = t }) route_name (λ t w. refl) route_view

route_done : (Route.reconcile env agent fresh).0 ≡ ok ""
unfolding Route.reconcile Route.apply_route Route.build_route Route.endpoint_from_route or_return
    get create
route_done = refl

reconcile-route_example :
    routes_in "prod"
      (ksvc_name_for env.lower_wide "AGENT-1")
      (Route.reconcile env agent fresh).1.world
    ≡ wanted_route env agent
reconcile-route_example = reconcile-route env routes_in routes-Obeys agent fresh "" route_done

unfoldable pub mappings_in : String → String → World → Option (Dict String × Reference)
mappings_in ns name w = Option.map mapping_view (find ns name w.domain_mappings)

pub mappings-Obeys : Obeys env.domain_mappings mappings_in mapping_name mapping_view
unfolding mappings_in
mappings-Obeys =
    table-Obeys (λ w. w.domain_mappings) (λ t w. record w { domain_mappings = t }) mapping_name
      (λ t w. refl) mapping_view

-- A cluster in which the mapping of a hostname is there and ready.
abbrev ready_mapping : DomainMapping
ready_mapping = record {
  meta = record {
    name = "app";
    namespace = "prod";
    labels = [];
    annotations = [];
    resource_version = "7";
  };
  ref = record { api_version = ""; kind = ""; name = "other" };
  ready = some "True";
}

mapped : Session World
mapped = start (record empty_world { domain_mappings = ("prod", "app", ready_mapping) ∷ [] })

mapping_active : (Domain.reconcile_one env "prod" "app" "ksvc-1" mapped).0.status ≡ "active"
unfolding mapped Domain.reconcile_one Domain.apply_mapping Domain.build_mapping Domain.outcome
    or_return get update
mapping_active = refl

reconcile_one-active_example :
    mappings_in "prod" "app" (Domain.reconcile_one env "prod" "app" "ksvc-1" mapped).1.world
    ≡ some (mapping_view (Domain.build_mapping "prod" "app" "ksvc-1"))
reconcile_one-active_example =
    reconcile_one-active env mappings_in mappings-Obeys "prod" "app" "ksvc-1" mapped mapping_active

build_service-restart_example :
    (Container.build_service env "ksvc-1" agent).spec.template
    ≢ (Container.build_service env "ksvc-1"
        (record agent { restart_generation = pos 3 })).spec.template
build_service-restart_example =
    build_service-restart env "ksvc-1" agent (record agent { restart_generation = pos 3 }) 2 3 refl
      refl (omega arith)

unfoldable pub secrets_in : String → String → World → Option (Dict String)
secrets_in ns name w = Option.map secret_view (find ns name w.secrets)

pub secrets-Obeys : Obeys env.secrets secrets_in secret_name_of secret_view
unfolding secrets_in
secrets-Obeys =
    table-Obeys (λ w. w.secrets) (λ t w. record w { secrets = t }) secret_name_of (λ t w. refl)
      secret_view

abbrev pub store : Store
store = record { namespace = "hydra"; secret_name = "token" }

quiet_read :
    (ns name : String) (w : World)
    → secrets_in ns name (env.secrets.get ns name w).1 ≡ secrets_in ns name w
quiet_read ns name w = ground arith

token_saved : (save env store "jwt-abc" fresh).0 ≡ ok tt
unfolding save or_return create build_secret
token_saved = refl

restarted : Session World
restarted = start (save env store "jwt-abc" fresh).1.world

token_loaded : (load env store restarted).0 ≡ ok "jwt-abc"
unfolding restarted load save or_return get create build_secret
token_loaded = refl

same_secret :
    secrets_in "hydra" "token" restarted.world
    ≡ secrets_in "hydra" "token" (save env store "jwt-abc" fresh).1.world
unfolding restarted
same_secret = refl

load-save_example : ◌≡◌ {A = String} "jwt-abc" "jwt-abc"
load-save_example =
    load-save env store secrets_in secrets-Obeys quiet_read "jwt-abc" "jwt-abc" fresh restarted
      token_saved same_secret token_loaded
