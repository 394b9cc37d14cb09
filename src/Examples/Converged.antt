-- ===== src/Examples/Converged.antt =====
-- The theorem about the services after a round, for two containers of one namespace.
use mathlib.Core.List.Memᴰ.{head}
use hydra_operator.Base.{String, ◌≡◌, ◌≢◌, refl, false, [], ◌∷◌, ok, All, some, inr, arith, eq_iff}
use hydra_operator.Base.Text.{to_lower}
use hydra_operator.Wire
use hydra_operator.Wire.{DesiredState}
use hydra_operator.Kube.Objects
use hydra_operator.Kube.Objects.{
  NamespaceObject, ResourceQuota, Service, DomainMapping, Unstructured,
}
use hydra_operator.Kube.Env.{Env, unless, perform, ◌>>=◌, or_return}
use hydra_operator.Kube.Leaves.{StillResource, StillOn, StillOn-all}
use hydra_operator.Kube.Names.{object_name}
use hydra_operator.Kube.Memory.{Table, table-Still, table-StillOn}
use hydra_operator.Kube.Fake.{World, fake_env, objects_of}
use hydra_operator.Hydra.Client.{get_desired_state, send, build_request, read_response}
use hydra_operator.Reconciler.Naming.{ksvc_name_for}
use hydra_operator.Reconciler.Namespace.Settles.{quota_name, quota_hard, wanted_limits}
use hydra_operator.Reconciler.Container.Settles.{service_name, service_view}
use hydra_operator.Reconciler.Route.Settles.{route_name, route_view, wanted_route}
use hydra_operator.Reconciler.Manager.{sync_once}
use hydra_operator.Reconciler.Convergence.{
  Undisturbed, AllApart, AllNamed, Free, but_service, but_route, but_quota, but_mapping,
  AllHostedApart,
}
use hydra_operator.Reconciler.Convergence.Containers.{
  wanted_service, sync_once-converges, sync_once-routes,
}
use hydra_operator.Reconciler.Convergence.Limits.{sync_once-limits}
use hydra_operator.Reconciler.Convergence.Mappings.{mapped_to, sync_once-mappings}
use hydra_operator.Reconciler.Domain.Settles.{mapping_name, mapping_view}
use hydra_operator.Examples.Data.{cfg, state, agent, prod, with_gatekeeper}
use hydra_operator.Examples.Settled.{
  filled, services_in, services-Obeys, routes_in, routes-Obeys, mappings_in, mappings-Obeys,
}
use hydra_operator.Examples.Witnesses.{quotas_in, quotas-Obeys}
use hydra_operator.Examples.Answered.{
  services-Answers, routes-Answers, namespaces-Answers, quotas-Answers, mappings-Answers,
}

abbrev helper : Wire.Container
helper = record agent {
  id = "helper";
  custom_domains = record { id = "domain-2"; hostname = "help.example.com" } ∷ [];
  needs_openshift_route = false;
}

abbrev both : DesiredState
both = record state { containers = agent ∷ helper ∷ [] }

abbrev both_env : Env
both_env = fake_env both

-- In memory, a client changes only its own table.
module _ {V : Type 0} (part : World → V) (free : Free)
    (not_namespaces : (t : Table NamespaceObject) (w : World)
      → part (record w { namespaces = t }) ≡ part w)
    (not_objects : (t : Table Unstructured) (w : World) → part (record w { objects = t }) ≡ part w)
    (quotas : StillOn part free.quota quota_name both_env.resource_quotas)
    (services : StillOn part free.service service_name both_env.services)
    (routes : StillOn part free.route route_name both_env.routes)
    (mappings : StillOn part free.mapping mapping_name both_env.domain_mappings) where
  objects-Still : StillResource part objects_of
  objects-Still =
      table-Still (λ w. w.objects) (λ t w. record w { objects = t }) object_name part not_objects

  tables-Undisturbed : Undisturbed both_env part free
  tables-Undisturbed = record {
    namespaces =
        table-Still (λ w. w.namespaces) (λ t w. record w { namespaces = t }) (λ o. o.meta.name) part
          not_namespaces;
    resource_quotas = quotas;
    services = services;
    routes = routes;
    domain_mappings = mappings;
    dynamic = λ gvr. record {
      still_get = λ n m w. objects-Still.still_get gvr.resource m w;
      still_create = λ n t w. objects-Still.still_create gvr.resource t w;
      still_update = λ n t w. objects-Still.still_update gvr.resource t w;
      still_delete = λ n m w. objects-Still.still_delete gvr.resource m w;
    };
    core_service = λ n m w. refl;
    discover = λ group w. refl;
    server_version = λ w. refl;
    list_nodes = λ w. refl;
    round_trip = λ req w. refl;
  }

module _ {V : Type 0} (part : World → V) {free : String → String → Type 0} where
  any_quota :
      ((t : Table ResourceQuota) (w : World) → part (record w { resource_quotas = t }) ≡ part w)
      → StillOn part free quota_name both_env.resource_quotas
  any_quota unread = StillOn-all _ (
      table-Still (λ w. w.resource_quotas) (λ t w. record w { resource_quotas = t }) quota_name part
        unread)

  any_service :
      ((t : Table Service) (w : World) → part (record w { services = t }) ≡ part w)
      → StillOn part free service_name both_env.services
  any_service unread =
      StillOn-all _
        (table-Still (λ w. w.services) (λ t w. record w { services = t }) service_name part unread)

  any_route :
      ((t : Table Objects.Route) (w : World) → part (record w { routes = t }) ≡ part w)
      → StillOn part free route_name both_env.routes
  any_route unread =
      StillOn-all _
        (table-Still (λ w. w.routes) (λ t w. record w { routes = t }) route_name part unread)

  any_mapping :
      ((t : Table DomainMapping) (w : World) → part (record w { domain_mappings = t }) ≡ part w)
      → StillOn part free mapping_name both_env.domain_mappings
  any_mapping unread = StillOn-all _ (
      table-Still (λ w. w.domain_mappings) (λ t w. record w { domain_mappings = t }) mapping_name
        part unread)

services-Undisturbed :
    (ns name : String) → Undisturbed both_env (services_in ns name) (but_service ns name)
unfolding services_in
services-Undisturbed ns name =
    tables-Undisturbed (services_in ns name) (but_service ns name) (λ t w. refl) (λ t w. refl)
      (any_quota _ (λ t w. refl))
      (table-StillOn (λ w. w.services) (λ t w. record w { services = t }) service_name
        (service_view filled) ns name (λ t w. refl))
      (any_route _ (λ t w. refl)) (any_mapping _ (λ t w. refl))

routes-Undisturbed :
    (ns name : String) → Undisturbed both_env (routes_in ns name) (but_route ns name)
unfolding routes_in
routes-Undisturbed ns name =
    tables-Undisturbed (routes_in ns name) (but_route ns name) (λ t w. refl) (λ t w. refl)
      (any_quota _ (λ t w. refl)) (any_service _ (λ t w. refl))
      (table-StillOn (λ w. w.routes) (λ t w. record w { routes = t }) route_name route_view ns name
        (λ t w. refl))
      (any_mapping _ (λ t w. refl))

quotas-Undisturbed :
    (ns name : String) → Undisturbed both_env (quotas_in ns name) (but_quota ns name)
unfolding quotas_in
quotas-Undisturbed ns name =
    tables-Undisturbed (quotas_in ns name) (but_quota ns name) (λ t w. refl) (λ t w. refl)
      (table-StillOn (λ w. w.resource_quotas) (λ t w. record w { resource_quotas = t }) quota_name
        quota_hard ns name (λ t w. refl))
      (any_service _ (λ t w. refl)) (any_route _ (λ t w. refl)) (any_mapping _ (λ t w. refl))

mappings-Undisturbed :
    (ns name : String) → Undisturbed both_env (mappings_in ns name) (but_mapping ns name)
unfolding mappings_in
mappings-Undisturbed ns name =
    tables-Undisturbed (mappings_in ns name) (but_mapping ns name) (λ t w. refl) (λ t w. refl)
      (any_quota _ (λ t w. refl)) (any_service _ (λ t w. refl)) (any_route _ (λ t w. refl))
      (table-StillOn (λ w. w.domain_mappings) (λ t w. record w { domain_mappings = t }) mapping_name
        mapping_view ns name (λ t w. refl))

names_differ :
    ksvc_name_for both_env.lower_wide "helper" ≢ ksvc_name_for both_env.lower_wide "AGENT-1"
unfolding ksvc_name_for to_lower
names_differ = λ same. ground (arith, eq_iff "ksvc-helper" "ksvc-agent-1", same)

both_apart : AllApart both_env.lower_wide both.containers
both_apart = ((inr names_differ, tt), (tt, tt))

both_pulled : (get_desired_state both_env cfg.hydra with_gatekeeper).0 ≡ ok both
unfolding get_desired_state send unless perform build_request read_response ◌>>=◌ or_return
both_pulled = refl

both_named : AllNamed both.namespaces
both_named = ((λ same. ground (arith, eq_iff "absent" "prod", same), tt), (tt, tt))

sync_once-converges_example :
    All
      (λ c.
        services_in c.namespace_k8s_name
          (ksvc_name_for both_env.lower_wide c.id)
          (sync_once both_env cfg with_gatekeeper).1.world
        ≡ wanted_service both_env filled c)
      both.containers
sync_once-converges_example =
    sync_once-converges both_env cfg services-Answers filled services_in services-Obeys
      services-Undisturbed with_gatekeeper both both_pulled both_apart

sync_once-routes_example :
    All
      (λ c.
        routes_in c.namespace_k8s_name
          (ksvc_name_for both_env.lower_wide c.id)
          (sync_once both_env cfg with_gatekeeper).1.world
        ≡ wanted_route both_env c)
      both.containers
sync_once-routes_example =
    sync_once-routes both_env cfg services-Answers routes-Answers routes_in routes-Obeys
      routes-Undisturbed with_gatekeeper both both_pulled both_apart

sync_once-limits_example :
    quotas_in "prod" "hydra-quota" (sync_once both_env cfg with_gatekeeper).1.world
    ≡ wanted_limits both_env prod
sync_once-limits_example =
    sync_once-limits both_env cfg namespaces-Answers quotas-Answers quotas_in quotas-Obeys
      quotas-Undisturbed with_gatekeeper both both_pulled both_named prod (head refl) refl

both_hosted : AllHostedApart both.containers
both_hosted = (
  ((λ same. ground (arith, eq_iff "old.example.com" "app.example.com", same), tt), (tt, tt)),
  (
    (
      (inr (λ same. ground (arith, eq_iff "help.example.com" "app.example.com", same)), tt),
      ((inr (λ same. ground (arith, eq_iff "help.example.com" "old.example.com", same)), tt), tt),
    ),
    tt,
  ),
  ((tt, tt), tt, tt),
)

sync_once-mappings_example :
    All
      (λ c.
        All
          (λ d.
            mappings_in c.namespace_k8s_name d.hostname
              (sync_once both_env cfg with_gatekeeper).1.world
            ≡ some (mapped_to (ksvc_name_for both_env.lower_wide c.id)))
          c.custom_domains)
      both.containers
sync_once-mappings_example =
    sync_once-mappings both_env cfg mappings-Answers mappings_in mappings-Obeys mappings-Undisturbed
      services-Answers with_gatekeeper both both_pulled both_hosted
