-- ===== src/Reconciler/Ownership/Cluster.antt =====
-- The reconcilers of namespaces, containers, routes and domains stay within what the operator owns.
use hydra_operator.Base.{String, ◌≡◌, refl, Option, none, some, List, [], ◌∷◌}
use hydra_operator.Wire
use hydra_operator.Wire.{CustomDomain}
use hydra_operator.Kube.Objects
use hydra_operator.Kube.Objects.{ResourceQuota, Service}
use hydra_operator.Reconciler.Naming.{ksvc_name_for, agent_labels}
use hydra_operator.Kube.Env.{Env}
use hydra_operator.Kube.Calls.{Kind, service_object, route_object, Call}
use hydra_operator.Kube.Keeps.{Allows, Keeps, Keeps-pure, Keeps-bind, keeps_rules}
use hydra_operator.Reconciler.Namespace
use hydra_operator.Reconciler.Container
use hydra_operator.Reconciler.Route
use hydra_operator.Reconciler.Domain
use hydra_operator.Reconciler.Ownership.Defs.{IsClusterCall, MayWrite, MayDelete}

module _ (env : Env) {P : List Call → Type 0}
    (allow : (c : Call) → IsClusterCall env.lower_wide c → Allows P c) where
  ensure_namespace-Keeps : (name : String) → Keeps P (Namespace.ensure_namespace env name)
  unfolding Namespace.ensure_namespace
  ensure_namespace-Keeps name = search (keeps_rules, allow) depth 12

  require_namespace-Keeps : (name : String) → Keeps P (Namespace.require_namespace env name)
  unfolding Namespace.require_namespace
  require_namespace-Keeps name = search (keeps_rules, allow) depth 12

  remove_quota-Keeps :
      (ns : Wire.Namespace) (q : Option ResourceQuota) → Keeps P (Namespace.remove_quota env ns q)
  unfolding Namespace.remove_quota
  remove_quota-Keeps ns none = search keeps_rules
  remove_quota-Keeps ns (some q) = search (keeps_rules, allow) depth 12

  write_quota-Keeps :
      (ns : Wire.Namespace) (q : Option ResourceQuota) → Keeps P (Namespace.write_quota env ns q)
  unfolding Namespace.write_quota
  write_quota-Keeps ns none = search (keeps_rules, allow) depth 12
  write_quota-Keeps ns (some q) = search (keeps_rules, allow) depth 12

  reconcile_quota-Keeps : (ns : Wire.Namespace) → Keeps P (Namespace.reconcile_quota env ns)
  unfolding Namespace.reconcile_quota
  reconcile_quota-Keeps ns =
      search (keeps_rules, allow, remove_quota-Keeps, write_quota-Keeps) depth 12

  pub namespace-Keeps : (ns : Wire.Namespace) → Keeps P (Namespace.reconcile env ns)
  unfolding Namespace.reconcile
  namespace-Keeps ns =
      search (keeps_rules, ensure_namespace-Keeps, require_namespace-Keeps, reconcile_quota-Keeps)
        depth 12

  module _ (c : Wire.Container) where
    -- The object of a container, with whatever an update carries forward.
    service-MayWrite :
        (u : Service)
        → u.meta.name ≡ ksvc_name_for env.lower_wide c.id
        → u.meta.labels ≡ agent_labels c.id
        → u.meta.namespace ≡ c.namespace_k8s_name
        → MayWrite env.lower_wide c.namespace_k8s_name (service_object u)
    service-MayWrite u name labels namespace = (c.id, name, labels, namespace)

    route_object-MayWrite :
        (u : Objects.Route)
        → u.meta.name ≡ ksvc_name_for env.lower_wide c.id
        → u.meta.labels ≡ agent_labels c.id
        → u.meta.namespace ≡ c.namespace_k8s_name
        → MayWrite env.lower_wide c.namespace_k8s_name (route_object u)
    route_object-MayWrite u name labels namespace = (c.id, name, labels, namespace)

    route_name-MayDelete : MayDelete env.lower_wide Kind.routes (ksvc_name_for env.lower_wide c.id)
    route_name-MayDelete = (c.id, refl)

  pub container-Keeps : (c : Wire.Container) → Keeps P (Container.reconcile env c)
  unfolding Container.reconcile Container.build_service
  container-Keeps c = search (keeps_rules, allow, service-MayWrite c) depth 12

  remove_route-Keeps : (c : Wire.Container) → Keeps P (Route.remove_route env c)
  unfolding Route.remove_route
  remove_route-Keeps c = search (keeps_rules, allow, route_name-MayDelete c) depth 12

  apply_route-Keeps : (c : Wire.Container) → Keeps P (Route.apply_route env c)
  unfolding Route.apply_route Route.build_route
  apply_route-Keeps c = search (keeps_rules, allow, route_object-MayWrite c) depth 12

  pub route-Keeps : (c : Wire.Container) → Keeps P (Route.reconcile env c)
  unfolding Route.reconcile
  route-Keeps c = search (keeps_rules, remove_route-Keeps, apply_route-Keeps) depth 12

  reconcile_one-Keeps :
      (ns hostname name : String) → Keeps P (Domain.reconcile_one env ns hostname name)
  unfolding Domain.reconcile_one Domain.apply_mapping Domain.build_mapping
  reconcile_one-Keeps ns hostname name = search (keeps_rules, allow) depth 12

  reconcile_domains-Keeps :
      (ns name : String) (domains : List CustomDomain)
      → Keeps P (Domain.reconcile_domains env ns name domains)
  unfolding Domain.reconcile_domains
  reconcile_domains-Keeps ns name [] = search keeps_rules
  reconcile_domains-Keeps ns name (domain ∷ domains) =
      Keeps-bind _ _ (reconcile_one-Keeps ns domain.hostname name)
        (λ status. Keeps-bind _ _ (reconcile_domains-Keeps ns name domains) (λ rest. Keeps-pure _))

  pub domain-Keeps : (c : Wire.Container) → Keeps P (Domain.reconcile env c)
  unfolding Domain.reconcile
  domain-Keeps c = reconcile_domains-Keeps _ _ _
