-- ===== src/Reconciler/Bounds/Parts.antt =====
-- The number of calls of each reconciler.
use hydra_operator.Base.{◌*◌, String, Option, none, some, List, [], ◌∷◌, arith, length}
use hydra_operator.Wire
use hydra_operator.Wire.{CustomDomain, SecurityPolicy}
use hydra_operator.Kube.Objects.{ResourceQuota, GroupVersionResource, Unstructured}
use hydra_operator.Kube.Env.{Env}
use hydra_operator.Kube.Costs.{Costs, Costs-pure, Costs-bind, Costs-or_return, cost_rules}
use hydra_operator.Capabilities.{group_version_available, kourier_present, probe, detect}
use hydra_operator.Reconciler.Namespace
use hydra_operator.Reconciler.Container
use hydra_operator.Reconciler.Route
use hydra_operator.Reconciler.Domain
use hydra_operator.Reconciler.Policy

module _ (env : Env) where
  group-Costs : (group : String) → Costs 1 (group_version_available env group)
  unfolding group_version_available
  group-Costs group = search cost_rules depth 8

  kourier-Costs : Costs 1 (kourier_present env)
  unfolding kourier_present
  kourier-Costs = search cost_rules depth 8

  probe-Costs : Costs 5 (probe env)
  unfolding probe
  probe-Costs = search (cost_rules, group-Costs, kourier-Costs) depth 16

  pub detect-Costs : Costs 7 (detect env)
  unfolding detect
  detect-Costs = Costs-bind 5 2 _ _ (omega arith) probe-Costs (λ caps. search cost_rules depth 12)

  ensure_namespace-Costs : (name : String) → Costs 2 (Namespace.ensure_namespace env name)
  unfolding Namespace.ensure_namespace
  ensure_namespace-Costs name = search cost_rules depth 12

  require_namespace-Costs : (name : String) → Costs 2 (Namespace.require_namespace env name)
  unfolding Namespace.require_namespace
  require_namespace-Costs name = search cost_rules depth 12

  remove_quota-Costs :
      (ns : Wire.Namespace) (q : Option ResourceQuota) → Costs 1 (Namespace.remove_quota env ns q)
  unfolding Namespace.remove_quota
  remove_quota-Costs ns none = search cost_rules
  remove_quota-Costs ns (some q) = search cost_rules depth 12

  write_quota-Costs :
      (ns : Wire.Namespace) (q : Option ResourceQuota) → Costs 1 (Namespace.write_quota env ns q)
  unfolding Namespace.write_quota
  write_quota-Costs ns none = search cost_rules depth 12
  write_quota-Costs ns (some q) = search cost_rules depth 12

  reconcile_quota-Costs : (ns : Wire.Namespace) → Costs 2 (Namespace.reconcile_quota env ns)
  unfolding Namespace.reconcile_quota
  reconcile_quota-Costs ns = search (cost_rules, remove_quota-Costs, write_quota-Costs) depth 12

  pub namespace-Costs : (ns : Wire.Namespace) → Costs 4 (Namespace.reconcile env ns)
  unfolding Namespace.reconcile
  namespace-Costs ns =
      Costs-or_return 2 2 _ _ _ (omega arith)
        (search (cost_rules, ensure_namespace-Costs, require_namespace-Costs) depth 12)
        (λ e. Costs-pure 2 _) (λ _. reconcile_quota-Costs ns)

  pub container-Costs : (c : Wire.Container) → Costs 2 (Container.reconcile env c)
  unfolding Container.reconcile
  container-Costs c = search cost_rules depth 12

  pub route-Costs : (c : Wire.Container) → Costs 2 (Route.reconcile env c)
  unfolding Route.reconcile Route.apply_route Route.remove_route
  route-Costs c = search cost_rules depth 12

  reconcile_one-Costs :
      (ns hostname name : String) → Costs 2 (Domain.reconcile_one env ns hostname name)
  unfolding Domain.reconcile_one Domain.apply_mapping
  reconcile_one-Costs ns hostname name =
      Costs-bind 2 0 _ _ (omega arith) (search cost_rules depth 12) (λ r. Costs-pure 0 _)

  reconcile_domains-Costs :
      (ns name : String) (domains : List CustomDomain)
      → Costs (2 * length domains) (Domain.reconcile_domains env ns name domains)
  unfolding Domain.reconcile_domains
  reconcile_domains-Costs ns name [] = Costs-pure _ _
  reconcile_domains-Costs ns name (d ∷ domains) =
      Costs-bind 2 (2 * length domains) _ _ (omega arith) (reconcile_one-Costs ns d.hostname name)
        (λ status.
          Costs-bind (2 * length domains) 0 _ _ (omega arith)
            (reconcile_domains-Costs ns name domains) (λ rest. Costs-pure 0 _))

  pub domain-Costs :
      (c : Wire.Container) → Costs (2 * length c.custom_domains) (Domain.reconcile env c)
  unfolding Domain.reconcile
  domain-Costs c = reconcile_domains-Costs _ _ c.custom_domains

  apply_unstructured-Costs :
      (gvr : GroupVersionResource) (name : String) (u : Unstructured)
      → Costs 2 (Policy.apply_unstructured env gvr name u)
  unfolding Policy.apply_unstructured
  apply_unstructured-Costs gvr name u = search cost_rules depth 12

  apply_constraint-Costs :
      (kind name : String) (parameters : Policy.Parameters)
      → Costs 2 (Policy.apply_constraint env kind name parameters)
  unfolding Policy.apply_constraint
  apply_constraint-Costs kind name none = search cost_rules depth 12
  apply_constraint-Costs kind name (some parameters) = apply_unstructured-Costs _ _ _

  constraint_step-Costs :
      (t : Policy.Template) (parameters : Policy.Parameters)
      → Costs 2 (Policy.constraint_step env t parameters)
  constraint_step-Costs t parameters =
      Costs-or_return 2 0 _ _ _ (omega arith) (apply_constraint-Costs _ _ parameters)
        (λ e. Costs-pure 0 _) (λ r. Costs-pure 0 _)

  apply_templates-Costs :
      (ts : List Policy.Template) → Costs (2 * length ts) (Policy.apply_templates env ts)
  unfolding Policy.apply_templates Policy.apply_constraint_template
  apply_templates-Costs [] = Costs-pure _ _
  apply_templates-Costs (t ∷ ts) =
      Costs-or_return 2 (2 * length ts) _ _ _ (omega arith) (apply_unstructured-Costs _ _ _)
        (λ e. Costs-pure _ _) (λ r. apply_templates-Costs ts)

  pub policy-Costs : (policy : SecurityPolicy) → Costs 12 (Policy.reconcile env policy)
  unfolding Policy.reconcile
  policy-Costs policy =
      Costs-or_return 6 6 _ _ _ (omega arith) (apply_templates-Costs Policy.templates)
        (λ e. Costs-pure 6 _)
        (λ r.
          Costs-or_return 2 4 _ _ _ (omega arith)
            (constraint_step-Costs Policy.required_resource_limits _) (λ e. Costs-pure 4 _)
            (λ r.
              Costs-or_return 2 2 _ _ _ (omega arith)
                (constraint_step-Costs Policy.block_privileged _) (λ e. Costs-pure 2 _)
                (λ r. constraint_step-Costs Policy.allowed_repos _)))
