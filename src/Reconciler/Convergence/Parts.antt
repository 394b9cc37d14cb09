-- ===== src/Reconciler/Convergence/Parts.antt =====
-- What the reconcilers and the detector leave, where all that they may change is free.
use hydra_operator.Base.{String, All, Option, none, some, List, [], ◌∷◌}
use hydra_operator.Wire
use hydra_operator.Wire.{CustomDomain, SecurityPolicy}
use hydra_operator.Kube.Objects.{ResourceQuota, GroupVersionResource, Unstructured}
use hydra_operator.Kube.Env.{Env}
use hydra_operator.Kube.Leaves.{
  Leaves, Leaves-pure, Leaves-if, Leaves-bind, Leaves-or_return, Leaves-get, Leaves-create,
  Leaves-update, Leaves-delete, leave_rules,
}
use hydra_operator.Capabilities.{group_version_available, kourier_present, probe, detect}
use hydra_operator.Reconciler.Naming.{ksvc_name_for}
use hydra_operator.Reconciler.Namespace
use hydra_operator.Reconciler.Container
use hydra_operator.Reconciler.Route
use hydra_operator.Reconciler.Domain
use hydra_operator.Reconciler.Domain.{DomainStatus}
use hydra_operator.Reconciler.Policy
use hydra_operator.Reconciler.Convergence.Defs.{Undisturbed, Free, FreeDomains, FreeNamespace}

module _ (env : Env) {V : Type 0} {part : env.World → V} {free : Free}
    (u : Undisturbed env part free) where
  group-Leaves : (group : String) → Leaves part (group_version_available env group)
  unfolding group_version_available
  group-Leaves group = search (leave_rules, u.discover) depth 8

  kourier-Leaves : Leaves part (kourier_present env)
  unfolding kourier_present
  kourier-Leaves = search (leave_rules, u.core_service) depth 8

  pub detect-Leaves : Leaves part (detect env)
  unfolding detect probe
  detect-Leaves =
      search (leave_rules, group-Leaves, kourier-Leaves, u.server_version, u.list_nodes) depth 24

  write_quota-Leaves :
      (n : Wire.Namespace) (q : Option ResourceQuota)
      → FreeNamespace free n
      → Leaves part (Namespace.write_quota env n q)
  unfolding Namespace.write_quota
  write_quota-Leaves n none is_free =
      Leaves-or_return _ _ _ (Leaves-create _ _ _ (u.resource_quotas.on_create _ _ is_free))
        (λ e. Leaves-pure _) (λ r. Leaves-pure _)
  write_quota-Leaves n (some q) is_free =
      Leaves-or_return _ _ _ (Leaves-update _ _ _ (u.resource_quotas.on_update _ _ is_free))
        (λ e. Leaves-pure _) (λ r. Leaves-pure _)

  remove_quota-Leaves :
      (n : Wire.Namespace) (q : Option ResourceQuota)
      → FreeNamespace free n
      → Leaves part (Namespace.remove_quota env n q)
  unfolding Namespace.remove_quota
  remove_quota-Leaves n none is_free = Leaves-pure _
  remove_quota-Leaves n (some q) is_free =
      Leaves-or_return _ _ _ (Leaves-delete _ _ _ (u.resource_quotas.on_delete _ _ is_free))
        (λ e. Leaves-if _ _ _ (Leaves-pure _) (Leaves-pure _)) (λ r. Leaves-pure _)

  quota-Leaves :
      (n : Wire.Namespace) (q : Option ResourceQuota)
      → FreeNamespace free n
      → Leaves part (Namespace.apply_quota env n q)
  quota-Leaves n q is_free =
      Leaves-if _ _ _ (write_quota-Leaves n q is_free) (remove_quota-Leaves n q is_free)

  ensure-Leaves : (n : String) → Leaves part (Namespace.ensure_namespace env n)
  unfolding Namespace.ensure_namespace
  ensure-Leaves n = search (leave_rules, u.namespaces) depth 12

  require-Leaves : (n : String) → Leaves part (Namespace.require_namespace env n)
  unfolding Namespace.require_namespace
  require-Leaves n = search (leave_rules, u.namespaces) depth 12

  reconcile_quota-Leaves :
      (n : Wire.Namespace) → FreeNamespace free n → Leaves part (Namespace.reconcile_quota env n)
  unfolding Namespace.reconcile_quota
  reconcile_quota-Leaves n is_free =
      Leaves-or_return _ _ _ (Leaves-get _ _ _ (u.resource_quotas.on_get _ _))
        (λ e. Leaves-if _ _ _ (quota-Leaves n _ is_free) (Leaves-pure _))
        (λ q. quota-Leaves n _ is_free)

  pub namespace-Leaves :
      (n : Wire.Namespace) → FreeNamespace free n → Leaves part (Namespace.reconcile env n)
  unfolding Namespace.reconcile
  namespace-Leaves n is_free =
      Leaves-or_return _ _ _ (Leaves-if _ _ _ (ensure-Leaves _) (require-Leaves _))
        (λ e. Leaves-pure _) (λ r. reconcile_quota-Leaves n is_free)

  -- A Service that may be changed.
  pub container-Leaves :
      (c : Wire.Container)
      → free.service c.namespace_k8s_name (ksvc_name_for env.lower_wide c.id)
      → Leaves part (Container.reconcile env c)
  unfolding Container.reconcile Container.build_service
  container-Leaves c is_free =
      Leaves-or_return _ _ _ (Leaves-get _ _ _ (u.services.on_get _ _))
        (λ e.
          Leaves-if _ _ _
            (Leaves-or_return _ _ _ (Leaves-create _ _ _ (u.services.on_create _ _ is_free))
              (λ f. Leaves-pure _) (λ created. Leaves-pure _))
            (Leaves-pure _))
        (λ existing.
          Leaves-or_return _ _ _ (Leaves-update _ _ _ (u.services.on_update _ _ is_free))
            (λ f. Leaves-pure _) (λ updated. Leaves-pure _))

  apply_route-Leaves :
      (c : Wire.Container)
      → free.route c.namespace_k8s_name (ksvc_name_for env.lower_wide c.id)
      → Leaves part (Route.apply_route env c)
  unfolding Route.apply_route Route.build_route
  apply_route-Leaves c is_free =
      Leaves-or_return _ _ _ (Leaves-get _ _ _ (u.routes.on_get _ _))
        (λ e.
          Leaves-if _ _ _
            (Leaves-or_return _ _ _ (Leaves-create _ _ _ (u.routes.on_create _ _ is_free))
              (λ f. Leaves-pure _) (λ created. Leaves-pure _))
            (Leaves-pure _))
        (λ existing.
          Leaves-or_return _ _ _ (Leaves-update _ _ _ (u.routes.on_update _ _ is_free))
            (λ f. Leaves-pure _) (λ updated. Leaves-pure _))

  remove_route-Leaves :
      (c : Wire.Container)
      → free.route c.namespace_k8s_name (ksvc_name_for env.lower_wide c.id)
      → Leaves part (Route.remove_route env c)
  unfolding Route.remove_route
  remove_route-Leaves c is_free =
      Leaves-or_return _ _ _ (Leaves-delete _ _ _ (u.routes.on_delete _ _ is_free))
        (λ e. Leaves-if _ _ _ (Leaves-pure _) (Leaves-pure _)) (λ r. Leaves-pure _)

  pub route-Leaves :
      (c : Wire.Container)
      → free.route c.namespace_k8s_name (ksvc_name_for env.lower_wide c.id)
      → Leaves part (Route.reconcile env c)
  unfolding Route.reconcile
  route-Leaves c is_free =
      Leaves-if _ _ _ (remove_route-Leaves c is_free) (apply_route-Leaves c is_free)

  mapping-Leaves :
      (n hostname k : String)
      → free.mapping n hostname
      → Leaves part (Domain.reconcile_one env n hostname k)
  unfolding Domain.reconcile_one Domain.apply_mapping Domain.build_mapping
  mapping-Leaves n hostname k is_free =
      Leaves-bind _ _
        (Leaves-or_return _ _ _ (Leaves-get _ _ _ (u.domain_mappings.on_get _ _))
          (λ e.
            Leaves-if _ _ _ (Leaves-create _ _ _ (u.domain_mappings.on_create _ _ is_free))
              (Leaves-pure _))
          (λ existing. Leaves-update _ _ _ (u.domain_mappings.on_update _ _ is_free)))
        (λ applied. Leaves-pure _)

  pub domains-Leaves :
      (n k : String) (domains : List CustomDomain)
      → All (λ d. free.mapping n d.hostname) domains
      → Leaves part (Domain.reconcile_domains env n k domains)
  unfolding Domain.reconcile_domains
  domains-Leaves n k [] are_free = Leaves-pure _
  domains-Leaves n k (d ∷ domains) (is_free, are_free) =
      Leaves-bind _ _ (mapping-Leaves n d.hostname k is_free)
        (λ status. Leaves-bind _ _ (domains-Leaves n k domains are_free) (λ rest. Leaves-pure _))

  pub domain-Leaves :
      (c : Wire.Container) → FreeDomains free c → Leaves part (Domain.reconcile env c)
  unfolding Domain.reconcile
  domain-Leaves c = domains-Leaves _ _ c.custom_domains

  apply_unstructured-Leaves :
      (gvr : GroupVersionResource) (k : String) (o : Unstructured)
      → Leaves part (Policy.apply_unstructured env gvr k o)
  unfolding Policy.apply_unstructured
  apply_unstructured-Leaves gvr k o = search (leave_rules, u.dynamic) depth 12

  apply_constraint-Leaves :
      (kind k : String) (parameters : Policy.Parameters)
      → Leaves part (Policy.apply_constraint env kind k parameters)
  unfolding Policy.apply_constraint
  apply_constraint-Leaves kind k none = search (leave_rules, u.dynamic) depth 12
  apply_constraint-Leaves kind k (some parameters) = apply_unstructured-Leaves _ _ _

  apply_templates-Leaves : (ts : List Policy.Template) → Leaves part (Policy.apply_templates env ts)
  unfolding Policy.apply_templates Policy.apply_constraint_template
  apply_templates-Leaves [] = Leaves-pure _
  apply_templates-Leaves (t ∷ ts) =
      Leaves-or_return _ _ _ (apply_unstructured-Leaves _ _ _) (λ e. Leaves-pure _)
        (λ _. apply_templates-Leaves ts)

  pub policy-Leaves : (policy : SecurityPolicy) → Leaves part (Policy.reconcile env policy)
  unfolding Policy.reconcile
  policy-Leaves policy =
      search (leave_rules, apply_templates-Leaves, apply_constraint-Leaves) depth 16
