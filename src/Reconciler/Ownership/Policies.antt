-- ===== src/Reconciler/Ownership/Policies.antt =====
-- The policy reconciler writes only the objects of its three templates; detection writes nothing.
use hydra_operator.Base.{String, refl, inl, inr, none, some, List, [], ◌∷◌, All}
use hydra_operator.Wire.{SecurityPolicy}
use hydra_operator.Kube.Objects.{GroupVersionResource, Unstructured, Fields, end}
use hydra_operator.Kube.Calls.{Call}
use hydra_operator.Kube.Env.{Env}
use hydra_operator.Kube.Keeps.{Allows, Keeps, Keeps-pure, Keeps-or_return, keeps_rules}
use hydra_operator.Capabilities.{detect, probe, group_version_available, kourier_present}
use hydra_operator.Reconciler.Manager.{ManagerConfig, reconcile_policy}
use hydra_operator.Reconciler.Policy
use hydra_operator.Reconciler.Policy.{
  Template, Parameters, required_resource_limits, block_privileged, allowed_repos, templates,
  constraint_gvr, build_constraint,
}
use hydra_operator.Reconciler.Ownership.Defs.{IsClusterCall, IsTemplate, IsPolicyObject}

module _ (env : Env) {P : List Call → Type 0}
    (allow : (c : Call) → IsClusterCall env.lower_wide c → Allows P c) where
  apply_unstructured-Keeps :
      (gvr : GroupVersionResource) (name : String) (u : Unstructured)
      → ((version : String)
          → IsPolicyObject env.lower_wide gvr (record u { resource_version = version }))
      → Keeps P (Policy.apply_unstructured env gvr name u)
  unfolding Policy.apply_unstructured
  apply_unstructured-Keeps gvr name u h = search (keeps_rules, allow, h) depth 12

  apply_template-Keeps :
      (t : Template) → IsTemplate t → Keeps P (Policy.apply_constraint_template env t)
  unfolding Policy.apply_constraint_template
  apply_template-Keeps t h = apply_unstructured-Keeps _ _ _ (λ version. (t, h, inl (refl, refl)))

  apply_templates-Keeps :
      (ts : List Template) → All IsTemplate ts → Keeps P (Policy.apply_templates env ts)
  unfolding Policy.apply_templates
  apply_templates-Keeps [] h = Keeps-pure _
  apply_templates-Keeps (t ∷ ts) h =
      Keeps-or_return _ _ _ (apply_template-Keeps t h.0) (λ e. Keeps-pure _)
        (λ _. apply_templates-Keeps ts h.1)

  constraint_applied-Keeps :
      (t : Template) (parameters : Fields)
      → IsTemplate t
      → Keeps P (Policy.constraint_step env t (some parameters))
  unfolding Policy.apply_constraint
  constraint_applied-Keeps t parameters h =
      Keeps-or_return _ _ _
        (apply_unstructured-Keeps _ _ _ (λ version. (t, h, inr (parameters, refl, refl))))
        (λ e. Keeps-pure _) (λ _. Keeps-pure _)

  repos-Keeps : (p : Parameters) → Keeps P (Policy.constraint_step env allowed_repos p)
  unfolding Policy.apply_constraint
  repos-Keeps none = search (keeps_rules, allow) depth 12
  repos-Keeps (some parameters) = constraint_applied-Keeps allowed_repos parameters (inr (inr refl))

  pub policy-Keeps : (policy : SecurityPolicy) → Keeps P (Policy.reconcile env policy)
  unfolding Policy.reconcile
  policy-Keeps policy =
      search
        (
          keeps_rules,
          apply_templates-Keeps templates (inl refl, (inr (inl refl), (inr (inr refl), tt))),
          constraint_applied-Keeps required_resource_limits end (inl refl),
          constraint_applied-Keeps block_privileged end (inr (inl refl)),
          repos-Keeps,
        )
        depth 12

  pub detect-Keeps : Keeps P (detect env)
  unfolding detect probe group_version_available kourier_present
  detect-Keeps = search (keeps_rules, allow) depth 30

  pub reconcile_policy-Keeps :
      (cfg : ManagerConfig) (policy : SecurityPolicy) → Keeps P (reconcile_policy env cfg policy)
  unfolding reconcile_policy
  reconcile_policy-Keeps cfg policy = search (keeps_rules, detect-Keeps, policy-Keeps) depth 12
