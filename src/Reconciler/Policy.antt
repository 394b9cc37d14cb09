-- ===== src/Reconciler/Policy.antt =====
-- internal/reconciler/policy.go: the Gatekeeper templates and constraints of a security policy.
pub mod Rego
pub mod Settles
use Prim.Native.Char.{Char}
use hydra_operator.Base.{
  ℕ, String, ◌<>◌, Option, none, some, List, [], ◌∷◌, Result, ok, err, if◌then◌else◌,
}
use hydra_operator.Base.Text.{to_lower}
use hydra_operator.Wire.{SecurityPolicy}
use hydra_operator.Kube.Objects.{
  Json, text, array, object, Items, nil, item, Fields, end, field, GroupVersionResource,
  Unstructured,
}
use hydra_operator.Kube.Calls.{ApiError}
use hydra_operator.Kube.Env.{
  Env, Client, Action, pure, or_return, ◌>>=◌, get, create, update, delete,
}
use hydra_operator.Kube.Clients.{dynamic}
use Rego.{required_resource_limits_rego, block_privileged_rego, allowed_repos_rego}

abbrev pub constraint_template_gvr : GroupVersionResource
constraint_template_gvr = record {
  group = "templates.gatekeeper.sh";
  version = "v1";
  resource = "constrainttemplates";
}

-- One entry of `templates`.
pub record Template : Type 0 where
  pub name : String
  pub kind : String
  pub rego : String

abbrev pub required_resource_limits : Template
required_resource_limits = record {
  name = "hydra-required-resource-limits";
  kind = "K8sRequiredResourceLimits";
  rego = required_resource_limits_rego;
}

abbrev pub block_privileged : Template
block_privileged = record {
  name = "hydra-block-privileged";
  kind = "K8sBlockPrivileged";
  rego = block_privileged_rego;
}

abbrev pub allowed_repos : Template
allowed_repos = record {
  name = "hydra-allowed-repos";
  kind = "K8sAllowedRepos";
  rego = allowed_repos_rego;
}

abbrev pub templates : List Template
templates = required_resource_limits ∷ block_privileged ∷ allowed_repos ∷ []

-- `constraintGVR`: the resource is the kind in lower case.
unfoldable pub constraint_gvr : (Char → Char) → String → GroupVersionResource
constraint_gvr wide kind = record {
  group = "constraints.gatekeeper.sh";
  version = "v1beta1";
  resource = to_lower wide kind;
}

abbrev single : String → Json → Json
single name value = object (field name value end)

abbrev pub texts : List String → Items
texts [] = nil
texts (s ∷ rest) = item (text s) (texts rest)

-- The object that `applyConstraintTemplate` sends.
unfoldable pub build_template : Template → Unstructured
build_template t = record {
  resource_version = "";
  content = object (
      field "apiVersion" (text "templates.gatekeeper.sh/v1") (
        field "kind" (text "ConstraintTemplate") (
          field "metadata" (single "name" (text t.name)) (
            field "spec"
              (object (
                field "crd" (single "spec" (single "names" (single "kind" (text t.kind)))) (
                  field "targets"
                    (array (
                      item
                        (object (
                          field "target" (text "admission.k8s.gatekeeper.sh")
                            (field "rego" (text t.rego) end)))
                        nil))
                    end)))
              end))));
}

-- The parameters of a constraint; nil removes it.
abbrev pub Parameters : Type 0
Parameters = Option Fields

-- `repoParams`
unfoldable pub repo_params : List String → Parameters
repo_params [] = none
repo_params (reg ∷ registries) = some (field "repos" (array (texts (reg ∷ registries))) end)

-- The object that `applyConstraint` sends.
unfoldable pub build_constraint : String → String → Fields → Unstructured
build_constraint kind name parameters = record {
  resource_version = "";
  content = object (
      field "apiVersion" (text "constraints.gatekeeper.sh/v1beta1") (
        field "kind" (text kind) (
          field "metadata" (single "name" (text name)) (
            field "spec"
              (object (
                field "match"
                  (single "kinds" (
                    array (
                      item
                        (object (
                          field "apiGroups" (array (item (text "") nil))
                            (field "kinds" (array (item (text "Pod") nil)) end)))
                        nil)))
                  (field "parameters" (object parameters) end)))
              end))));
}

abbrev pub ApiFailable : Type 0
ApiFailable = Result ApiError (Unit {0})

-- `return err`, with the object dropped.
abbrev pub drop_object : {A : Type 0} → Result ApiError A → ApiFailable
drop_object (ok _) = ok tt
drop_object (err e) = err e

module _ (env : Env) where
  unfoldable pub apply_unstructured :
      GroupVersionResource → String → Unstructured → Action env.World ApiFailable
  apply_unstructured gvr name desired =
      or_return (get (dynamic env gvr) "" name)
        (λ e.
          if e.not_found
          then (do r ← create (dynamic env gvr) "" desired; pure (drop_object r))
          else pure (err e))
        (λ existing. do
          r ←
              update (dynamic env gvr) ""
                (record desired { resource_version = existing.resource_version })
          pure (drop_object r))

  unfoldable pub apply_constraint_template : Template → Action env.World ApiFailable
  apply_constraint_template t = apply_unstructured constraint_template_gvr t.name (build_template t)

  unfoldable pub apply_constraint : String → String → Parameters → Action env.World ApiFailable
  apply_constraint kind name none =
      or_return (delete (dynamic env (constraint_gvr env.lower_wide kind)) "" name)
        (λ e. if e.not_found then pure (ok tt) else pure (err e)) (λ _. pure (ok tt))
  apply_constraint kind name (some parameters) =
      apply_unstructured (constraint_gvr env.lower_wide kind) name
        (build_constraint kind name parameters)

  -- The loop over `templates`, which the first error ends.
  unfoldable pub apply_templates : List Template → Action env.World (Result String (Unit {0}))
  apply_templates [] = pure (ok tt)
  apply_templates (t ∷ rest) =
      or_return (apply_constraint_template t)
        (λ e. pure (err ("reconciler: constraint template " <> t.name <> ": " <> e.message)))
        (λ _. apply_templates rest)

  -- A constraint with the error text that `Reconcile` gives it.
  abbrev pub constraint_step : Template → Parameters → Action env.World (Result String (Unit {0}))
  constraint_step t parameters =
      or_return (apply_constraint t.kind t.name parameters)
        (λ e. pure (err ("reconciler: constraint " <> t.name <> ": " <> e.message)))
        (λ _. pure (ok tt))

  unfoldable pub reconcile : SecurityPolicy → Action env.World (Result String (Unit {0}))
  reconcile policy =
      or_return (apply_templates templates) (λ e. pure (err e))
        (λ _.
          or_return (constraint_step required_resource_limits (some end)) (λ e. pure (err e))
            (λ _.
              or_return (constraint_step block_privileged (some end)) (λ e. pure (err e))
                (λ _. constraint_step allowed_repos (repo_params policy.allowed_registries))))
