-- ===== src/Reconciler/Policy/Settles.antt =====
-- What a successful reconciliation of the policies leaves of the registry allowlist.
use hydra_operator.Base.{
  String, List, [], ◌∷◌, refl, ap, ◌≡◌, Option, none, some, ok, arith, Result-cases, inl, inr,
}
use hydra_operator.Wire.{SecurityPolicy}
use hydra_operator.Kube.Objects.{
  GroupVersionResource, Unstructured, Json, Items, end, field, text, object, array, item, nil,
}
use hydra_operator.Kube.Env.{Env, Session, ◌>>=◌, or_return, get, create, update, delete}
use hydra_operator.Kube.Laws.{Obeys}
use hydra_operator.Kube.Names.{object_name, inner}
use hydra_operator.Reconciler.Policy.{
  allowed_repos, required_resource_limits, block_privileged, templates, constraint_gvr, repo_params,
  build_constraint, apply_unstructured, apply_constraint, apply_templates, constraint_step,
  reconcile, Parameters, texts,
}

-- What the operator decides of a constraint and the server keeps: the kinds that it matches and its
-- parameters. The server's metadata and what Gatekeeper fills in elsewhere are no part of it.
abbrev pub constraint_view : Unstructured → Option Json × Option Json
constraint_view u = (
  inner "kinds" (inner "match" (inner "spec" (some u.content))),
  inner "parameters" (inner "spec" (some u.content)),
)

abbrev listed : List String → Items
listed [] = nil
listed (s ∷ rest) = item (text s) (listed rest)

-- The constraint for the registries: none if there are none, and otherwise one that matches the pods
-- and has the registries as the parameter `repos`.
abbrev pub wanted_allowlist : List String → Option (Option Json × Option Json)
wanted_allowlist [] = none
wanted_allowlist (first ∷ rest) = some (
  some (
      array (
        item
          (object (
            field "apiGroups" (array (item (text "") nil))
              (field "kinds" (array (item (text "Pod") nil)) end)))
          nil)),
  some (object (field "repos" (array (listed (first ∷ rest))) end)),
)

-- The constraint with the given parameters, if there are any.
abbrev constraint_with : Parameters → Option (Option Json × Option Json)
constraint_with none = none
constraint_with (some parameters) =
    some (constraint_view (build_constraint allowed_repos.kind allowed_repos.name parameters))

texts-listed : (l : List String) → texts l ≡ listed l
texts-listed [] = refl
texts-listed (s ∷ rest) = ap (item (text s)) (texts-listed rest)

repo_params-wanted :
    (registries : List String)
    → constraint_with (repo_params registries) ≡ wanted_allowlist registries
unfolding repo_params build_constraint
repo_params-wanted [] = refl
repo_params-wanted (first ∷ rest) = rw (texts-listed rest) refl

abbrev pub allowlist_gvr : Env → GroupVersionResource
allowlist_gvr env = constraint_gvr env.lower_wide allowed_repos.kind

module _ (env : Env) (seen : String → String → env.World → Option (Option Json × Option Json))
    (laws : Obeys (env.dynamic (allowlist_gvr env)) seen object_name constraint_view) where
  created :
      (desired u : Unstructured) (w : env.World)
      → ((env.dynamic (allowlist_gvr env)).create "" desired w).0 ≡ ok u
      → seen "" (object_name desired) ((env.dynamic (allowlist_gvr env)).create "" desired w).1
        ≡ some (constraint_view desired)
  created desired = laws.create_ok "" desired

  updated :
      (desired u : Unstructured) (version : String) (w : env.World)
      → ((env.dynamic (allowlist_gvr env)).update ""
          (record desired { resource_version = version })
          w).0
        ≡ ok u
      → seen ""
          (object_name desired)
          ((env.dynamic (allowlist_gvr env)).update ""
            (record desired { resource_version = version })
            w).1
        ≡ some (constraint_view desired)
  updated desired u version = laws.update_ok "" (record desired { resource_version = version }) u

  apply_unstructured-object :
      (desired : Unstructured) (s : Session env.World)
      → (apply_unstructured env (allowlist_gvr env) (object_name desired) desired s).0 ≡ ok tt
      → seen ""
          (object_name desired)
          (apply_unstructured env (allowlist_gvr env) (object_name desired) desired s).1.world
        ≡ some (constraint_view desired)
  unfolding apply_unstructured or_return ◌>>=◌ get create update
  apply_unstructured-object desired s h =
      elim (Result-cases
        ((env.dynamic (allowlist_gvr env)).get "" (object_name desired) s.world).0) [
          | inl (existing, found) ↦ grind (arith, updated desired)
          | inr (e, failed) ↦ grind (arith, created desired)
        ]

  apply_constraint-object :
      (parameters : Parameters) (s : Session env.World)
      → (apply_constraint env allowed_repos.kind allowed_repos.name parameters s).0 ≡ ok tt
      → seen "" allowed_repos.name
          (apply_constraint env allowed_repos.kind allowed_repos.name parameters s).1.world
        ≡ constraint_with parameters
  unfolding apply_constraint or_return delete build_constraint
  apply_constraint-object none s h = grind (
    arith,
    laws.delete_ok "" allowed_repos.name s.world,
    laws.delete_absent "" allowed_repos.name s.world,
  )
  apply_constraint-object (some parameters) s h =
      apply_unstructured-object (build_constraint allowed_repos.kind allowed_repos.name parameters)
        s h

  constraint_step-object :
      (parameters : Parameters) (s : Session env.World)
      → (constraint_step env allowed_repos parameters s).0 ≡ ok tt
      → seen "" allowed_repos.name (constraint_step env allowed_repos parameters s).1.world
        ≡ constraint_with parameters
  unfolding or_return
  constraint_step-object parameters s h = grind (arith, apply_constraint-object parameters s)

  -- When `PolicyReconciler.Reconcile` returns no error and the API for the allowlist's constraints
  -- obeys its laws, the constraint of the allowlist matches the pods and has exactly the registries
  -- that Hydra allows, in their order, as its parameter `repos`, and there is no such constraint
  -- when Hydra names none.
  pub reconcile-allowlist :
      (policy : SecurityPolicy) (s : Session env.World)
      → (reconcile env policy s).0 ≡ ok tt
      → seen "" allowed_repos.name (reconcile env policy s).1.world
        ≡ wanted_allowlist policy.allowed_registries
  unfolding reconcile or_return
  reconcile-allowlist policy s h =
      let t = (apply_templates env templates s).1 in
      let u = (constraint_step env required_resource_limits (some end) t).1 in
      let v = (constraint_step env block_privileged (some end) u).1 in
      ground (
        arith,
        constraint_step-object (repo_params policy.allowed_registries) v,
        repo_params-wanted policy.allowed_registries,
      )
