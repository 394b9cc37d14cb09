-- ===== src/Reconciler/Ownership/Defs.antt =====
-- What the operator may do to a cluster and say to Hydra in a round of the sync loop.
use Prim.Native.Char.{Char}
use hydra_operator.Base.{String, ◌<>◌, ◌≡◌, ◌⊎◌, some, List, All}
use hydra_operator.Kube.Objects.{ObjectMeta, GroupVersionResource, Unstructured, Fields}
use hydra_operator.Kube.Calls.{
  Kind, Object, namespace_object, quota_object, secret_object, service_object, mapping_object,
  route_object, dynamic_object, HttpRequest, Call, get_call, create_call, update_call, delete_call,
  discover_call, version_call, nodes_call, http_call,
}
use hydra_operator.Kube.Keeps.{Allows}
use hydra_operator.Hydra.Client.{Client}
use hydra_operator.Reconciler.Naming.{ksvc_name_for, managed_by, agent_labels}
use hydra_operator.Reconciler.Namespace.{resource_quota_name}
use hydra_operator.Reconciler.Policy.{
  Template, required_resource_limits, block_privileged, constraint_template_gvr, constraint_gvr,
  build_template, build_constraint, allowed_repos,
}

-- One of the three entries of `templates`.
abbrev pub IsTemplate : Template → Type 0
IsTemplate t = (t ≡ required_resource_limits) ⊎ ((t ≡ block_privileged) ⊎ (t ≡ allowed_repos))

module _ (wide : Char → Char) where
  -- An object of one container: its name and its labels come from the container's ID.
  abbrev pub IsAgentObject : String → ObjectMeta → Type 0
  IsAgentObject ns meta =
      (id : String) × (meta.name ≡ ksvc_name_for wide id)
      × (meta.labels ≡ agent_labels id)
      × (meta.namespace ≡ ns)

  abbrev pub IsConstraintOf : Template → GroupVersionResource → Unstructured → Type 0
  IsConstraintOf t gvr u =
      (parameters : Fields) × (gvr ≡ constraint_gvr wide t.kind)
      × (u.content ≡ (build_constraint t.kind t.name parameters).content)

  -- A ConstraintTemplate of `templates`, or a constraint of its kind and name, but for the resource
  -- version.
  abbrev pub IsPolicyObject : GroupVersionResource → Unstructured → Type 0
  IsPolicyObject gvr u =
      (t : Template) × IsTemplate t
      × ((gvr ≡ constraint_template_gvr) × (u.content ≡ (build_template t).content)
          ⊎ IsConstraintOf t gvr u)

  -- What a write may carry into a namespace.
  abbrev pub MayWrite : String → Object → Type 0
  MayWrite ns (namespace_object o) = ⊥
  MayWrite ns (quota_object q) = (q.meta.name ≡ resource_quota_name) × (q.meta.namespace ≡ ns)
  MayWrite ns (secret_object o) = ⊥
  MayWrite ns (service_object o) = IsAgentObject ns o.meta
  MayWrite ns (mapping_object o) = (o.meta.labels ≡ managed_by) × (o.meta.namespace ≡ ns)
  MayWrite ns (route_object o) = IsAgentObject ns o.meta
  MayWrite ns (dynamic_object gvr u) = IsPolicyObject gvr u

  -- A namespace is only ever created, and marked as the operator's.
  abbrev pub MayCreate : String → Object → Type 0
  MayCreate ns (namespace_object o) = o.meta.labels ≡ managed_by
  MayCreate ns (quota_object q) = MayWrite ns (quota_object q)
  MayCreate ns (secret_object o) = MayWrite ns (secret_object o)
  MayCreate ns (service_object o) = MayWrite ns (service_object o)
  MayCreate ns (mapping_object o) = MayWrite ns (mapping_object o)
  MayCreate ns (route_object o) = MayWrite ns (route_object o)
  MayCreate ns (dynamic_object gvr u) = MayWrite ns (dynamic_object gvr u)

  -- Only quotas, routes and the registry constraint are deleted, each under the operator's name.
  abbrev pub MayDelete : Kind → String → Type 0
  MayDelete Kind.namespaces name = ⊥
  MayDelete Kind.resource_quotas name = name ≡ resource_quota_name
  MayDelete Kind.secrets name = ⊥
  MayDelete Kind.core_services name = ⊥
  MayDelete Kind.services name = ⊥
  MayDelete Kind.domain_mappings name = ⊥
  MayDelete Kind.routes name = (id : String) × (name ≡ ksvc_name_for wide id)
  MayDelete (Kind.dynamic gvr) name =
      (gvr ≡ constraint_gvr wide allowed_repos.kind) × (name ≡ allowed_repos.name)

  -- Secrets are not read either.
  abbrev pub MayRead : Kind → Type 0
  MayRead Kind.namespaces = Unit
  MayRead Kind.resource_quotas = Unit
  MayRead Kind.secrets = ⊥
  MayRead Kind.core_services = Unit
  MayRead Kind.services = Unit
  MayRead Kind.domain_mappings = Unit
  MayRead Kind.routes = Unit
  MayRead (Kind.dynamic gvr) = Unit

  module _ (web : HttpRequest → Type 0) where
    -- What a round may do to the cluster, with `web` for what it may send to Hydra.
    abbrev pub IsOwned : Call → Type 0
    IsOwned (get_call kind ns name) = MayRead kind
    IsOwned (create_call ns o) = MayCreate ns o
    IsOwned (update_call ns o) = MayWrite ns o
    IsOwned (delete_call kind ns name) = MayDelete kind name
    IsOwned (discover_call group) = Unit
    IsOwned version_call = Unit
    IsOwned nodes_call = Unit
    IsOwned (http_call req) = web req

  -- A call to the cluster alone.
  abbrev pub IsClusterCall : Call → Type 0
  IsClusterCall = IsOwned (λ _. ⊥)

  pub IsClusterCall-IsOwned :
      (web : HttpRequest → Type 0) (c : Call) → IsClusterCall c → IsOwned web c
  IsClusterCall-IsOwned web (get_call kind ns name) h = h
  IsClusterCall-IsOwned web (create_call ns o) h = h
  IsClusterCall-IsOwned web (update_call ns o) h = h
  IsClusterCall-IsOwned web (delete_call kind ns name) h = h
  IsClusterCall-IsOwned web (discover_call group) h = h
  IsClusterCall-IsOwned web version_call h = h
  IsClusterCall-IsOwned web nodes_call h = h
  IsClusterCall-IsOwned web (http_call req) h = absurd h

-- A request goes to Hydra's root and carries the cluster token.
abbrev pub IsAuthenticated : Client → HttpRequest → Type 0
IsAuthenticated hydra req =
    (path : String) × (req.url ≡ hydra.base_url <> path)
    × (req.authorization ≡ some ("Bearer " <> hydra.token))

module _ (wide : Char → Char) (hydra : Client) where
  abbrev pub AllOwned : List Call → Type 0
  AllOwned = All (IsOwned wide (IsAuthenticated hydra))

  pub Allows-request :
      (req : HttpRequest) → IsAuthenticated hydra req → Allows AllOwned (http_call req)
  Allows-request req h = record { extend = λ l hl. (h, hl) }

  pub Allows-cluster : (c : Call) → IsClusterCall wide c → Allows AllOwned c
  Allows-cluster c h = record {
    extend = λ l hl. (IsClusterCall-IsOwned wide (IsAuthenticated hydra) c h, hl);
  }
