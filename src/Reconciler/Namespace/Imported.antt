-- ===== src/Reconciler/Namespace/Imported.antt =====
-- An imported namespace is only looked at: the operator manages nothing but the quota in it.
use hydra_operator.Base.{String, ◌≡◌, false, Option, none, some, All, ◌==◌}
use hydra_operator.Wire
use hydra_operator.Kube.Objects.{ResourceQuota}
use hydra_operator.Kube.Calls.{
  Call, Kind, Object, get_call, create_call, update_call, delete_call, discover_call, version_call,
  nodes_call, http_call, namespace_object, quota_object, secret_object, service_object,
  mapping_object, route_object, dynamic_object,
}
use hydra_operator.Kube.Env.{Env, Session}
use hydra_operator.Kube.Keeps.{Allows, Keeps, keeps_rules}
use hydra_operator.Reconciler.Namespace.{
  resource_quota_name, require_namespace, remove_quota, write_quota, reconcile_quota, reconcile,
}

-- The quota `hydra-quota` of a namespace.
abbrev pub IsQuotaOf : String → String → Object → Type 0
IsQuotaOf name ns (quota_object q) = (ns ≡ name) × (q.meta.name ≡ resource_quota_name)
IsQuotaOf name ns (namespace_object _) = ⊥
IsQuotaOf name ns (secret_object _) = ⊥
IsQuotaOf name ns (service_object _) = ⊥
IsQuotaOf name ns (mapping_object _) = ⊥
IsQuotaOf name ns (route_object _) = ⊥
IsQuotaOf name ns (dynamic_object _ _) = ⊥

abbrev pub IsLookup : String → Kind → String → String → Type 0
IsLookup name Kind.namespaces ns o = o ≡ name
IsLookup name Kind.resource_quotas ns o = (ns ≡ name) × (o ≡ resource_quota_name)
IsLookup name _ ns o = ⊥

abbrev pub IsRemoval : String → Kind → String → String → Type 0
IsRemoval name Kind.resource_quotas ns o = (ns ≡ name) × (o ≡ resource_quota_name)
IsRemoval name _ ns o = ⊥

-- A look at the namespace, or a call for its quota.
abbrev pub IsQuotaCall : String → Call → Type 0
IsQuotaCall name (get_call kind ns o) = IsLookup name kind ns o
IsQuotaCall name (create_call ns o) = IsQuotaOf name ns o
IsQuotaCall name (update_call ns o) = IsQuotaOf name ns o
IsQuotaCall name (delete_call kind ns o) = IsRemoval name kind ns o
IsQuotaCall name (discover_call _) = ⊥
IsQuotaCall name version_call = ⊥
IsQuotaCall name nodes_call = ⊥
IsQuotaCall name (http_call _) = ⊥

allow : (name : String) (c : Call) → IsQuotaCall name c → Allows (All (IsQuotaCall name)) c
allow name c h = record { extend = λ l so_far. (h, so_far) }

module _ (env : Env) (ns : Wire.Namespace) where
  require-Keeps : Keeps (All (IsQuotaCall ns.k8s_name)) (require_namespace env ns.k8s_name)
  unfolding require_namespace
  require-Keeps = search (keeps_rules, allow) depth 12

  remove-Keeps :
      (q : Option ResourceQuota) → Keeps (All (IsQuotaCall ns.k8s_name)) (remove_quota env ns q)
  unfolding remove_quota
  remove-Keeps none = search keeps_rules
  remove-Keeps (some q) = search (keeps_rules, allow) depth 12

  write-Keeps :
      (q : Option ResourceQuota) → Keeps (All (IsQuotaCall ns.k8s_name)) (write_quota env ns q)
  unfolding write_quota
  write-Keeps none = search (keeps_rules, allow) depth 12
  write-Keeps (some q) = search (keeps_rules, allow) depth 12

  quota-Keeps : Keeps (All (IsQuotaCall ns.k8s_name)) (reconcile_quota env ns)
  unfolding reconcile_quota
  quota-Keeps = search (keeps_rules, allow, remove-Keeps, write-Keeps) depth 12

  imported-Keeps :
      (ns.mode == "managed") ≡ false → Keeps (All (IsQuotaCall ns.k8s_name)) (reconcile env ns)
  unfolding reconcile
  imported-Keeps imported = rw imported (search (keeps_rules, require-Keeps, quota-Keeps) depth 12)

  -- Whatever is answered, and when only such calls came before, the reconciliation of a namespace
  -- whose mode is not "managed" looks at that namespace and calls for the quota `hydra-quota` in it,
  -- and makes no other call: it never creates a namespace.
  pub reconcile-imported :
      (s : Session env.World)
      → (ns.mode == "managed") ≡ false
      → All (IsQuotaCall ns.k8s_name) s.log
      → All (IsQuotaCall ns.k8s_name) (reconcile env ns s).1.log
  reconcile-imported s imported = (imported-Keeps imported).holds_after s
