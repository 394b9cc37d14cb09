-- ===== src/Reconciler/Namespace.antt =====
-- internal/reconciler/namespace.go
pub mod Settles
pub mod Progress
pub mod Imported
use hydra_operator.Base.{
  String, ◌<>◌, Bool, not, ◌||◌, Option, none, some, [], Result, ok, err, is_empty, ◌==◌,
  if◌then◌else◌,
}
use hydra_operator.Base.Int.{positive}
use hydra_operator.Base.Dict.{insert}
use hydra_operator.Wire
use hydra_operator.Wire.{Quotas}
use hydra_operator.Kube.Objects.{ResourceList, ResourceQuota}
use hydra_operator.Kube.Env.{Env, Action, pure, or_return, get, create, update, delete}
use hydra_operator.Kube.Clients.{namespaces, resource_quotas}
use hydra_operator.Reconciler.Naming.{managed_by}

abbrev pub resource_quota_name : String
resource_quota_name = "hydra-quota"

-- Go's `error`: nothing, or a message.
abbrev pub Failable : Type 0
Failable = Result String (Unit {0})

-- `hasQuota`
abbrev pub has_quota : Quotas → Bool
has_quota q =
    not (is_empty q.limits_cpu)
    || not (is_empty q.limits_memory)
    || not (is_empty q.requests_cpu)
    || not (is_empty q.requests_memory)
    || positive q.count_pods

module _ (env : Env) where
  -- `setQuantity`: an empty or malformed value leaves the list as it is.
  abbrev pub set_quantity : ResourceList → String → String → ResourceList
  set_quantity list name value =
      if is_empty value
      then list
      else elim (env.parse_quantity value) [ none ↦ list | some q ↦ insert name q list ]

  unfoldable pub hard_limits : Quotas → ResourceList
  hard_limits q =
      let list =
        set_quantity
          (set_quantity
            (set_quantity (set_quantity [] "limits.cpu" q.limits_cpu) "limits.memory"
              q.limits_memory)
            "requests.cpu" q.requests_cpu)
          "requests.memory" q.requests_memory in
      if positive q.count_pods then insert "pods" (env.new_quantity q.count_pods) list else list

  -- The quota object, with the resource version of the one that it replaces.
  abbrev pub quota_for : Wire.Namespace → String → ResourceQuota
  quota_for ns version = record {
    meta = record {
      name = resource_quota_name;
      namespace = ns.k8s_name;
      labels = [];
      annotations = [];
      resource_version = version;
    };
    hard = hard_limits ns.quotas;
  }

  unfoldable pub ensure_namespace : String → Action env.World Failable
  ensure_namespace name =
      or_return (get (namespaces env) "" name)
        (λ e.
          if not e.not_found
          then pure (err ("reconciler: get namespace " <> name <> ": " <> e.message))
          else or_return
              (create (namespaces env) "" (record {
                meta = record {
                  name = name;
                  namespace = "";
                  labels = managed_by;
                  annotations = [];
                  resource_version = "";
                };
              }))
              (λ f.
                if f.already_exists
                then pure (ok tt)
                else pure (err ("reconciler: create namespace " <> name <> ": " <> f.message)))
              (λ _. pure (ok tt)))
        (λ _. pure (ok tt))

  -- The `else` branch of `Reconcile`.
  unfoldable pub require_namespace : String → Action env.World Failable
  require_namespace name =
      or_return (get (namespaces env) "" name)
        (λ e. pure (err ("reconciler: imported namespace " <> name <> ": " <> e.message)))
        (λ _. pure (ok tt))

  -- `!hasQuota`
  unfoldable pub remove_quota : Wire.Namespace → Option ResourceQuota → Action env.World Failable
  remove_quota ns none = pure (ok tt)
  remove_quota ns (some _) =
      or_return (delete (resource_quotas env) ns.k8s_name resource_quota_name)
        (λ e.
          if e.not_found
          then pure (ok tt)
          else pure
              (err ("reconciler: delete resourcequota in " <> ns.k8s_name <> ": " <> e.message)))
        (λ _. pure (ok tt))

  unfoldable pub write_quota : Wire.Namespace → Option ResourceQuota → Action env.World Failable
  write_quota ns (some existing) =
      or_return
        (update (resource_quotas env) ns.k8s_name (quota_for ns existing.meta.resource_version))
        (λ e.
          pure (err ("reconciler: update resourcequota in " <> ns.k8s_name <> ": " <> e.message)))
        (λ _. pure (ok tt))
  write_quota ns none =
      or_return (create (resource_quotas env) ns.k8s_name (quota_for ns ""))
        (λ e.
          pure (err ("reconciler: create resourcequota in " <> ns.k8s_name <> ": " <> e.message)))
        (λ _. pure (ok tt))

  abbrev pub apply_quota : Wire.Namespace → Option ResourceQuota → Action env.World Failable
  apply_quota ns existing =
      if has_quota ns.quotas then write_quota ns existing else remove_quota ns existing

  unfoldable pub reconcile_quota : Wire.Namespace → Action env.World Failable
  reconcile_quota ns =
      or_return (get (resource_quotas env) ns.k8s_name resource_quota_name)
        (λ e.
          if e.not_found
          then apply_quota ns none
          else pure (err ("reconciler: get resourcequota in " <> ns.k8s_name <> ": " <> e.message)))
        (λ existing. apply_quota ns (some existing))

  unfoldable pub reconcile : Wire.Namespace → Action env.World Failable
  reconcile ns =
      or_return
        (if ns.mode == "managed"
          then ensure_namespace ns.k8s_name
          else require_namespace ns.k8s_name)
        (λ e. pure (err e)) (λ _. reconcile_quota ns)
