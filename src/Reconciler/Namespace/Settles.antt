-- ===== src/Reconciler/Namespace/Settles.antt =====
-- What a successful reconciliation of a namespace leaves in the cluster.
use hydra_operator.Base.{
  String, Bool, ◌∙◌, ap, ◌&&◌, not, is_empty, [], ◌∷◌, ◌++◌, ◌≡◌, refl, Option, none, some, ok,
  arith, if◌then◌else◌, Bool-cases, inl, inr,
}
use hydra_operator.Wire
use hydra_operator.Wire.{Quotas}
use hydra_operator.Base.Int.{positive}
use hydra_operator.Base.Dict.{insert}
use hydra_operator.Kube.Objects.{ResourceList, ResourceQuota}
use hydra_operator.Kube.Env.{Env, Session, or_return, get, create, update, delete}
use hydra_operator.Kube.Laws.{Obeys}
use hydra_operator.Reconciler.Namespace.{
  set_quantity, resource_quota_name, quota_for, apply_quota, has_quota, hard_limits, remove_quota,
  write_quota, reconcile_quota, reconcile,
}

abbrev pub quota_name : ResourceQuota → String
quota_name q = q.meta.name

abbrev pub quota_hard : ResourceQuota → ResourceList
quota_hard q = q.hard

-- The quantity that a text denotes, if there is a text and it denotes one.
abbrev pub quantity : Env → String → Option String
quantity env value = if is_empty value then none else env.parse_quantity value

abbrev pub limit : String → Option String → ResourceList
limit key none = []
limit key (some q) = (key, q) ∷ []

-- The limits that Hydra asks for: one for each setting that denotes a quantity, and one for the pods
-- if their number is positive.
abbrev pub asked : Env → Quotas → ResourceList
asked env q =
    limit "limits.cpu" (quantity env q.limits_cpu)
    ++ limit "limits.memory" (quantity env q.limits_memory)
    ++ limit "requests.cpu" (quantity env q.requests_cpu)
    ++ limit "requests.memory" (quantity env q.requests_memory)
    ++ limit "pods" (if positive q.count_pods then some (env.new_quantity q.count_pods) else none)

-- Whether Hydra leaves every setting out.
abbrev pub asks_nothing : Quotas → Bool
asks_nothing q =
    is_empty q.limits_cpu
    && is_empty q.limits_memory
    && is_empty q.requests_cpu
    && is_empty q.requests_memory
    && not (positive q.count_pods)

-- The quota that Hydra asks for.
abbrev pub wanted_limits : Env → Wire.Namespace → Option ResourceList
wanted_limits env ns = if asks_nothing ns.quotas then none else some (asked env ns.quotas)

abbrev put : String → Option String → ResourceList → ResourceList
put key none list = list
put key (some q) list = insert key q list

set_quantity-put :
    (env : Env) (list : ResourceList) (key value : String)
    → set_quantity env list key value ≡ put key (quantity env value) list
set_quantity-put env list key value = ground arith

put-limits :
    (a b c d e : Option String)
    → put "pods" e (
        put "requests.memory" d
          (put "requests.cpu" c (put "limits.memory" b (put "limits.cpu" a []))))
      ≡ limit "limits.cpu" a
        ++ limit "limits.memory" b
        ++ limit "requests.cpu" c
        ++ limit "requests.memory" d
        ++ limit "pods" e
put-limits a b c d e = ground arith

hard_limits-asked : (env : Env) (q : Quotas) → hard_limits env q ≡ asked env q
unfolding hard_limits
hard_limits-asked env q = ground arith

has_quota-asks : (q : Quotas) → has_quota q ≡ not (asks_nothing q)
has_quota-asks q = ground arith

module _ (env : Env) (seen : String → String → env.World → Option ResourceList)
    (laws : Obeys env.resource_quotas seen quota_name quota_hard) (ns : Wire.Namespace) where
  abbrev limits_in : Session env.World → Option ResourceList
  limits_in s = seen ns.k8s_name resource_quota_name s.world

  write_quota-limits :
      (existing : Option ResourceQuota) (s : Session env.World)
      → (write_quota env ns existing s).0 ≡ ok tt
      → limits_in (write_quota env ns existing s).1 ≡ some (hard_limits env ns.quotas)
  unfolding write_quota or_return create update
  write_quota-limits (some q) s h =
      grind (arith, laws.update_ok ns.k8s_name (quota_for env ns q.meta.resource_version))
  write_quota-limits none s h = grind (arith, laws.create_ok ns.k8s_name (quota_for env ns ""))

  remove_quota-limits :
      (existing : Option ResourceQuota) (s : Session env.World)
      → (existing ≡ none → limits_in s ≡ none)
      → (remove_quota env ns existing s).0 ≡ ok tt
      → limits_in (remove_quota env ns existing s).1 ≡ none
  unfolding remove_quota or_return delete
  remove_quota-limits none s absent h = absent refl
  remove_quota-limits (some q) s absent h = grind (
    arith,
    laws.delete_ok ns.k8s_name resource_quota_name s.world,
    laws.delete_absent ns.k8s_name resource_quota_name s.world,
  )

  apply_quota-limits :
      (existing : Option ResourceQuota) (s : Session env.World)
      → (existing ≡ none → limits_in s ≡ none)
      → (apply_quota env ns existing s).0 ≡ ok tt
      → limits_in (apply_quota env ns existing s).1 ≡ wanted_limits env ns
  apply_quota-limits existing s absent = elim (Bool-cases (asks_nothing ns.quotas)) [
    | inl nothing ↦ rw (has_quota-asks ns.quotas, nothing) (remove_quota-limits existing s absent)
    | inr some_asked ↦
        rw (has_quota-asks ns.quotas, some_asked)
          (λ done. write_quota-limits existing s done ∙ ap some (hard_limits-asked env ns.quotas))
  ]

  reconcile_quota-limits :
      (s : Session env.World)
      → (reconcile_quota env ns s).0 ≡ ok tt
      → limits_in (reconcile_quota env ns s).1 ≡ wanted_limits env ns
  unfolding reconcile_quota or_return get
  reconcile_quota-limits s h =
      grind (arith, laws.get_absent ns.k8s_name resource_quota_name s.world, apply_quota-limits)

  -- When `NamespaceReconciler.Reconcile` returns no error and the API for ResourceQuotas obeys its
  -- laws, the namespace has no quota `hydra-quota` if Hydra leaves every setting out, and otherwise
  -- has it with the limits of those settings that denote a quantity and, if it is positive, of the
  -- number of pods; a setting that denotes no quantity is left out.
  pub reconcile-limits :
      (s : Session env.World)
      → (reconcile env ns s).0 ≡ ok tt
      → limits_in (reconcile env ns s).1 ≡ wanted_limits env ns
  unfolding reconcile or_return
  reconcile-limits s h = grind (arith, reconcile_quota-limits)
