-- ===== src/Reconciler/Namespace/Progress.antt =====
-- A managed namespace is reconciled whenever the API server answers.
use hydra_operator.Base.{String, ◌≡◌, refl, Option, [], true, ok, arith, inl, inr, ◌==◌}
use hydra_operator.Wire
use hydra_operator.Kube.Objects.{NamespaceObject, ResourceQuota, ResourceList}
use hydra_operator.Kube.Env.{Env, Session, pure, or_return, get, create, update, delete}
use hydra_operator.Kube.Laws.{Obeys, Answers}
use hydra_operator.Reconciler.Naming.{managed_by}
use hydra_operator.Reconciler.Namespace.{
  resource_quota_name, quota_for, remove_quota, write_quota, ensure_namespace, reconcile_quota,
  reconcile,
}
use hydra_operator.Reconciler.Namespace.Settles.{
  quota_name, quota_hard, wanted_limits, reconcile-limits,
}

abbrev pub namespace_name : NamespaceObject → String
namespace_name o = o.meta.name

abbrev pub namespace_version : NamespaceObject → String
namespace_version o = o.meta.resource_version

abbrev pub quota_version : ResourceQuota → String
quota_version q = q.meta.resource_version

-- The namespace that `ensureNamespace` creates.
abbrev labelled : String → NamespaceObject
labelled name = record {
  meta = record {
    name = name;
    namespace = "";
    labels = managed_by;
    annotations = [];
    resource_version = "";
  };
}

module _ (env : Env) (answers : Answers env.namespaces namespace_name namespace_version)
    (quotas : Answers env.resource_quotas quota_name quota_version) (ns : Wire.Namespace) where
  ensure-answered : (s : Session env.World) → (ensure_namespace env ns.k8s_name s).0 ≡ ok tt
  unfolding ensure_namespace or_return get create pure
  ensure-answered s = elim (answers.get_answers "" ns.k8s_name s.world) [
    | inl (existing, found) ↦ ground arith
    | inr (e, failed, absent) ↦
        let (u, done) = answers.create_answers "" (labelled ns.k8s_name) s.world e failed absent in
        ground arith
  ]

  quota-answered : (s : Session env.World) → (reconcile_quota env ns s).0 ≡ ok tt
  unfolding reconcile_quota remove_quota write_quota or_return get create update delete pure
  quota-answered s =
      let w = (env.resource_quotas.get ns.k8s_name resource_quota_name s.world).1 in
      elim (quotas.get_answers ns.k8s_name resource_quota_name s.world) [
        | inl (existing, found) ↦
            let (u, done) =
              quotas.update_answers ns.k8s_name (quota_for env ns existing.meta.resource_version)
                existing s.world found refl in
            elim (quotas.delete_answers ns.k8s_name resource_quota_name w) [
              | inl deleted ↦ ground arith
              | inr (e, failed, absent) ↦ ground arith
            ]
        | inr (e, failed, absent) ↦
            let (u, done) =
              quotas.create_answers ns.k8s_name (quota_for env ns "") s.world e failed absent in
            ground arith
      ]

  reconcile-answered :
      (s : Session env.World) → (ns.mode == "managed") ≡ true → (reconcile env ns s).0 ≡ ok tt
  unfolding reconcile or_return
  reconcile-answered s managed =
      ground (arith, ensure-answered s, quota-answered (ensure_namespace env ns.k8s_name s).1)

  -- When the APIs for Namespaces and ResourceQuotas answer and the latter obeys its laws,
  -- `NamespaceReconciler.Reconcile` returns no error for a managed namespace, which then has no
  -- quota if Hydra leaves every setting out, and otherwise the limits of the settings that denote a
  -- quantity and of a positive number of pods.
  pub limits-progress :
      (seen : String → String → env.World → Option ResourceList)
      → Obeys env.resource_quotas seen quota_name quota_hard
      → (s : Session env.World) → (ns.mode == "managed") ≡ true
      → ((reconcile env ns s).0 ≡ ok tt)
        × (seen ns.k8s_name resource_quota_name (reconcile env ns s).1.world ≡ wanted_limits env ns)
  limits-progress seen laws s managed =
      let done = reconcile-answered s managed in (done, reconcile-limits env seen laws ns s done)
