-- ===== src/Reconciler/Container/Settles.antt =====
-- What a successful reconciliation of a container leaves in the cluster.
use hydra_operator.Base.{String, ◌≡◌, Option, some, ok, arith, Result-cases, inl, inr}
use hydra_operator.Base.Dict.{Dict}
use hydra_operator.Wire
use hydra_operator.Kube.Objects.{Service, ServiceSpec}
use hydra_operator.Kube.Env.{Env, Session, or_return, get, create, update}
use hydra_operator.Kube.Laws.{Obeys}
use hydra_operator.Reconciler.Naming.{ksvc_name_for}
use hydra_operator.Reconciler.Status.{ContainerStatus}
use hydra_operator.Reconciler.Container.Defs.{build_service, carry_forward, reconcile}

abbrev pub service_name : Service → String
service_name svc = svc.meta.name

-- What the operator decides of a service: its labels, and its spec with what the server fills in
-- where a field is nil (`fill`, which is Knative's defaulting).
abbrev pub service_view : (ServiceSpec → ServiceSpec) → Service → Dict String × ServiceSpec
service_view fill svc = (svc.meta.labels, fill svc.spec)

module _ (env : Env) (fill : ServiceSpec → ServiceSpec)
    (seen : String → String → env.World → Option (Dict String × ServiceSpec))
    (laws : Obeys env.services seen service_name (service_view fill)) (c : Wire.Container) where
  abbrev desired : Service
  desired = build_service env (ksvc_name_for env.lower_wide c.id) c

  abbrev view_in : env.World → Option (Dict String × ServiceSpec)
  view_in = seen c.namespace_k8s_name (ksvc_name_for env.lower_wide c.id)

  created :
      (u : Service) (w : env.World)
      → (env.services.create c.namespace_k8s_name desired w).0 ≡ ok u
      → view_in (env.services.create c.namespace_k8s_name desired w).1
        ≡ some (service_view fill desired)
  unfolding build_service
  created = laws.create_ok c.namespace_k8s_name desired

  updated :
      (existing u : Service) (w : env.World)
      → (env.services.update c.namespace_k8s_name (carry_forward desired existing) w).0 ≡ ok u
      → view_in (env.services.update c.namespace_k8s_name (carry_forward desired existing) w).1
        ≡ some (service_view fill desired)
  unfolding build_service
  updated existing = laws.update_ok c.namespace_k8s_name (carry_forward desired existing)

  -- When `ContainerReconciler.Reconcile` returns a status and the API for Services obeys its laws up
  -- to the defaults that the server fills in, the Service of the container is in the container's
  -- namespace with the labels and the spec of `buildService` and those defaults, whether it was there
  -- before or not.
  pub reconcile-service :
      (s : Session env.World) (status : ContainerStatus)
      → (reconcile env c s).0 ≡ ok status
      → view_in (reconcile env c s).1.world ≡ some (service_view fill desired)
  unfolding reconcile or_return get create update
  reconcile-service s status h =
      elim (Result-cases
        (env.services.get c.namespace_k8s_name (ksvc_name_for env.lower_wide c.id) s.world).0) [
          | inl (existing, found) ↦ grind (arith, updated existing)
          | inr (e, failed) ↦ grind (arith, created)
        ]
