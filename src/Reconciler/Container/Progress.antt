-- ===== src/Reconciler/Container/Progress.antt =====
-- A container is reconciled whenever the API server answers.
use hydra_operator.Base.{String, ◌≡◌, refl, Option, some, true, ok, err, arith, inl, inr}
use hydra_operator.Base.Dict.{Dict}
use hydra_operator.Wire
use hydra_operator.Kube.Objects.{Service, ServiceSpec}
use hydra_operator.Kube.Calls.{ApiError}
use hydra_operator.Kube.Env.{Env, Session, pure, or_return, get, create, update}
use hydra_operator.Kube.Laws.{Obeys, Answers}
use hydra_operator.Reconciler.Naming.{ksvc_name_for}
use hydra_operator.Reconciler.Status.{ContainerStatus, derive_container_status}
use hydra_operator.Reconciler.Container.Defs.{build_service, carry_forward, reconcile}
use hydra_operator.Reconciler.Container.Settles.{service_name, service_view, reconcile-service}

abbrev pub service_version : Service → String
service_version svc = svc.meta.resource_version

module _ (env : Env) (answers : Answers env.services service_name service_version)
    (c : Wire.Container) where
  abbrev name : String
  name = ksvc_name_for env.lower_wide c.id

  create_answered :
      (w : env.World) (e : ApiError)
      → (env.services.get c.namespace_k8s_name name w).0 ≡ err e
      → e.not_found ≡ true
      → (u : Service) × ((env.services.create c.namespace_k8s_name
            (build_service env name c)
            (env.services.get c.namespace_k8s_name name w).1).0
          ≡ ok u)
  unfolding build_service
  create_answered = answers.create_answers c.namespace_k8s_name (build_service env name c)

  update_answered :
      (w : env.World) (existing : Service)
      → (env.services.get c.namespace_k8s_name name w).0 ≡ ok existing
      → (u : Service) × ((env.services.update c.namespace_k8s_name
            (carry_forward (build_service env name c) existing)
            (env.services.get c.namespace_k8s_name name w).1).0
          ≡ ok u)
  unfolding build_service
  update_answered w existing found =
      answers.update_answers c.namespace_k8s_name
        (carry_forward (build_service env name c) existing) existing w found refl

  pub reconcile-answered :
      (s : Session env.World) → (status : ContainerStatus) × ((reconcile env c s).0 ≡ ok status)
  unfolding reconcile or_return get create update pure
  reconcile-answered s = elim (answers.get_answers c.namespace_k8s_name name s.world) [
    | inl (existing, found) ↦
        let (u, done) = update_answered s.world existing found in
        (derive_container_status u, ground arith)
    | inr (e, failed, absent) ↦
        let (u, done) = create_answered s.world e failed absent in
        (derive_container_status u, ground arith)
  ]

  -- When the API for Services answers and obeys its laws up to the defaults that the server fills in,
  -- `ContainerReconciler.Reconcile` returns a status, and the Service of the container is in the
  -- cluster with the labels and the spec of `buildService` and those defaults.
  pub service-progress :
      (fill : ServiceSpec → ServiceSpec)
      (seen : String → String → env.World → Option (Dict String × ServiceSpec))
      → Obeys env.services seen service_name (service_view fill)
      → (s : Session env.World)
      → ((status : ContainerStatus) × ((reconcile env c s).0 ≡ ok status))
        × (seen c.namespace_k8s_name name (reconcile env c s).1.world
            ≡ some (service_view fill (build_service env name c)))
  service-progress fill seen laws s =
      let (status, done) = reconcile-answered s in
      ((status, done), reconcile-service env fill seen laws c s status done)
