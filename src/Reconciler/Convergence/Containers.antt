-- ===== src/Reconciler/Convergence/Containers.antt =====
-- After a round, every container's service and route are in the cluster as Hydra wants them.
use hydra_operator.Base.{String, ◌≡◌, ◌∙◌, Option, some, ok, All}
use hydra_operator.Base.Dict.{Dict}
use hydra_operator.Wire
use hydra_operator.Wire.{DesiredState}
use hydra_operator.Kube.Objects.{ServiceSpec}
use hydra_operator.Kube.Env.{Env, Session}
use hydra_operator.Kube.Laws.{Obeys, Answers}
use hydra_operator.Kube.Leaves.{Leaves-or_return_known, Leaves-after, or_return_known}
use hydra_operator.Hydra.Client.{get_desired_state}
use hydra_operator.Reconciler.Naming.{ksvc_name_for}
use hydra_operator.Reconciler.Container
use hydra_operator.Reconciler.Container.{build_service}
use hydra_operator.Reconciler.Container.Settles.{service_name, service_view}
use hydra_operator.Reconciler.Container.Progress.{
  service_version, service-progress, reconcile-answered,
}
use hydra_operator.Reconciler.Route
use hydra_operator.Reconciler.Route.Settles.{RouteView, route_name, route_view, wanted_route}
use hydra_operator.Reconciler.Route.Progress.{route_version, route-progress}
use hydra_operator.Reconciler.Manager.{ManagerConfig, sync_container, finish_container, sync_once}
use hydra_operator.Reconciler.Convergence.Defs.{
  Undisturbed, AllApart, but_service, but_route, all_free,
}
use hydra_operator.Reconciler.Convergence.Loops.{finish_container-Leaves, after_route-Leaves}
use hydra_operator.Reconciler.Convergence.Round.{sync_once-InPlace}

-- The Service of a container as `buildService` makes it.
abbrev pub wanted_service :
    Env → (ServiceSpec → ServiceSpec) → Wire.Container → Option (Dict String × ServiceSpec)
wanted_service env fill c =
    some (service_view fill (build_service env (ksvc_name_for env.lower_wide c.id) c))

module _ (env : Env) (cfg : ManagerConfig)
    (answers : Answers env.services service_name service_version) where
  module _ (fill : ServiceSpec → ServiceSpec)
      (seen : String → String → env.World → Option (Dict String × ServiceSpec))
      (laws : Obeys env.services seen service_name (service_view fill))
      (u : (ns name : String) → Undisturbed env (seen ns name) (but_service ns name)) where
    sync_container-service :
        (c : Wire.Container) (s : Session env.World)
        → seen c.namespace_k8s_name
            (ksvc_name_for env.lower_wide c.id)
            (sync_container env cfg c s).1.world
          ≡ wanted_service env fill c
    unfolding sync_container
    sync_container-service c s =
        let ((status, done), there) = service-progress env answers c fill seen laws s in
        Leaves-or_return_known _ _ _ s status done
          (finish_container-Leaves env cfg (u _ _) c status tt (all_free c.custom_domains))
        ∙ there

    -- When the desired state is received and names no service twice, the API for Services answers
    -- and obeys its laws up to the defaults that the server fills in, and nothing but a call for a
    -- Service changes that Service, then after `syncOnce` every container has its Service in the
    -- cluster with the labels and the spec of `buildService` and those defaults, whatever the other
    -- calls of the round return.
    pub sync_once-converges :
        (s : Session env.World) (state : DesiredState)
        → (get_desired_state env cfg.hydra s).0 ≡ ok state
        → AllApart env.lower_wide state.containers
        → All
            (λ c.
              seen c.namespace_k8s_name
                (ksvc_name_for env.lower_wide c.id)
                (sync_once env cfg s).1.world
              ≡ wanted_service env fill c)
            state.containers
    sync_once-converges =
        sync_once-InPlace env cfg seen but_service (wanted_service env fill) u
          sync_container-service (λ c d other. (other, tt, all_free d.custom_domains))

  module _ (route_answers : Answers env.routes route_name route_version)
      (seen : String → String → env.World → Option RouteView)
      (laws : Obeys env.routes seen route_name route_view)
      (u : (ns name : String) → Undisturbed env (seen ns name) (but_route ns name)) where
    sync_container-route :
        (c : Wire.Container) (s : Session env.World)
        → seen c.namespace_k8s_name
            (ksvc_name_for env.lower_wide c.id)
            (sync_container env cfg c s).1.world
          ≡ wanted_route env c
    unfolding sync_container finish_container
    sync_container-route c s =
        let (status, done) = reconcile-answered env answers c s in
        rw (or_return_known (Container.reconcile env c) _ _ s status done) (
          Leaves-after (Route.reconcile env c) _ (Container.reconcile env c s).1
            (after_route-Leaves env cfg (u _ _) c status (all_free c.custom_domains))
          ∙ (route-progress env route_answers c seen laws (Container.reconcile env c s).1).1)

    -- When the desired state is received and names no service twice, the APIs for Services and for
    -- Routes answer, the latter obeys its laws, and nothing but a call for a Route changes that
    -- Route, then after `syncOnce` every container for which Hydra sets the flag has its Route in the
    -- cluster, with the operator's and the agent's label, to the Service of the container's name, with
    -- edge termination and redirection to TLS, and every other container has none. The flag alone
    -- decides, on a cluster with Kourier or the Gateway API too.
    pub sync_once-routes :
        (s : Session env.World) (state : DesiredState)
        → (get_desired_state env cfg.hydra s).0 ≡ ok state
        → AllApart env.lower_wide state.containers
        → All
            (λ c.
              seen c.namespace_k8s_name
                (ksvc_name_for env.lower_wide c.id)
                (sync_once env cfg s).1.world
              ≡ wanted_route env c)
            state.containers
    sync_once-routes =
        sync_once-InPlace env cfg seen but_route (wanted_route env) u sync_container-route
          (λ c d other. (tt, other, all_free d.custom_domains))
