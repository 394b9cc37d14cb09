-- ===== src/Reconciler/Route/Progress.antt =====
-- A route is reconciled whenever the API server answers.
use hydra_operator.Base.{String, ◌≡◌, refl, Option, true, ok, err, arith, inl, inr, Bool-cases}
use hydra_operator.Wire
use hydra_operator.Kube.Objects
use hydra_operator.Kube.Calls.{ApiError}
use hydra_operator.Kube.Env.{Env, Session, pure, or_return, get, create, update, delete}
use hydra_operator.Kube.Laws.{Obeys, Answers}
use hydra_operator.Reconciler.Naming.{ksvc_name_for}
use hydra_operator.Reconciler.Route.{
  build_route, carry_forward, endpoint_from_route, remove_route, apply_route, reconcile,
}
use hydra_operator.Reconciler.Route.Settles.{
  RouteView, route_name, route_view, wanted_route, reconcile-route,
}

abbrev pub route_version : Objects.Route → String
route_version r = r.meta.resource_version

module _ (env : Env) (answers : Answers env.routes route_name route_version)
    (c : Wire.Container) where
  abbrev name : String
  name = ksvc_name_for env.lower_wide c.id

  create_answered :
      (w : env.World) (e : ApiError)
      → (env.routes.get c.namespace_k8s_name name w).0 ≡ err e
      → e.not_found ≡ true
      → (u : Objects.Route) × ((env.routes.create c.namespace_k8s_name
            (build_route name c)
            (env.routes.get c.namespace_k8s_name name w).1).0
          ≡ ok u)
  unfolding build_route
  create_answered = answers.create_answers c.namespace_k8s_name (build_route name c)

  update_answered :
      (w : env.World) (existing : Objects.Route)
      → (env.routes.get c.namespace_k8s_name name w).0 ≡ ok existing
      → (u : Objects.Route) × ((env.routes.update c.namespace_k8s_name
            (carry_forward (build_route name c) existing)
            (env.routes.get c.namespace_k8s_name name w).1).0
          ≡ ok u)
  unfolding build_route
  update_answered w existing found =
      answers.update_answers c.namespace_k8s_name (carry_forward (build_route name c) existing)
        existing w found refl

  apply-answered :
      (s : Session env.World) → (endpoint : String) × ((apply_route env c s).0 ≡ ok endpoint)
  unfolding apply_route or_return get create update pure
  apply-answered s = elim (answers.get_answers c.namespace_k8s_name name s.world) [
    | inl (existing, found) ↦
        let (u, done) = update_answered s.world existing found in
        (endpoint_from_route u, ground arith)
    | inr (e, failed, absent) ↦
        let (u, done) = create_answered s.world e failed absent in
        (endpoint_from_route u, ground arith)
  ]

  remove-answered : (s : Session env.World) → (remove_route env c s).0 ≡ ok ""
  unfolding remove_route or_return delete pure
  remove-answered s = elim (answers.delete_answers c.namespace_k8s_name name s.world) [
    | inl done ↦ ground arith
    | inr (e, failed, absent) ↦ ground arith
  ]

  reconcile-answered :
      (s : Session env.World) → (endpoint : String) × ((reconcile env c s).0 ≡ ok endpoint)
  unfolding reconcile
  reconcile-answered s = elim (Bool-cases c.needs_openshift_route) [
    | inl wanted ↦ let (endpoint, done) = apply-answered s in (endpoint, ground arith)
    | inr unwanted ↦ ("", ground (arith, remove-answered s))
  ]

  -- When the API for Routes answers and obeys its laws, `RouteReconciler.Reconcile` returns an
  -- endpoint, and the Route of the container is in the cluster as `wanted_route` has it if Hydra sets
  -- the flag, and is not there if it does not.
  pub route-progress :
      (seen : String → String → env.World → Option RouteView)
      → Obeys env.routes seen route_name route_view
      → (s : Session env.World)
      → ((endpoint : String) × ((reconcile env c s).0 ≡ ok endpoint))
        × (seen c.namespace_k8s_name name (reconcile env c s).1.world ≡ wanted_route env c)
  route-progress seen laws s =
      let (endpoint, done) = reconcile-answered s in
      ((endpoint, done), reconcile-route env seen laws c s endpoint done)
