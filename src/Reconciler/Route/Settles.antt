-- ===== src/Reconciler/Route/Settles.antt =====
-- What a successful reconciliation of a route leaves in the cluster.
use hydra_operator.Base.{
  String, [], ◌∷◌, ◌≡◌, Option, none, some, ok, arith, if◌then◌else◌, Result-cases, inl, inr,
}
use hydra_operator.Base.Dict.{Dict}
use hydra_operator.Wire
use hydra_operator.Kube.Objects
use hydra_operator.Kube.Env.{Env, Session, or_return, get, create, update, delete}
use hydra_operator.Kube.Laws.{Obeys}
use hydra_operator.Reconciler.Naming.{ksvc_name_for}
use hydra_operator.Reconciler.Route.{
  build_route, carry_forward, remove_route, apply_route, reconcile,
}

abbrev pub route_name : Objects.Route → String
route_name r = r.meta.name

-- What the operator decides of a route: labels, target, and the two policies of TLS.
abbrev pub RouteView : Type 0
RouteView = Dict String × (String × String) × String × String

abbrev pub route_view : Objects.Route → RouteView
route_view r = (r.meta.labels, r.to, r.termination, r.insecure_policy)

-- The route that Hydra asks for, if it asks for one.
abbrev pub wanted_route : Env → Wire.Container → Option RouteView
wanted_route env c =
    if c.needs_openshift_route
    then some (
      ("app.kubernetes.io/managed-by", "hydra-operator") ∷ ("hydra.io/agent-id", c.id) ∷ [],
      ("Service", ksvc_name_for env.lower_wide c.id),
      "edge",
      "Redirect",
    )
    else none

module _ (env : Env) (seen : String → String → env.World → Option RouteView)
    (laws : Obeys env.routes seen route_name route_view) (c : Wire.Container) where
  abbrev desired : Objects.Route
  desired = build_route (ksvc_name_for env.lower_wide c.id) c

  abbrev view_in : env.World → Option RouteView
  view_in = seen c.namespace_k8s_name (ksvc_name_for env.lower_wide c.id)

  created :
      (u : Objects.Route) (w : env.World)
      → (env.routes.create c.namespace_k8s_name desired w).0 ≡ ok u
      → view_in (env.routes.create c.namespace_k8s_name desired w).1 ≡ some (route_view desired)
  unfolding build_route
  created = laws.create_ok c.namespace_k8s_name desired

  updated :
      (existing u : Objects.Route) (w : env.World)
      → (env.routes.update c.namespace_k8s_name (carry_forward desired existing) w).0 ≡ ok u
      → view_in (env.routes.update c.namespace_k8s_name (carry_forward desired existing) w).1
        ≡ some (route_view desired)
  unfolding build_route
  updated existing = laws.update_ok c.namespace_k8s_name (carry_forward desired existing)

  apply_route-route :
      (s : Session env.World) (endpoint : String)
      → (apply_route env c s).0 ≡ ok endpoint
      → view_in (apply_route env c s).1.world ≡ some (route_view desired)
  unfolding apply_route or_return get create update
  apply_route-route s endpoint h =
      elim (Result-cases
        (env.routes.get c.namespace_k8s_name (ksvc_name_for env.lower_wide c.id) s.world).0) [
          | inl (existing, found) ↦ grind (arith, updated existing)
          | inr (e, failed) ↦ grind (arith, created)
        ]

  remove_route-none :
      (s : Session env.World) (endpoint : String)
      → (remove_route env c s).0 ≡ ok endpoint
      → view_in (remove_route env c s).1.world ≡ none
  unfolding remove_route or_return delete
  remove_route-none s endpoint h = grind (arith, laws.delete_ok, laws.delete_absent)

  -- When `RouteReconciler.Reconcile` returns an endpoint and the API for Routes obeys its laws, the
  -- Route of the container is in the cluster if Hydra sets the flag, with the operator's and the
  -- agent's label, to the Service of the container's name, with edge termination and redirection to
  -- TLS, and is not there if Hydra does not set it. The flag alone decides: the capabilities of the
  -- cluster are not asked.
  pub reconcile-route :
      (s : Session env.World) (endpoint : String)
      → (reconcile env c s).0 ≡ ok endpoint
      → view_in (reconcile env c s).1.world ≡ wanted_route env c
  unfolding reconcile build_route
  reconcile-route s endpoint h =
      ground (arith, apply_route-route s endpoint, remove_route-none s endpoint)
