-- ===== src/Reconciler/Route.antt =====
-- internal/reconciler/route.go
pub mod Settles
pub mod Progress
use hydra_operator.Base.{String, ◌<>◌, not, List, [], ◌∷◌, Result, ok, err, is_empty, if◌then◌else◌}
use hydra_operator.Wire
use hydra_operator.Kube.Objects
use hydra_operator.Kube.Env.{Env, Action, pure, or_return, get, create, update, delete}
use hydra_operator.Kube.Clients.{routes}
use hydra_operator.Reconciler.Naming.{ksvc_name_for, agent_labels}

-- `endpointFromRoute`
abbrev pub first_host : List String → String
first_host [] = ""
first_host (host ∷ _) = if is_empty host then "" else "https://" <> host

unfoldable pub endpoint_from_route : Objects.Route → String
endpoint_from_route route = first_host route.ingress_hosts

unfoldable pub build_route : String → Wire.Container → Objects.Route
build_route name c = record {
  meta = record {
    name = name;
    namespace = c.namespace_k8s_name;
    labels = agent_labels c.id;
    annotations = [];
    resource_version = "";
  };
  to = ("Service", name);
  termination = "edge";
  insecure_policy = "Redirect";
  ingress_hosts = [];
}

-- What `Update` sends: the version, the status and the annotations are those of the existing route.
abbrev pub carry_forward : Objects.Route → Objects.Route → Objects.Route
carry_forward desired existing = record desired {
  meta = record desired.meta {
    resource_version = existing.meta.resource_version;
    annotations = existing.meta.annotations;
  };
  ingress_hosts = existing.ingress_hosts;
}

module _ (env : Env) where
  -- The text of an error, `reconciler: VERB route NAMESPACE/NAME: MESSAGE`.
  abbrev route_error : String → Wire.Container → String → String
  route_error verb c message =
      "reconciler: "
      <> verb
      <> " route "
      <> c.namespace_k8s_name
      <> "/"
      <> ksvc_name_for env.lower_wide c.id
      <> ": "
      <> message

  -- `!c.NeedsOpenShiftRoute`
  unfoldable pub remove_route : Wire.Container → Action env.World (Result String String)
  remove_route c =
      or_return (delete (routes env) c.namespace_k8s_name (ksvc_name_for env.lower_wide c.id))
        (λ e. if e.not_found then pure (ok "") else pure (err (route_error "delete" c e.message)))
        (λ _. pure (ok ""))

  unfoldable pub apply_route : Wire.Container → Action env.World (Result String String)
  apply_route c =
      let name = ksvc_name_for env.lower_wide c.id in
      let desired = build_route name c in
      or_return (get (routes env) c.namespace_k8s_name name)
        (λ e.
          if e.not_found
          then or_return (create (routes env) c.namespace_k8s_name desired)
              (λ f. pure (err (route_error "create" c f.message)))
              (λ created. pure (ok (endpoint_from_route created)))
          else pure (err (route_error "get" c e.message)))
        (λ existing.
          or_return (update (routes env) c.namespace_k8s_name (carry_forward desired existing))
            (λ f. pure (err (route_error "update" c f.message)))
            (λ updated. pure (ok (endpoint_from_route updated))))

  unfoldable pub reconcile : Wire.Container → Action env.World (Result String String)
  reconcile c = if not c.needs_openshift_route then remove_route c else apply_route c
