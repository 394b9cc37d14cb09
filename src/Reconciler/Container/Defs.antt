-- ===== src/Reconciler/Container/Defs.antt =====
-- internal/reconciler/container.go
use hydra_operator.Base.{
  String, ◌<>◌, true, Option, none, some, List, [], ◌∷◌, map, Result, ok, err, is_empty, not,
  if◌then◌else◌,
}
use hydra_operator.Base.Int.{ℤ, pos, positive}
use hydra_operator.Base.Decimal.{itoa}
use hydra_operator.Base.Dict.{Dict, insert}
use hydra_operator.Wire
use hydra_operator.Wire.{EnvVar, PortSpec, Traffic, Scaling, Definition}
use hydra_operator.Kube.Objects.{
  ResourceList, PodEnvVar, ContainerPort, PodContainer, TrafficTarget, Service,
}
use hydra_operator.Kube.Env.{Env, Action, pure, or_return, get, create, update}
use hydra_operator.Kube.Clients.{services}
use hydra_operator.Reconciler.Naming.{ksvc_name_for, agent_labels}
use hydra_operator.Reconciler.Namespace.{set_quantity}
use hydra_operator.Reconciler.Status.{ContainerStatus, derive_container_status}

abbrev pub restart_generation_annotation : String
restart_generation_annotation = "hydra.io/restart-generation"

-- `runtimeClassNamePtr`, and the probe's path
abbrev pub non_empty : String → Option String
non_empty name = if is_empty name then none else some name

-- One round of `buildEnv`. The key of a secret defaults to the variable's own name.
abbrev pub build_env_var : EnvVar → PodEnvVar
build_env_var e =
    if not (is_empty e.secret_ref)
    then record {
      name = e.name;
      value = "";
      value_from =
          some (e.secret_ref, if not (is_empty e.secret_key) then e.secret_key else e.name);
    }
    else record { name = e.name; value = e.value; value_from = none }

-- A nil and an empty slice are both `[]`.
unfoldable pub build_env : List EnvVar → List PodEnvVar
build_env = map build_env_var

-- An empty protocol is the field's zero value.
abbrev pub build_port : PortSpec → ContainerPort
build_port p = record { name = p.name; container_port = p.container_port; protocol = p.protocol }

unfoldable pub build_ports : List PortSpec → List ContainerPort
build_ports = map build_port

abbrev pub build_target : Traffic → TrafficTarget
build_target t = record {
  revision_name = t.revision_name;
  latest_revision = none;
  percent = some t.percent;
}

-- `buildTraffic`: with no split, all to the latest ready revision.
unfoldable pub build_traffic : List Traffic → List TrafficTarget
build_traffic [] =
    record { revision_name = ""; latest_revision = some true; percent = some (pos 100) } ∷ []
build_traffic (t ∷ traffic) = map build_target (t ∷ traffic)

-- A positive scale is written under its name.
abbrev pub set_scale : String → ℤ → Dict String → Dict String
set_scale name scale annotations =
    if positive scale then insert name (itoa scale) annotations else annotations

unfoldable pub build_annotations : Wire.Container → Dict String
build_annotations c = set_scale "autoscaling.knative.dev/max-scale" c.scaling.max_scale (
    set_scale "autoscaling.knative.dev/min-scale" c.scaling.min_scale
      ((restart_generation_annotation, itoa c.restart_generation) ∷ []))

abbrev pub build_concurrency : Scaling → Option ℤ
build_concurrency s = if positive s.concurrency_target then some s.concurrency_target else none

-- What `Update` sends: the desired service with the version, the status and the annotations of
-- the one that exists.
abbrev pub carry_forward : Service → Service → Service
carry_forward desired existing = record desired {
  meta = record desired.meta {
    resource_version = existing.meta.resource_version;
    annotations = existing.meta.annotations;
  };
  status = existing.status;
}

module _ (env : Env) where
  unfoldable pub build_resource_list : String → String → ResourceList
  build_resource_list cpu_limit memory_limit =
      set_quantity env (set_quantity env [] "cpu" cpu_limit) "memory" memory_limit

  abbrev pub build_container : Definition → PodContainer
  build_container d = record {
    image = d.image;
    env = build_env d.env;
    ports = build_ports d.ports;
    limits = build_resource_list d.cpu_limit d.memory_limit;
    requests = build_resource_list d.cpu_limit d.memory_limit;
    readiness_probe = non_empty d.health_check_path;
  }

  unfoldable pub build_service : String → Wire.Container → Service
  build_service name c = record {
    meta = record {
      name = name;
      namespace = c.namespace_k8s_name;
      labels = agent_labels c.id;
      annotations = [];
      resource_version = "";
    };
    spec = record {
      template = record {
        annotations = build_annotations c;
        containers = build_container c.definition ∷ [];
        runtime_class_name = non_empty c.runtime_class_name;
        container_concurrency = build_concurrency c.scaling;
      };
      traffic = build_traffic c.traffic;
    };
    status = record { url = none; latest_ready_revision_name = ""; ready = none; traffic = [] };
  }

  -- The text of an error, `reconciler: VERB service NAMESPACE/NAME: MESSAGE`.
  abbrev service_error : String → Wire.Container → String → String
  service_error verb c message =
      "reconciler: "
      <> verb
      <> " service "
      <> c.namespace_k8s_name
      <> "/"
      <> ksvc_name_for env.lower_wide c.id
      <> ": "
      <> message

  unfoldable pub reconcile : Wire.Container → Action env.World (Result String ContainerStatus)
  reconcile c =
      let name = ksvc_name_for env.lower_wide c.id in
      let desired = build_service name c in
      or_return (get (services env) c.namespace_k8s_name name)
        (λ e.
          if e.not_found
          then or_return (create (services env) c.namespace_k8s_name desired)
              (λ f. pure (err (service_error "create" c f.message)))
              (λ created. pure (ok (derive_container_status created)))
          else pure (err (service_error "get" c e.message)))
        (λ existing.
          or_return (update (services env) c.namespace_k8s_name (carry_forward desired existing))
            (λ f. pure (err (service_error "update" c f.message)))
            (λ updated. pure (ok (derive_container_status updated))))
