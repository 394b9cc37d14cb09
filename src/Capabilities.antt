-- ===== src/Capabilities.antt =====
-- internal/capabilities/detector.go
pub mod Probes
use hydra_operator.Base.{ℕ, String, ◌<>◌, Bool, true, false, Result, ok, err, is_ok, length}
use hydra_operator.Kube.Calls.{get_call, discover_call, version_call, nodes_call, Kind}
use hydra_operator.Kube.Env.{Env, Action, pure, or_return, perform, ◌>>=◌}

pub record Capabilities : Type 0 where
  pub openshift_available : Bool
  pub kourier_present : Bool
  pub gateway_api_present : Bool
  pub knative_available : Bool
  pub gatekeeper_available : Bool

-- `Result` of the source: the capabilities with the other facts of a heartbeat.
pub record Detected : Type 0 where
  pub capabilities : Capabilities
  pub k8s_version : String
  pub node_count : ℕ

abbrev pub json_bool : Bool → String
json_bool true = "true"
json_bool false = "false"

-- `MarshalCapabilitiesJSON`; the encoding of five Booleans does not fail.
unfoldable pub marshal_capabilities_json : Detected → Result String String
marshal_capabilities_json d = ok (
    "{\"openshift_available\":"
    <> json_bool d.capabilities.openshift_available
    <> ",\"kourier_present\":"
    <> json_bool d.capabilities.kourier_present
    <> ",\"gateway_api_present\":"
    <> json_bool d.capabilities.gateway_api_present
    <> ",\"knative_available\":"
    <> json_bool d.capabilities.knative_available
    <> ",\"gatekeeper_available\":"
    <> json_bool d.capabilities.gatekeeper_available
    <> "}")

module _ (env : Env) where
  unfoldable pub group_version_available : String → Action env.World Bool
  group_version_available group_version = do
    r ← perform (discover_call group_version) (env.discover group_version)
    pure (is_ok r)

  unfoldable pub kourier_present : Action env.World Bool
  kourier_present = do
    r ←
        perform (get_call Kind.core_services "kourier-system" "kourier")
          (env.core_service "kourier-system" "kourier")
    pure (is_ok r)

  -- The five probes, in the order of the source.
  unfoldable pub probe : Action env.World Capabilities
  probe = do
    openshift ← group_version_available "route.openshift.io/v1"
    gateway ← group_version_available "gateway.networking.k8s.io/v1"
    knative ← group_version_available "serving.knative.dev/v1"
    gatekeeper ← group_version_available "constraints.gatekeeper.sh/v1beta1"
    kourier ← kourier_present
    pure (record {
      openshift_available = openshift;
      kourier_present = kourier;
      gateway_api_present = gateway;
      knative_available = knative;
      gatekeeper_available = gatekeeper;
    })

  -- Version and node count; on an error the partial result is not read by any caller.
  unfoldable pub detect : Action env.World (Result String Detected)
  detect = do
    caps ← probe
    or_return (perform version_call env.server_version)
        (λ e. pure (err ("capabilities: server version: " <> e.message)))
        (λ version.
          or_return (perform nodes_call env.list_nodes)
            (λ e. pure (err ("capabilities: list nodes: " <> e.message)))
            (λ nodes. pure (
              ok (record {
                capabilities = caps;
                k8s_version = version;
                node_count = length nodes;
              }))))
