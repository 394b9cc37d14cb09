-- ===== src/Reconciler/Reports/Heartbeat.antt =====
-- What a heartbeat tells Hydra.
use hydra_operator.Base.{
  String, ◌<>◌, Bool, true, false, ◌≡◌, refl, Result, ok, err, arith, ◌∷◌, List, Result-cases, inl,
  inr,
}
use hydra_operator.Wire.{HeartbeatRequest}
use hydra_operator.Kube.Calls.{heartbeat}
use hydra_operator.Kube.Env.{Env, Session, CanSend, pure, ◌>>=◌, or_return}
use hydra_operator.Capabilities.{
  Capabilities, Detected, json_bool, marshal_capabilities_json, detect,
}
use hydra_operator.Reconciler.Manager.{ManagerConfig, heartbeat_once}
use hydra_operator.Reconciler.Ownership.Policies.{detect-Keeps}
use hydra_operator.Reconciler.Reports.Defs.{
  Sent, heartbeat_url, reports, Allows-Reported, post_heartbeat-reports,
}

abbrev flag : Bool → String
flag true = "true"
flag false = "false"

-- The JSON object with one member for each capability, of the capability's own name.
abbrev capabilities_text : Capabilities → String
capabilities_text c =
    "{\"openshift_available\":"
    <> flag c.openshift_available
    <> ",\"kourier_present\":"
    <> flag c.kourier_present
    <> ",\"gateway_api_present\":"
    <> flag c.gateway_api_present
    <> ",\"knative_available\":"
    <> flag c.knative_available
    <> ",\"gatekeeper_available\":"
    <> flag c.gatekeeper_available
    <> "}"

flag-json_bool : (b : Bool) → json_bool b ≡ flag b
flag-json_bool true = refl
flag-json_bool false = refl

capabilities_text-marshal :
    (d : Detected) → marshal_capabilities_json d ≡ ok (capabilities_text d.capabilities)
unfolding marshal_capabilities_json
capabilities_text-marshal d = cc (
  flag-json_bool d.capabilities.openshift_available,
  flag-json_bool d.capabilities.kourier_present,
  flag-json_bool d.capabilities.gateway_api_present,
  flag-json_bool d.capabilities.knative_available,
  flag-json_bool d.capabilities.gatekeeper_available,
)

-- The heartbeat of what was detected.
abbrev pub heartbeat_of : String → Detected → HeartbeatRequest
heartbeat_of operator_version d = record {
  operator_version = operator_version;
  k8s_version = d.k8s_version;
  node_count = d.node_count;
  capabilities = capabilities_text d.capabilities;
}

module _ (env : Env) (cfg : ManagerConfig) (can : CanSend env) where
  -- What is sent for the detector's result: one heartbeat, or nothing on an error.
  abbrev pub heartbeat_sent : Result String Detected → List Sent → List Sent
  heartbeat_sent (err _) rest = rest
  heartbeat_sent (ok d) rest =
      (heartbeat_url cfg.hydra, heartbeat (heartbeat_of cfg.operator_version d)) ∷ rest

  -- When requests can be built, `HeartbeatOnce` sends one heartbeat with the version of the operator,
  -- the version and the number of nodes that the detector found, and the JSON object of the five
  -- capabilities under their names; it sends nothing when the detection fails.
  pub heartbeat_once-reports :
      (s : Session env.World)
      → reports (heartbeat_once env cfg s).1.log ≡ heartbeat_sent (detect env s).0 (reports s.log)
  unfolding heartbeat_once or_return ◌>>=◌ pure
  heartbeat_once-reports s =
      let quiet =
        (detect-Keeps env (Allows-Reported env.lower_wide (reports s.log))).holds_after s refl in
      elim (Result-cases (detect env s).0) [
        | inl (d, found) ↦ ground (
          arith,
          quiet,
          capabilities_text-marshal d,
          post_heartbeat-reports env can cfg.hydra (heartbeat_of cfg.operator_version d)
              (detect env s).1,
        )
        | inr (e, failed) ↦ ground (arith, quiet)
      ]
