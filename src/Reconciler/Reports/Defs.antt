-- ===== src/Reconciler/Reports/Defs.antt =====
-- What a round reports to Hydra: one report for each namespace and for each container, in their
-- order, and counts that agree with the reports.
use Prim.Native.Char.{Char}
use hydra_operator.Base.{
  String, ◌<>◌, Bool, true, ◌≡◌, Option, none, some, List, [], ◌∷◌, Result, arith,
}
use hydra_operator.Wire.{
  HeartbeatRequest, NamespaceSyncStatusRequest, AgentK8sStatusRequest, DomainStatusRequest,
  ClusterStatusRequest,
}
use hydra_operator.Kube.Calls.{
  heartbeat, Call, get_call, create_call, update_call, delete_call, discover_call, version_call,
  nodes_call, http_call, Body, cluster_status, namespace_status, agent_status, domain_status,
}
use hydra_operator.Kube.Env.{Env, Session, ◌>>=◌, or_return, unless, perform, CanSend}
use hydra_operator.Hydra.Client.{
  Client, send, report, build_request, put_namespace_sync_status, put_agent_k8s_status,
  put_domain_status, put_cluster_status, post_heartbeat,
}
use hydra_operator.Reconciler.Ownership.{IsClusterCall}
use hydra_operator.Kube.Keeps.{Allows}

-- A sent body with the URL to which it went.
abbrev pub Sent : Type 0
Sent = String × Body

abbrev pub sent_body : String → Option Body → List Sent → List Sent
sent_body url none rest = rest
sent_body url (some b) rest = (url, b) ∷ rest

-- Where the reports go.
abbrev pub namespace_url : Client → String → String
namespace_url c id = c.base_url <> "/operator/namespaces/" <> id <> "/sync-status"

abbrev pub agent_url : Client → String → String
agent_url c id = c.base_url <> "/operator/agents/" <> id <> "/k8s-status"

abbrev pub domain_url : Client → String → String
domain_url c id = c.base_url <> "/operator/domains/" <> id <> "/status"

abbrev pub cluster_url : Client → String
cluster_url c = c.base_url <> "/operator/clusters/" <> c.cluster_id <> "/status"

abbrev pub heartbeat_url : Client → String
heartbeat_url c = c.base_url <> "/operator/clusters/" <> c.cluster_id <> "/heartbeat"

-- What was sent to Hydra, newest first.
abbrev pub reports : List Call → List Sent
reports [] = []
reports (http_call req ∷ log) = sent_body req.url req.body (reports log)
reports (get_call kind ns name ∷ log) = reports log
reports (create_call ns o ∷ log) = reports log
reports (update_call ns o ∷ log) = reports log
reports (delete_call kind ns name ∷ log) = reports log
reports (discover_call group ∷ log) = reports log
reports (version_call ∷ log) = reports log
reports (nodes_call ∷ log) = reports log

-- A log with the given reports.
abbrev pub Reported : List Sent → List Call → Type 0
Reported r log = reports log ≡ r

-- A call to the cluster reports nothing.
pub Allows-Reported :
    (wide : Char → Char) (r : List Sent) (c : Call) → IsClusterCall wide c → Allows (Reported r) c
Allows-Reported wide r (get_call kind ns name) h = record { extend = λ l e. e }
Allows-Reported wide r (create_call ns o) h = record { extend = λ l e. e }
Allows-Reported wide r (update_call ns o) h = record { extend = λ l e. e }
Allows-Reported wide r (delete_call kind ns name) h = record { extend = λ l e. e }
Allows-Reported wide r (discover_call group) h = record { extend = λ l e. e }
Allows-Reported wide r version_call h = record { extend = λ l e. e }
Allows-Reported wide r nodes_call h = record { extend = λ l e. e }
Allows-Reported wide r (http_call req) h = absurd h

module _ (env : Env) (can : CanSend env) (hydra : Client) where
  send-reports :
      {A : Type 0} (method path : String) (b : Body) (zero_value : A)
      (decode : Option (String → Result String A)) (authed : Bool) (s : Session env.World)
      → reports (send env hydra method path (some b) authed zero_value decode s).1.log
        ≡ (hydra.base_url <> path, b) ∷ reports s.log
  unfolding send unless perform build_request or_return
  send-reports method path b z decode authed s =
      grind (arith, can.marshals b, can.builds method (hydra.base_url <> path))

  report-reports :
      (op method path : String) (b : Body) (s : Session env.World)
      → reports (report env hydra op method path b s).1.log
        ≡ (hydra.base_url <> path, b) ∷ reports s.log
  unfolding report ◌>>=◌
  report-reports op method path b s = send-reports method path b tt none true s

  pub put_namespace_sync_status-reports :
      (id : String) (req : NamespaceSyncStatusRequest) (s : Session env.World)
      → reports (put_namespace_sync_status env hydra id req s).1.log
        ≡ (namespace_url hydra id, namespace_status req) ∷ reports s.log
  unfolding put_namespace_sync_status
  put_namespace_sync_status-reports id req = report-reports _ _ _ _

  pub put_agent_k8s_status-reports :
      (id : String) (req : AgentK8sStatusRequest) (s : Session env.World)
      → reports (put_agent_k8s_status env hydra id req s).1.log
        ≡ (agent_url hydra id, agent_status req) ∷ reports s.log
  unfolding put_agent_k8s_status
  put_agent_k8s_status-reports id req = report-reports _ _ _ _

  pub put_domain_status-reports :
      (id : String) (req : DomainStatusRequest) (s : Session env.World)
      → reports (put_domain_status env hydra id req s).1.log
        ≡ (domain_url hydra id, domain_status req) ∷ reports s.log
  unfolding put_domain_status
  put_domain_status-reports id req = report-reports _ _ _ _

  pub put_cluster_status-reports :
      (req : ClusterStatusRequest) (s : Session env.World)
      → reports (put_cluster_status env hydra req s).1.log
        ≡ (cluster_url hydra, cluster_status req) ∷ reports s.log
  unfolding put_cluster_status
  put_cluster_status-reports req = report-reports _ _ _ _

  pub post_heartbeat-reports :
      (req : HeartbeatRequest) (s : Session env.World)
      → reports (post_heartbeat env hydra req s).1.log
        ≡ (heartbeat_url hydra, heartbeat req) ∷ reports s.log
  unfolding post_heartbeat
  post_heartbeat-reports req = report-reports _ _ _ _
