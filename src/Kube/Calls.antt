-- ===== src/Kube/Calls.antt =====
-- The calls that the operator makes, each with what it sends.
use hydra_operator.Base.{ℕ, String, Bool, Option}
use hydra_operator.Wire.{
  HeartbeatRequest, ClusterStatusRequest, NamespaceSyncStatusRequest, AgentK8sStatusRequest,
  DomainStatusRequest,
}
use hydra_operator.Kube.Objects.{
  NamespaceObject, ResourceQuota, Secret, Service, DomainMapping, Route, Unstructured,
  GroupVersionResource,
}

-- The value that `json.Marshal` encodes as a request's body.
pub data Body : Type 0 where
  registration : String → Body
  heartbeat : HeartbeatRequest → Body
  cluster_status : ClusterStatusRequest → Body
  namespace_status : NamespaceSyncStatusRequest → Body
  agent_status : AgentK8sStatusRequest → Body
  domain_status : DomainStatusRequest → Body

pub record HttpRequest : Type 0 where
  pub method : String
  pub url : String
  pub content_type : Option String
  pub authorization : Option String
  pub body : Option Body

pub record HttpResponse : Type 0 where
  pub status_code : ℕ
  pub text : String

-- What the operator reads of an error of the API machinery: `IsNotFound`, `IsAlreadyExists` and
-- `Error()`.
pub record ApiError : Type 0 where
  pub not_found : Bool
  pub already_exists : Bool
  pub message : String

pub data Kind : Type 0 where
  namespaces resource_quotas secrets core_services services domain_mappings routes : Kind
  dynamic : GroupVersionResource → Kind

pub data Object : Type 0 where
  namespace_object : NamespaceObject → Object
  quota_object : ResourceQuota → Object
  secret_object : Secret → Object
  service_object : Service → Object
  mapping_object : DomainMapping → Object
  route_object : Route → Object
  dynamic_object : GroupVersionResource → Unstructured → Object

-- Namespace and name address an object; both are "" where the API has none.
pub data Call : Type 0 where
  get_call : Kind → String → String → Call
  create_call : String → Object → Call
  update_call : String → Object → Call
  delete_call : Kind → String → String → Call
  discover_call : String → Call
  version_call : Call
  nodes_call : Call
  http_call : HttpRequest → Call
