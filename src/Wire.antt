-- ===== src/Wire.antt =====
-- The JSON types of Hydra's operator API, internal/hydraclient/client.go: what the operator pulls
-- and what it reports. A field that the wire leaves out holds Go's zero value.
use Prim.Native.Nat.{ℕ}
use hydra_operator.Base.{String, Bool, List}
use hydra_operator.Base.Int.{ℤ}

pub record Quotas : Type 0 where
  pub limits_cpu : String
  pub limits_memory : String
  pub requests_cpu : String
  pub requests_memory : String
  pub count_pods : ℤ

pub record Namespace : Type 0 where
  pub id : String
  pub k8s_name : String
  pub mode : String
  pub quotas : Quotas

pub record EnvVar : Type 0 where
  pub name : String
  pub value : String
  pub secret_ref : String
  pub secret_key : String

pub record PortSpec : Type 0 where
  pub name : String
  pub container_port : ℤ
  pub protocol : String

pub record Definition : Type 0 where
  pub image : String
  pub cpu_limit : String
  pub memory_limit : String
  pub env : List EnvVar
  pub ports : List PortSpec
  pub health_check_path : String

pub record Scaling : Type 0 where
  pub min_scale : ℤ
  pub max_scale : ℤ
  pub concurrency_target : ℤ

pub record Traffic : Type 0 where
  pub revision_name : String
  pub percent : ℤ

pub record CustomDomain : Type 0 where
  pub id : String
  pub hostname : String

pub record Container : Type 0 where
  pub id : String
  pub namespace_k8s_name : String
  pub definition : Definition
  pub scaling : Scaling
  pub traffic : List Traffic
  pub restart_generation : ℤ
  pub runtime_class_name : String
  pub custom_domains : List CustomDomain
  pub needs_openshift_route : Bool

pub record SecurityPolicy : Type 0 where
  pub allowed_registries : List String
  pub allowed_signers : List String

pub record DesiredState : Type 0 where
  pub revision : String
  pub namespaces : List Namespace
  pub containers : List Container
  pub security_policy : SecurityPolicy

-- The zero value, into which `GetDesiredState` decodes.
abbrev pub no_state : DesiredState
no_state = record {
  revision = "";
  namespaces = List.[];
  containers = List.[];
  security_policy = record { allowed_registries = List.[]; allowed_signers = List.[] };
}

-- The reports. A JSON text that is passed on unread is a `String`.
pub record HeartbeatRequest : Type 0 where
  pub operator_version : String
  pub k8s_version : String
  pub node_count : ℕ
  pub capabilities : String

pub record ClusterStatusRequest : Type 0 where
  pub status : String
  pub namespaces_synced : ℕ
  pub containers_ready : ℕ

pub record NamespaceSyncStatusRequest : Type 0 where
  pub sync_status : String
  pub sync_error : String

-- `CreatedAt` is never set by the operator.
pub record RevisionEntry : Type 0 where
  pub name : String

-- `K8sConditions` is never set by the operator.
pub record AgentK8sStatusRequest : Type 0 where
  pub status : String
  pub ready_replicas : ℕ
  pub endpoint_url : String
  pub active_revision : String
  pub revisions : List RevisionEntry

pub record DomainStatusRequest : Type 0 where
  pub status : String
  pub error_message : String
