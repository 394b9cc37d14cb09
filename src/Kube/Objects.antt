-- ===== src/Kube/Objects.antt =====
-- The Kubernetes objects, with the fields that the operator reads or writes. An object's status is
-- what the operator observes of it; a quantity is the text by which the API transmits it.
use hydra_operator.Base.{String, Bool, Option, List}
use hydra_operator.Base.Int.{ℤ}
use hydra_operator.Base.Dict.{Dict}

abbrev pub Quantity : Type 0
Quantity = String

-- `corev1.ResourceList`
abbrev pub ResourceList : Type 0
ResourceList = Dict Quantity

pub record ObjectMeta : Type 0 where
  pub name : String
  pub namespace : String
  pub labels : Dict String
  pub annotations : Dict String
  pub resource_version : String

pub record NamespaceObject : Type 0 where
  pub meta : ObjectMeta

pub record ResourceQuota : Type 0 where
  pub meta : ObjectMeta
  pub hard : ResourceList

pub record Secret : Type 0 where
  pub meta : ObjectMeta
  pub kind : String
  pub entries : Dict String

-- `corev1.EnvVar`: its literal value, or the name and key of a `SecretKeyRef`.
pub record PodEnvVar : Type 0 where
  pub name : String
  pub value : String
  pub value_from : Option (String × String)

pub record ContainerPort : Type 0 where
  pub name : String
  pub container_port : ℤ
  pub protocol : String

-- `corev1.Container`; the probe is the path of its `HTTPGet`.
pub record PodContainer : Type 0 where
  pub image : String
  pub env : List PodEnvVar
  pub ports : List ContainerPort
  pub limits : ResourceList
  pub requests : ResourceList
  pub readiness_probe : Option String

pub record TrafficTarget : Type 0 where
  pub revision_name : String
  pub latest_revision : Option Bool
  pub percent : Option ℤ

-- The revision template of a Knative Service.
pub record RevisionTemplate : Type 0 where
  pub annotations : Dict String
  pub containers : List PodContainer
  pub runtime_class_name : Option String
  pub container_concurrency : Option ℤ

pub record ServiceSpec : Type 0 where
  pub template : RevisionTemplate
  pub traffic : List TrafficTarget

-- `url` is `Status.URL.String()`, `ready` the status of `GetCondition(ServiceConditionReady)`, and
-- `traffic` the revision names of `Status.Traffic`.
pub record ServiceStatus : Type 0 where
  pub url : Option String
  pub latest_ready_revision_name : String
  pub ready : Option String
  pub traffic : List String

pub record Service : Type 0 where
  pub meta : ObjectMeta
  pub spec : ServiceSpec
  pub status : ServiceStatus

pub record Reference : Type 0 where
  pub api_version : String
  pub kind : String
  pub name : String

-- The status is that of `GetCondition(DomainMappingConditionReady)`.
pub record DomainMapping : Type 0 where
  pub meta : ObjectMeta
  pub ref : Reference
  pub ready : Option String

-- `ingress_hosts` are the hosts of `Status.Ingress`.
pub record Route : Type 0 where
  pub meta : ObjectMeta
  pub to : String × String
  pub termination : String
  pub insecure_policy : String
  pub ingress_hosts : List String

pub record GroupVersionResource : Type 0 where
  pub group : String
  pub version : String
  pub resource : String

-- The value of an untyped object: `map[string]interface{}`, `[]interface{}` and texts.
mutual
  pub data Json : Type 0 where
    text : String → Json
    array : Items → Json
    object : Fields → Json

  pub data Items : Type 0 where
    nil : Items
    item : Json → Items → Items

  pub data Fields : Type 0 where
    end : Fields
    field : String → Json → Fields → Fields

-- `metadata.name` stands in the content; `metadata.resourceVersion`, which `SetResourceVersion`
-- writes, is kept beside it.
pub record Unstructured : Type 0 where
  pub resource_version : String
  pub content : Json
