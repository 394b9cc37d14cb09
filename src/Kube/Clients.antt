-- ===== src/Kube/Clients.antt =====
-- The typed and dynamic clients, internal/k8sclient/client.go.
use hydra_operator.Kube.Objects.{
  NamespaceObject, ResourceQuota, Secret, Service, DomainMapping, Route, Unstructured,
  GroupVersionResource,
}
use hydra_operator.Kube.Calls.{Kind, Object}
use hydra_operator.Kube.Env.{Env, Client}

module _ (env : Env) where
  abbrev pub namespaces : Client env.World NamespaceObject
  namespaces = record {
    store = env.namespaces;
    kind = Kind.namespaces;
    wrap = Object.namespace_object;
  }

  abbrev pub resource_quotas : Client env.World ResourceQuota
  resource_quotas = record {
    store = env.resource_quotas;
    kind = Kind.resource_quotas;
    wrap = Object.quota_object;
  }

  abbrev pub secrets : Client env.World Secret
  secrets = record { store = env.secrets; kind = Kind.secrets; wrap = Object.secret_object }

  abbrev pub services : Client env.World Service
  services = record { store = env.services; kind = Kind.services; wrap = Object.service_object }

  abbrev pub domain_mappings : Client env.World DomainMapping
  domain_mappings = record {
    store = env.domain_mappings;
    kind = Kind.domain_mappings;
    wrap = Object.mapping_object;
  }

  abbrev pub routes : Client env.World Route
  routes = record { store = env.routes; kind = Kind.routes; wrap = Object.route_object }

  abbrev pub dynamic : GroupVersionResource → Client env.World Unstructured
  dynamic gvr = record {
    store = env.dynamic gvr;
    kind = Kind.dynamic gvr;
    wrap = Object.dynamic_object gvr;
  }
