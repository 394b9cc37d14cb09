-- ===== src/Reconciler/Convergence/Defs.antt =====
-- Containers with objects of their own, and a world in which the objects are independent.
use hydra_operator.Base.{String, ◌≢◌, ◌⊎◌, List, [], ◌∷◌, All}
use hydra_operator.Wire
use hydra_operator.Wire.{CustomDomain}
use hydra_operator.Kube.Objects.{GroupVersionResource}
use hydra_operator.Kube.Calls.{HttpRequest}
use hydra_operator.Kube.Env.{Env}
use hydra_operator.Kube.Leaves.{Still, StillResource, StillOn}
use hydra_operator.Reconciler.Naming.{ksvc_name_for}
use hydra_operator.Reconciler.Namespace.{resource_quota_name}
use hydra_operator.Reconciler.Namespace.Settles.{quota_name}
use hydra_operator.Reconciler.Container.Settles.{service_name}
use hydra_operator.Reconciler.Route.Settles.{route_name}
use hydra_operator.Reconciler.Domain.Settles.{mapping_name}
use Prim.Native.Char.{Char}

-- The objects, by namespace and name, that may be changed.
pub record Free : Type 1 where
  pub quota : String → String → Type 0
  pub service : String → String → Type 0
  pub route : String → String → Type 0
  pub mapping : String → String → Type 0

abbrev pub Anything : String → String → Type 0
Anything m k = Unit

-- The objects of another namespace or name.
abbrev pub Elsewhere : String → String → String → String → Type 0
Elsewhere ns name m k = (m ≢ ns) ⊎ (k ≢ name)

-- All objects but one Service, but one Route, but one ResourceQuota, but one DomainMapping.
abbrev pub everything : Free
everything = record { quota = Anything; service = Anything; route = Anything; mapping = Anything }

abbrev pub but_service : String → String → Free
but_service ns name = record everything { service = Elsewhere ns name }

abbrev pub but_route : String → String → Free
but_route ns name = record everything { route = Elsewhere ns name }

abbrev pub but_quota : String → String → Free
but_quota ns name = record everything { quota = Elsewhere ns name }

abbrev pub but_mapping : String → String → Free
but_mapping ns hostname = record everything { mapping = Elsewhere ns hostname }

-- Only the calls that change an object that is not free change the part.
pub record Undisturbed (env : Env) {V : Type 0} (part : env.World → V) (free : Free) : Type 0 where
  pub namespaces : StillResource part env.namespaces
  pub resource_quotas : StillOn part free.quota quota_name env.resource_quotas
  pub services : StillOn part free.service service_name env.services
  pub routes : StillOn part free.route route_name env.routes
  pub domain_mappings : StillOn part free.mapping mapping_name env.domain_mappings
  pub dynamic : (gvr : GroupVersionResource) → StillResource part (env.dynamic gvr)
  pub core_service : (n m : String) → Still part (env.core_service n m)
  pub discover : (group : String) → Still part (env.discover group)
  pub server_version : Still part env.server_version
  pub list_nodes : Still part env.list_nodes
  pub round_trip : (req : HttpRequest) → Still part (env.round_trip req)

module _ (wide : Char → Char) where
  -- Two containers whose services differ in the namespace or in the name.
  abbrev pub Apart : Wire.Container → Wire.Container → Type 0
  Apart c d =
      (d.namespace_k8s_name ≢ c.namespace_k8s_name)
      ⊎ (ksvc_name_for wide d.id ≢ ksvc_name_for wide c.id)

  abbrev pub AllApart : List Wire.Container → Type 0
  AllApart [] = Unit
  AllApart (c ∷ containers) = All (Apart c) containers × AllApart containers

-- No two namespaces of one name.
abbrev pub AllNamed : List Wire.Namespace → Type 0
AllNamed [] = Unit
AllNamed (n ∷ namespaces) = All (λ m. m.k8s_name ≢ n.k8s_name) namespaces × AllNamed namespaces

-- The hostnames of one container differ, and those of two containers differ or are in different
-- namespaces.
abbrev pub AllHosted : List CustomDomain → Type 0
AllHosted [] = Unit
AllHosted (d ∷ domains) = All (λ e. e.hostname ≢ d.hostname) domains × AllHosted domains

abbrev pub HostedApart : Wire.Container → Wire.Container → Type 0
HostedApart c d =
    All
      (λ x.
        All (λ y. Elsewhere c.namespace_k8s_name x.hostname d.namespace_k8s_name y.hostname)
          d.custom_domains)
      c.custom_domains

abbrev pub AllHostedApart : List Wire.Container → Type 0
AllHostedApart [] = Unit
AllHostedApart (c ∷ containers) =
    AllHosted c.custom_domains × All (HostedApart c) containers × AllHostedApart containers

-- What the reconciliation of a container or a namespace may change is free.
abbrev pub FreeDomains : Free → Wire.Container → Type 0
FreeDomains free c = All (λ d. free.mapping c.namespace_k8s_name d.hostname) c.custom_domains

abbrev pub FreeContainer : (Char → Char) → Free → Wire.Container → Type 0
FreeContainer wide free c =
    free.service c.namespace_k8s_name (ksvc_name_for wide c.id)
    × free.route c.namespace_k8s_name (ksvc_name_for wide c.id)
    × FreeDomains free c

abbrev pub FreeNamespace : Free → Wire.Namespace → Type 0
FreeNamespace free n = free.quota n.k8s_name resource_quota_name

pub all_free : (domains : List CustomDomain) → All (λ d. Unit) domains
all_free [] = tt
all_free (d ∷ domains) = (tt, all_free domains)
