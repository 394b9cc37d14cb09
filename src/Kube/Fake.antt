-- ===== src/Kube/Fake.antt =====
-- A whole environment in memory: a cluster of tables, and a Hydra that gives one desired state and
-- accepts every report.
use hydra_operator.Base.{
  String, Bool, true, false, Option, none, some, List, [], ◌∷◌, Result, ok, err, ◌==◌, is_empty,
  if◌then◌else◌,
}
use hydra_operator.Base.Decimal.{itoa}
use hydra_operator.Wire.{DesiredState}
use hydra_operator.Kube.Objects.{
  NamespaceObject, ResourceQuota, Secret, Service, DomainMapping, Route, Unstructured,
}
use hydra_operator.Kube.Calls.{ApiError, HttpResponse}
use hydra_operator.Kube.Env.{Resource, Env, Session}
use hydra_operator.Kube.Names.{object_name}
use hydra_operator.Kube.Memory.{Table, table_resource, absent_error}

pub record World : Type 0 where
  pub namespaces : Table NamespaceObject
  pub resource_quotas : Table ResourceQuota
  pub secrets : Table Secret
  pub services : Table Service
  pub domain_mappings : Table DomainMapping
  pub routes : Table Route
  pub objects : Table Unstructured
  -- the API groups that the cluster serves, and what Hydra answers to every request
  pub groups : List String
  pub answer : Option HttpResponse

abbrev pub member : String → List String → Bool
member s [] = false
member s (x ∷ xs) = if x == s then true else member s xs

abbrev pub empty_world : World
empty_world = record {
  namespaces = [];
  resource_quotas = [];
  secrets = [];
  services = [];
  domain_mappings = [];
  routes = [];
  objects = [];
  groups = "serving.knative.dev/v1" ∷ [];
  answer = some (record { status_code = 200; text = "state" });
}

abbrev pub objects_of : Resource World Unstructured
objects_of = table_resource (λ w. w.objects) (λ t w. record w { objects = t }) object_name

abbrev answered : Bool → Result ApiError (Unit {0})
answered true = ok tt
answered false = err absent_error

abbrev respond : Option HttpResponse → Result String HttpResponse
respond none = err "connection refused"
respond (some r) = ok r

-- Every text but the empty one is a quantity; the desired state is fixed.
abbrev pub fake_env : DesiredState → Env
fake_env state = record {
  World = World;
  namespaces =
      table_resource (λ w. w.namespaces) (λ t w. record w { namespaces = t }) (λ o. o.meta.name);
  resource_quotas =
      table_resource (λ w. w.resource_quotas) (λ t w. record w { resource_quotas = t })
        (λ o. o.meta.name);
  secrets = table_resource (λ w. w.secrets) (λ t w. record w { secrets = t }) (λ o. o.meta.name);
  services = table_resource (λ w. w.services) (λ t w. record w { services = t }) (λ o. o.meta.name);
  domain_mappings =
      table_resource (λ w. w.domain_mappings) (λ t w. record w { domain_mappings = t })
        (λ o. o.meta.name);
  routes = table_resource (λ w. w.routes) (λ t w. record w { routes = t }) (λ o. o.meta.name);
  dynamic = λ gvr. record {
    get = λ ns name w. objects_of.get gvr.resource name w;
    create = λ ns u w. objects_of.create gvr.resource u w;
    update = λ ns u w. objects_of.update gvr.resource u w;
    delete = λ ns name w. objects_of.delete gvr.resource name w;
  };
  core_service = λ ns name w. (err absent_error, w);
  discover = λ group w. (answered (member group w.groups), w);
  server_version = λ w. (ok "v1.31.0", w);
  list_nodes = λ w. (ok ("node-1" ∷ []), w);
  round_trip = λ req w. (respond w.answer, w);
  request_error = λ method url. none;
  marshal_error = λ body. none;
  unmarshal_string = λ bytes. ok bytes;
  unmarshal_domain = λ bytes. err "no object";
  decode_state = λ domain bytes. ok state;
  decode_token = λ bytes. ok bytes;
  parse_quantity = λ value. if is_empty value then none else some value;
  new_quantity = itoa;
  lower_wide = λ c. c;
}

abbrev pub start : World → Session World
start w = record { world = w; log = [] }
