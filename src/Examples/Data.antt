-- ===== src/Examples/Data.antt =====
-- The desired state of the unit test `TestManager_SyncOnce_ReconcilesAndReportsStatus`, with a
-- domain and a quota, and the manager that pulls it.
use hydra_operator.Base.{true, [], ◌∷◌}
use hydra_operator.Base.Int.{pos}
use hydra_operator.Wire
use hydra_operator.Wire.{DesiredState, Quotas, CustomDomain}
use hydra_operator.Kube.Env.{Env, Session}
use hydra_operator.Kube.Fake.{World, empty_world, fake_env, start}
use hydra_operator.Hydra.Client.{Client}
use hydra_operator.Reconciler.Manager.{ManagerConfig}

abbrev pub no_quotas : Quotas
no_quotas = record {
  limits_cpu = "";
  limits_memory = "";
  requests_cpu = "";
  requests_memory = "";
  count_pods = pos 0;
}

abbrev pub prod : Wire.Namespace
prod = record {
  id = "ns-1";
  k8s_name = "prod";
  mode = "managed";
  quotas = record no_quotas { limits_cpu = "4"; count_pods = pos 20 };
}

abbrev pub imported : Wire.Namespace
imported = record { id = "ns-2"; k8s_name = "absent"; mode = "imported"; quotas = no_quotas }

abbrev pub agent : Wire.Container
agent = record {
  id = "AGENT-1";
  namespace_k8s_name = "prod";
  definition = record {
    image = "img:v1";
    cpu_limit = "500m";
    memory_limit = "512Mi";
    env = record { name = "KEY"; value = ""; secret_ref = "vault"; secret_key = "" } ∷ [];
    ports = record { name = "http1"; container_port = pos 8080; protocol = "" } ∷ [];
    health_check_path = "/healthz";
  };
  scaling = record { min_scale = pos 1; max_scale = pos 3; concurrency_target = pos 0 };
  traffic = [];
  restart_generation = pos 2;
  runtime_class_name = "kata-containers";
  custom_domains =
      record { id = "domain-1"; hostname = "app.example.com" }
      ∷ record { id = ""; hostname = "old.example.com" }
      ∷ [];
  needs_openshift_route = true;
}

abbrev pub state : DesiredState
state = record {
  revision = "sha256:abc";
  namespaces = prod ∷ imported ∷ [];
  containers = agent ∷ [];
  security_policy = record {
    allowed_registries = "registry.example.com/" ∷ [];
    allowed_signers = [];
  };
}

abbrev pub env : Env
env = fake_env state

abbrev pub hydra : Client
hydra = record { base_url = "https://hydra"; cluster_id = "c1"; token = "jwt" }

abbrev pub cfg : ManagerConfig
cfg = record {
  hydra = hydra;
  operator_version = "test";
  sync_interval = pos 30000000000;
  heartbeat_interval = pos 30000000000;
}

abbrev pub fresh : Session World
fresh = start empty_world

abbrev pub with_gatekeeper : Session World
with_gatekeeper = start (record empty_world {
  groups = "serving.knative.dev/v1" ∷ "constraints.gatekeeper.sh/v1beta1" ∷ [];
})
