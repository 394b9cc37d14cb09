-- ===== src/Examples/Ran.antt =====
-- The theorems about `main`, and its detector, at concrete inputs.
use hydra_operator.Base.{String, Bool, true, false, ◌≡◌, refl, ok, err, arith, ◌==◌, if◌then◌else◌}
use hydra_operator.Base.Int.{pos}
use hydra_operator.Base.Text.{to_lower}
use hydra_operator.Kube.Env.{Env, pure, ◌>>=◌, or_return, unless, perform, get, create}
use hydra_operator.Kube.Memory.{absent_error}
use hydra_operator.Hydra.Client.{new, set_token, register, send, build_request, read_response}
use hydra_operator.TokenStore.{build_secret, load, save}
use hydra_operator.Capabilities.{Detected, detect, probe, group_version_available, kourier_present}
use hydra_operator.Capabilities.Probes.{Steady, detect-serves}
use hydra_operator.Config.{validate}
use hydra_operator.Config.Load
use hydra_operator.Config.Load.{Viper, bind_all, finish_load, setup_for}
use hydra_operator.K8sClient.{new_for_config, new_in_cluster}
use hydra_operator.Startup.{check_knative_available, first_token, obtain_token, start_up}
use hydra_operator.Startup.Main.{
  Build, Flags, Running, running, choose_clients, manage, main, version_string,
}
use hydra_operator.Startup.Reaches.{Reached, main-Reached}
use hydra_operator.Examples.Data.{env, fresh}
use hydra_operator.Examples.Started.{first_start}
use hydra_operator.Examples.Loaded.{client_go, viper, keep}

-- A cluster that always serves Knative and nothing else.
abbrev only_knative : String → Bool
only_knative group = group == "serving.knative.dev/v1"

abbrev steady_env : Env
steady_env = record env {
  discover = λ group w. (if only_knative group then ok tt else err absent_error, w);
}

steady_env-Steady : Steady steady_env only_knative false
steady_env-Steady = record { groups = λ group w. ground arith; service = λ w. refl }

abbrev found : Detected
found = record {
  capabilities = record {
    openshift_available = false;
    kourier_present = false;
    gateway_api_present = false;
    knative_available = true;
    gatekeeper_available = false;
  };
  k8s_version = "v1.31.0";
  node_count = 1;
}

is_found : (detect steady_env fresh).0 ≡ ok found
unfolding detect probe group_version_available kourier_present perform or_return ◌>>=◌ pure
is_found = refl

detect-serves_example : found.capabilities ≡ record {
  openshift_available = only_knative "route.openshift.io/v1";
  kourier_present = false;
  gateway_api_present = only_knative "gateway.networking.k8s.io/v1";
  knative_available = only_knative "serving.knative.dev/v1";
  gatekeeper_available = only_knative "constraints.gatekeeper.sh/v1beta1";
}
detect-serves_example =
    detect-serves steady_env only_knative false steady_env-Steady fresh found is_found

abbrev first_viper : Viper
first_viper = record viper { unmarshal = λ setup file. ok first_start }

abbrev build : Build
build = record { version = "v1.2.3"; commit = "abc"; build_date = "today" }

abbrev flags : Flags
flags = record { config = ""; version = false }

abbrev up : Running
up = record {
  manager = record {
    hydra = set_token (new "u" "c") "state";
    operator_version = "v1.2.3 (commit=abc, built=today)";
    sync_interval = pos 30;
    heartbeat_interval = pos 30;
  };
  ready = true;
}

is_up :
    (main env keep (λ c. false) first_viper client_go build (ok "hydra\n") flags fresh).0
    ≡ running up
unfolding main Load.load bind_all finish_load setup_for validate to_lower choose_clients
    new_in_cluster new_for_config manage version_string start_up check_knative_available detect
    probe group_version_available kourier_present obtain_token first_token load save register send
    unless perform build_request read_response build_secret or_return ◌>>=◌ get create pure
is_up = refl

main-Reached_example : Reached env keep first_viper client_go flags fresh up
main-Reached_example =
    main-Reached env keep (λ c. false) first_viper client_go build (ok "hydra\n") flags fresh up
      is_up
