-- ===== src/Examples/Loaded.antt =====
-- The theorems about the settings, the clients and the whole of `main`, at concrete inputs.
use Prim.Native.Char.{Char}
use hydra_operator.Base.{
  String, ◌<>◌, true, false, ◌≡◌, ◌↔◌, refl, Option, none, some, [], ◌∷◌, ok, err, arith, ◌==◌,
  if◌then◌else◌,
}
use hydra_operator.Base.Text.{to_lower}
use hydra_operator.Config.{Config, validate}
use hydra_operator.Base.Int.{pos}
use hydra_operator.Config.Validity.{IsUsable}
use hydra_operator.Config.Load
use hydra_operator.Config.Load.{
  Viper, Setup, setup_for, bind_all, finish_load, LoadError, reading, ReadError, read_failed,
}
use hydra_operator.Config.Sources.{
  file_of, setting, Resolves, Derives, load-IsUsable, load-environment,
}
use hydra_operator.Logging.{Zerolog, new_logger}
use hydra_operator.Logging.Levels.{ParsesKnown, new_logger-level}
use hydra_operator.K8sClient.{ClientGo}
use hydra_operator.Reconciler.Manager.{sync_once}
use hydra_operator.Reconciler.RunLoop.{tick_ready, both_ready, returned, run_loop}
use hydra_operator.Reconciler.RunLoop.Rounds.{times, run_loop-times}
use hydra_operator.Examples.Data.{env, cfg, fresh}
use hydra_operator.Examples.Reports.{settings}

-- A process with two variables, and a file that names another URL.
abbrev vars : String → Option String
vars name =
    if name == "HYDRA_URL"
    then some "https://hydra"
    else (if name == "HYDRA_CLUSTER_ID" then some "c1" else none)

-- The name that viper derives, for the keys of the section `hydra`.
abbrev derive : String → String × String → String → String
derive prefix (old, new) key =
    if key == "hydra.url"
    then prefix <> "_HYDRA" <> new <> "URL"
    else if key == "hydra.cluster_id"
    then prefix <> "_HYDRA" <> new <> "CLUSTER_ID"
    else prefix <> "_HYDRA" <> new <> "REGISTRATION_TOKEN"

abbrev written : String → String → Option String
written file key = if key == "hydra.url" then some file else none

abbrev blank : Viper
blank = record {
  File = String;
  bind_error = λ key variable. none;
  read_in_config = λ setup. ok "https://other";
  unmarshal = λ setup file. err "";
}

abbrev pub viper : Viper
viper = record blank {
  unmarshal = λ setup file. ok (record settings {
    hydra = record settings.hydra {
      url = setting blank vars derive written setup file "hydra.url";
      cluster_id = setting blank vars derive written setup file "hydra.cluster_id";
      registration_token = setting blank vars derive written setup file "hydra.registration_token";
    };
  });
}

viper-Resolves : Resolves viper vars derive written
viper-Resolves = record {
  url = λ setup file cfg h. ground arith;
  cluster_id = λ setup file cfg h. ground arith;
  registration_token = λ setup file cfg h. ground arith;
}

derive-Derives : Derives derive
derive-Derives = record { url = refl; cluster_id = refl; registration_token = refl }

abbrev loaded : Config
loaded = record settings {
  hydra = record settings.hydra {
    url = "https://hydra";
    cluster_id = "c1";
    registration_token = "";
  };
}

abbrev pub keep : Char → Char
keep c = c

is_loaded : Load.load keep viper "" ≡ ok loaded
unfolding Load.load bind_all finish_load setup_for validate to_lower
is_loaded = refl

load-IsUsable_example :
    IsUsable keep loaded
    × (viper.unmarshal (setup_for "") (file_of viper (setup_for "")) ≡ ok loaded)
load-IsUsable_example = load-IsUsable keep viper "" loaded is_loaded

load-environment_example :
    (loaded.hydra.url ≡ "https://hydra")
    × (loaded.hydra.cluster_id ≡ "c1")
    × (loaded.hydra.registration_token ≡ "")
load-environment_example =
    load-environment viper vars derive written keep viper-Resolves derive-Derives "" loaded
      is_loaded

abbrev zerolog : Zerolog
zerolog = record { Level = String; parse_level = λ name. some name; info_level = "info" }

zerolog-ParsesKnown : ParsesKnown zerolog
zerolog-ParsesKnown = record { parses = λ name known. (name, refl) }

settings_valid : validate keep settings ≡ ok tt
unfolding validate to_lower
settings_valid = refl

new_logger-level_example :
    (some (to_lower keep "Info") ≡ some (new_logger keep zerolog "Info" "json").level)
    × (((new_logger keep zerolog "Info" "json").console ≡ true)
        ↔ (to_lower keep "json" ≡ "console"))
new_logger-level_example = new_logger-level keep zerolog zerolog-ParsesKnown settings settings_valid

abbrev pub client_go : ClientGo
client_go = record {
  RestConfig = String;
  Core = String;
  Knative = String;
  Route = String;
  Dynamic = String;
  in_cluster_config = ok "https://kubernetes.default.svc";
  build_config_from_flags = λ master path. err "no such file";
  core_for_config = λ host. ok host;
  knative_for_config = λ host. ok host;
  route_for_config = λ host. ok host;
  dynamic_for_config = λ host. ok host;
}

run_loop-times_example :
    run_loop
      (pos 30)
      (sync_once env cfg)
      (tick_ready ∷ both_ready true ∷ both_ready false ∷ tick_ready ∷ [])
      fresh
    ≡ (returned, times (sync_once env cfg) 3 fresh)
run_loop-times_example =
    run_loop-times (sync_once env cfg) (both_ready false) refl (tick_ready ∷ []) (pos 30)
      (tick_ready ∷ both_ready true ∷ []) fresh refl (refl, (refl, tt))
