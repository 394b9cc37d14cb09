-- ===== src/Config/Load.antt =====
-- `Load` of internal/config/config.go. What viper does with its settings is a parameter.
use Prim.Native.Char.{Char}
use hydra_operator.Base.{
  String, Bool, true, Option, none, some, List, [], ◌∷◌, Result, ok, err, is_empty, not,
  if◌then◌else◌,
}
use hydra_operator.Base.Int.{ℤ, pos}
use hydra_operator.Base.Dict.{Dict}
use hydra_operator.Config.Defs.{Config, ConfigError, validate}

-- A default: a text, by which durations are given too, or a number.
pub data Value : Type 0 where
  literal : String → Value
  number : ℤ → Value

-- `SetConfigFile`, or `SetConfigName`, `SetConfigType` and the paths of `AddConfigPath`.
pub data FileChoice : Type 0 where
  config_file : String → FileChoice
  search_paths : String → String → List String → FileChoice

-- What `Load` tells viper before it reads the file.
pub record Setup : Type 0 where
  pub defaults : Dict Value
  pub env_prefix : String
  pub env_key_replacer : String × String
  pub automatic_env : Bool
  pub bound : List (String × String)
  pub file : FileChoice

-- `ConfigFileNotFoundError`, and every other error of `ReadInConfig`.
pub data ReadError : Type 0 where
  file_not_found : String → ReadError
  read_failed : String → ReadError

pub record Viper : Type 1 where
  pub File : Type 0
  pub bind_error : String → String → Option String
  pub read_in_config : Setup → Result ReadError File
  -- with the file that was read, if one was
  pub unmarshal : Setup → Option File → Result String Config

-- The four errors of `Load`; the first with the variable that could not be bound.
pub data LoadError : Type 0 where
  binding : String → String → LoadError
  reading : String → LoadError
  unmarshalling : String → LoadError
  invalid : ConfigError → LoadError

abbrev pub defaults : Dict Value
defaults =
    ("log.level", literal "info")
    ∷ ("log.format", literal "json")
    ∷ ("hydra.url", literal "")
    ∷ ("hydra.cluster_id", literal "")
    ∷ ("hydra.registration_token", literal "")
    ∷ ("hydra.http_timeout", literal "30s")
    ∷ ("reconciler.sync_interval", literal "30s")
    ∷ ("reconciler.heartbeat_interval", literal "30s")
    ∷ ("capabilities.check_interval", literal "5m")
    ∷ ("capabilities.probe_timeout", literal "10s")
    ∷ ("metrics.port", number (pos 8080))
    ∷ ("operator.namespace", literal "")
    ∷ ("operator.token_secret_name", literal "hydra-operator-token")
    ∷ ("operator.kubeconfig", literal "")
    ∷ []

-- The arguments of the calls of `BindEnv`, in their order.
abbrev pub bindings : List (String × String)
bindings =
    ("hydra.url", "HYDRA_URL")
    ∷ ("hydra.cluster_id", "HYDRA_CLUSTER_ID")
    ∷ ("hydra.registration_token", "HYDRA_REGISTRATION_TOKEN")
    ∷ ("hydra.http_timeout", "HYDRA_HTTP_TIMEOUT")
    ∷ []

abbrev pub choose_file : String → FileChoice
choose_file path =
    if not (is_empty path)
    then config_file path
    else search_paths "config" "yaml" ("." ∷ "/etc/hydra-operator" ∷ [])

unfoldable pub setup_for : String → Setup
setup_for path = record {
  defaults = defaults;
  env_prefix = "HYDRA";
  env_key_replacer = (".", "_");
  automatic_env = true;
  bound = bindings;
  file = choose_file path;
}

module _ (wide : Char → Char) (v : Viper) where
  -- The first call of `BindEnv` that fails.
  unfoldable pub bind_all : List (String × String) → Option LoadError
  bind_all [] = none
  bind_all ((key, variable) ∷ rest) = elim (v.bind_error key variable) [
    | none ↦ bind_all rest
    | some e ↦ some (binding variable e)
  ]

  -- `ReadInConfig` and what becomes of its error.
  abbrev pub accept_read : String → Result ReadError v.File → Result LoadError (Option v.File)
  accept_read path (ok file) = ok (some file)
  accept_read path (err (file_not_found e)) = ok none
  accept_read path (err (read_failed e)) = if not (is_empty path) then err (reading e) else ok none

  abbrev pub check_valid : Config → Result LoadError Config
  check_valid cfg = elim (validate wide cfg) [ ok _ ↦ ok cfg | err e ↦ err (invalid e) ]

  -- `Unmarshal` and `Validate`
  unfoldable pub finish_load : Setup → Option v.File → Result LoadError Config
  finish_load setup file = elim (v.unmarshal setup file) [
    | err e ↦ err (unmarshalling e)
    | ok cfg ↦ check_valid cfg
  ]

  unfoldable pub load : String → Result LoadError Config
  load path =
      let setup = setup_for path in
      elim (bind_all setup.bound) [
        | some e ↦ err e
        | none ↦ elim (accept_read path (v.read_in_config setup)) [
          | err e ↦ err e
          | ok file ↦ finish_load setup file
        ]
      ]
