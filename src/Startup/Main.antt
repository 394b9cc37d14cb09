-- ===== src/Startup/Main.antt =====
-- `main` of cmd/operator/main.go as a whole, from the flags to the manager, and
-- internal/version/version.go.
use Prim.Native.Char.{Char}
use hydra_operator.Base.{String, ◌<>◌, Bool, Result, ok, err, is_empty, not, if◌then◌else◌}
use hydra_operator.Kube.Env.{Env, Action, pure, ◌>>=◌, or_return}
use hydra_operator.Config
use hydra_operator.Config.Load
use hydra_operator.K8sClient.{ClientGo, Clients, new_in_cluster, new_from_kubeconfig}
use hydra_operator.Reconciler.Manager.{ManagerConfig}
use hydra_operator.Startup.Defs.{Process, start_up}

-- What the linker sets.
pub record Build : Type 0 where
  pub version : String
  pub commit : String
  pub build_date : String

-- `version.String`
unfoldable pub version_string : Build → String
version_string b = b.version <> " (commit=" <> b.commit <> ", built=" <> b.build_date <> ")"

-- The two flags.
pub record Flags : Type 0 where
  pub config : String
  pub version : Bool

-- What `NewManager` is given of the settings, with the flag that `/readyz` reads.
pub record Running : Type 0 where
  pub manager : ManagerConfig
  pub ready : Bool

-- How far `main` comes: the version printed (exit code 0), a configuration error (1), the message of a
-- `log.Fatal` (1), or a manager that runs.
pub data Outcome : Type 0 where
  printed : String → Outcome
  config_error : Load.LoadError → Outcome
  fatal : String → Outcome
  running : Running → Outcome

unfoldable pub choose_clients : (g : ClientGo) → Config.Config → Result String (Clients g)
choose_clients g cfg =
    if not (is_empty cfg.operator.kubeconfig)
    then new_from_kubeconfig g cfg.operator.kubeconfig
    else new_in_cluster g

module _ (env : Env) where
  -- After `start_up`.
  unfoldable pub manage : Build → Config.Config → Process → Outcome
  manage build cfg process = elim process.started [
    | err e ↦ fatal e
    | ok hydra ↦ running (record {
      manager = record {
        hydra = hydra;
        operator_version = version_string build;
        sync_interval = cfg.reconciler.sync_interval;
        heartbeat_interval = cfg.reconciler.heartbeat_interval;
      };
      ready = process.ready;
    })
  ]

  -- `wide_lower` and `wide_space` are Unicode's tables outside ASCII, and `namespace_file` is what the
  -- read of the service account's namespace file gives. `env` is what the clients talk to.
  unfoldable pub main :
      (Char → Char)
      → (Char → Bool)
      → Load.Viper
      → ClientGo
      → Build
      → Result String String
      → Flags
      → Action env.World Outcome
  main wide_lower wide_space viper g build namespace_file flags =
      if flags.version
      then pure (printed (version_string build))
      else or_return (pure (Load.load wide_lower viper flags.config)) (λ e. pure (config_error e))
          (λ cfg.
            or_return (pure (choose_clients g cfg))
              (λ e. pure (fatal ("failed to build Kubernetes clients: " <> e)))
              (λ _. do
                process ← start_up env wide_space cfg namespace_file
                pure (manage build cfg process)))
