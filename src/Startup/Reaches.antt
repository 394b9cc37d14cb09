-- ===== src/Startup/Reaches.antt =====
-- What is known when `main` has reached the manager.
use Prim.Native.Char.{Char}
use hydra_operator.Base.{
  String, ◌≡◌, Bool, true, Result, ok, arith, Result-cases, Bool-cases, inl, inr,
}
use hydra_operator.Kube.Env.{Env, Session, pure, ◌>>=◌, or_return}
use hydra_operator.Capabilities.{Detected, detect}
use hydra_operator.Config.{Config}
use hydra_operator.Config.Load.{Viper, load}
use hydra_operator.Config.Validity.{IsUsable}
use hydra_operator.Config.Sources.{load-IsUsable}
use hydra_operator.K8sClient.{ClientGo, Clients}
use hydra_operator.Startup.Defs.{start_up, health_status}
use hydra_operator.Startup.Laws.{start_up-knative}
use hydra_operator.Startup.Main.{Build, Flags, Running, running, choose_clients, manage, main}

-- The facts with which the manager starts: a configuration that was loaded and is usable, clients of
-- the API server, and Knative Serving on the cluster.
pub record Reached (env : Env) (wide_lower : Char → Char) (viper : Viper) (g : ClientGo)
    (flags : Flags) (s : Session env.World) (r : Running) : Type 0 where
  pub cfg : Config
  pub clients : Clients g
  pub found : Detected
  pub loaded : load wide_lower viper flags.config ≡ ok cfg
  pub usable : IsUsable wide_lower cfg
  pub connected : choose_clients g cfg ≡ ok clients
  pub detected : (detect env s).0 ≡ ok found
  pub has_knative : found.capabilities.knative_available ≡ true
  pub interval : r.manager.sync_interval ≡ cfg.reconciler.sync_interval
  pub is_ready : health_status r.ready "/readyz" ≡ 200

module _ (env : Env) (wide_lower : Char → Char) (wide_space : Char → Bool) (viper : Viper)
    (g : ClientGo) (build : Build) (file : Result String String) (flags : Flags) where
  started :
      (cfg : Config) (clients : Clients g) (s : Session env.World) (r : Running)
      → load wide_lower viper flags.config ≡ ok cfg
      → choose_clients g cfg ≡ ok clients
      → manage env build cfg (start_up env wide_space cfg file s).0 ≡ running r
      → Reached env wide_lower viper g flags s r
  unfolding manage
  started cfg clients s r loaded connected h =
      elim (Result-cases (start_up env wide_space cfg file s).0.started) [
        | inl (hydra, up) ↦
            let ((found, detected, has_knative), ready) =
              start_up-knative env wide_space cfg file s hydra up in
            record {
              cfg = cfg;
              clients = clients;
              found = found;
              loaded = loaded;
              usable = (load-IsUsable wide_lower viper flags.config cfg loaded).0;
              connected = connected;
              detected = detected;
              has_knative = has_knative;
              interval = ground arith;
              is_ready = ground arith;
            }
        | inr (e, failed) ↦ absurd (ground arith)
      ]

  -- If `main` reaches the manager, the configuration was loaded and is usable, the clients were built,
  -- Knative Serving was detected, the sync interval is the configured one, and `/readyz` answers 200.
  pub main-Reached :
      (s : Session env.World) (r : Running)
      → (main env wide_lower wide_space viper g build file flags s).0 ≡ running r
      → Reached env wide_lower viper g flags s r
  unfolding main or_return ◌>>=◌ pure
  main-Reached s r h = elim (Bool-cases flags.version) [
    | inl asked ↦ absurd (ground arith)
    | inr not_asked ↦ elim (Result-cases (load wide_lower viper flags.config)) [
      | inl (cfg, loaded) ↦ elim (Result-cases (choose_clients g cfg)) [
        | inl (clients, connected) ↦ started cfg clients s r loaded connected (ground arith)
        | inr (e, failed) ↦ absurd (ground arith)
      ]
      | inr (e, failed) ↦ absurd (ground arith)
    ]
  ]
