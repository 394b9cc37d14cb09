-- ===== src/Startup/Defs.antt =====
-- cmd/operator/main.go, without flags, signals and the server of the health handler.
use Prim.Native.Char.{Char, code}
use hydra_operator.Base.{
  ℕ, String, ◌<>◌, Bool, true, false, not, ◌&&◌, ◌||◌, Result, ok, err, is_empty, if◌then◌else◌,
  ◌==◌, ltb, eqb,
}
use hydra_operator.Kube.Env.{Env, Action, pure, ◌>>=◌, or_return}
use hydra_operator.Capabilities.{detect}
use hydra_operator.TokenStore.{Store, load, save}
use hydra_operator.Hydra.Client
use hydra_operator.Config

-- What `main` has reached: the flag that `/readyz` reads, and the client of Hydra with which the
-- manager runs, or the message with which the process ended.
pub record Process : Type 0 where
  pub ready : Bool
  pub started : Result String Client.Client

module _ (wide_space : Char → Bool) where
  -- `unicode.IsSpace`: the ASCII spaces, and `wide_space` for the other characters.
  abbrev is_space : Char → Bool
  is_space c =
      if ltb (code c) 128
      then eqb (code c) 32 || (ltb 8 (code c) && ltb (code c) 14)
      else wide_space c

  unfoldable pub trim_left : String → String
  trim_left String.[] = String.[]
  trim_left (String.◌∷◌ c s) = let rest = trim_left s in if is_space c then rest else String.◌∷◌ c s

  unfoldable pub trim_right : String → String
  trim_right String.[] = String.[]
  trim_right (String.◌∷◌ c s) =
      let rest = trim_right s in if is_empty rest && is_space c then "" else String.◌∷◌ c rest

  -- `file` is what the read of the service account's namespace file gave.
  unfoldable pub detect_in_cluster_namespace : Result String String → String
  detect_in_cluster_namespace (err _) = "default"
  detect_in_cluster_namespace (ok text) = trim_right (trim_left text)

  abbrev pub operator_namespace : String → Result String String → String
  operator_namespace configured file =
      if is_empty configured then detect_in_cluster_namespace file else configured

-- `newHealthMux`: the status of the answer to a path.
abbrev pub health_status : Bool → String → ℕ
health_status ready path =
    if path == "/healthz"
    then 200
    else (if path == "/readyz" then (if not ready then 503 else 200) else 404)

abbrev pub knative_not_available : String
knative_not_available =
    "knative serving not detected on this cluster (serving.knative.dev API group missing) — install Knative Serving before deploying hydra-operator, see docs/operator/architecture.md"

module _ (env : Env) where
  unfoldable pub check_knative_available : Action env.World (Result String (Unit {0}))
  check_knative_available =
      or_return (detect env) (λ e. pure (err ("detect cluster capabilities: " <> e)))
        (λ result.
          if not result.capabilities.knative_available
          then pure (err knative_not_available)
          else pure (ok tt))

  -- The registration of an operator without a token.
  unfoldable pub first_token :
      Store → Client.Client → String → Action env.World (Result String Client.Client)
  first_token store hydra registration_token = do
    answer ← Client.register env hydra registration_token
    or_return (pure answer.0) (λ e. pure (err ("registration failed: " <> e)))
        (λ token.
          or_return (save env store token)
            (λ e. pure (err ("failed to persist cluster token after registration: " <> e)))
            (λ _. pure (ok answer.1)))

  -- The client with the token of the Secret, or of a registration when there is none.
  unfoldable pub obtain_token :
      Store → Client.Client → String → Action env.World (Result String Client.Client)
  obtain_token store hydra registration_token =
      or_return (load env store) (λ e. pure (err ("failed to load persisted cluster token: " <> e)))
        (λ token.
          if is_empty token
          then (if is_empty registration_token
              then pure (
                  err
                    "no persisted cluster token and hydra.registration_token is not set — cannot register")
              else first_token store hydra registration_token)
          else pure (ok (Client.set_token hydra token)))

  -- `main` after `config.Load`, up to `NewManager`.
  unfoldable pub start_up :
      (Char → Bool) → Config.Config → Result String String → Action env.World Process
  start_up wide_space cfg file =
      or_return check_knative_available
        (λ e.
          pure (record { ready = false; started = err ("startup preflight check failed: " <> e) }))
        (λ _. do
          started ←
              obtain_token
                (record {
                  namespace = operator_namespace wide_space cfg.operator.namespace file;
                  secret_name = cfg.operator.token_secret_name;
                })
                (Client.new cfg.hydra.url cfg.hydra.cluster_id) cfg.hydra.registration_token
          pure (record { ready = true; started = started }))
