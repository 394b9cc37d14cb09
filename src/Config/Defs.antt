-- ===== src/Config/Defs.antt =====
-- internal/config/config.go: the settings and their validation. Durations are in nanoseconds.
use Prim.Native.Char.{Char}
use hydra_operator.Base.{
  String, Bool, true, false, not, ◌||◌, List, [], ◌∷◌, Result, ok, err, is_empty, ltb, ◌==◌,
  if◌then◌else◌,
}
use hydra_operator.Base.Int.{ℤ, pos, negsuc}
use hydra_operator.Base.Text.{to_lower}

pub record Operator : Type 0 where
  pub namespace : String
  pub token_secret_name : String
  pub kubeconfig : String

pub record Log : Type 0 where
  pub level : String
  pub format : String

pub record Hydra : Type 0 where
  pub url : String
  pub cluster_id : String
  pub registration_token : String
  pub http_timeout : ℤ

pub record Reconciler : Type 0 where
  pub sync_interval : ℤ
  pub heartbeat_interval : ℤ

pub record Capabilities : Type 0 where
  pub check_interval : ℤ
  pub probe_timeout : ℤ

pub record Metrics : Type 0 where
  pub port : ℤ

pub record Config : Type 0 where
  pub log : Log
  pub hydra : Hydra
  pub reconciler : Reconciler
  pub capabilities : Capabilities
  pub metrics : Metrics
  pub operator : Operator

-- The five errors of `Validate`, with the value that each message quotes.
pub data ConfigError : Type 0 where
  url_missing : ConfigError
  cluster_id_missing : ConfigError
  unknown_level : String → ConfigError
  unknown_format : String → ConfigError
  port_out_of_range : ℤ → ConfigError

-- `m[key]` on a `map[string]bool` whose values are all true.
abbrev pub contains : List String → String → Bool
contains [] key = false
contains (k ∷ keys) key = k == key || contains keys key

abbrev pub known_levels : List String
known_levels = "trace" ∷ "debug" ∷ "info" ∷ "warn" ∷ "error" ∷ "fatal" ∷ []

abbrev pub known_formats : List String
known_formats = "json" ∷ "console" ∷ []

-- `port < 1 || port > 65535`
abbrev pub is_out_of_range : ℤ → Bool
is_out_of_range (pos n) = ltb n 1 || ltb 65535 n
is_out_of_range (negsuc n) = true

-- `Validate`
unfoldable pub validate : (Char → Char) → Config → Result ConfigError (Unit {0})
validate wide c =
    if is_empty c.hydra.url
    then err url_missing
    else if is_empty c.hydra.cluster_id
    then err cluster_id_missing
    else if not (contains known_levels (to_lower wide c.log.level))
    then err (unknown_level c.log.level)
    else if not (contains known_formats (to_lower wide c.log.format))
    then err (unknown_format c.log.format)
    else if is_out_of_range c.metrics.port
    then err (port_out_of_range c.metrics.port)
    else ok tt
