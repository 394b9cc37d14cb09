-- ===== src/Config/Validity.antt =====
-- `Validate` accepts the configurations that the operator can start with, and no others.
use Prim.Native.Char.{Char}
use hydra_operator.Base.{◌≤◌, true, false, ◌≡◌, ◌≢◌, ◌↔◌, ok, arith, eq_iff}
use hydra_operator.Base.Int.{ℤ, pos, negsuc}
use hydra_operator.Base.Text.{to_lower}
use hydra_operator.Config.Defs.{
  Config, contains, known_levels, known_formats, is_out_of_range, validate,
}

abbrev pub IsPort : ℤ → Type 0
IsPort (pos n) = (1 ≤ n) × (n ≤ 65535)
IsPort (negsuc n) = ⊥

-- A configuration with a Hydra to talk to, a known log level and format in any case of letters, and
-- a port.
pub record IsUsable (wide : Char → Char) (c : Config) : Type 0 where
  pub has_url : c.hydra.url ≢ ""
  pub has_cluster_id : c.hydra.cluster_id ≢ ""
  pub has_level : contains known_levels (to_lower wide c.log.level) ≡ true
  pub has_format : contains known_formats (to_lower wide c.log.format) ≡ true
  pub has_port : IsPort c.metrics.port

IsPort-iff : (p : ℤ) → (is_out_of_range p ≡ false) ↔ IsPort p
IsPort-iff (pos n) = (λ h. ground arith, λ h. ground arith)
IsPort-iff (negsuc n) = (λ h. cc, λ h. absurd h)

module _ (wide : Char → Char) (c : Config) where
  validate-IsUsable : validate wide c ≡ ok tt → IsUsable wide c
  unfolding validate
  validate-IsUsable h = record {
    has_url = ground (arith, eq_iff c.hydra.url "");
    has_cluster_id = ground (arith, eq_iff c.hydra.cluster_id "");
    has_level = ground arith;
    has_format = ground arith;
    has_port = (IsPort-iff c.metrics.port).0 (ground arith);
  }

  IsUsable-validate : IsUsable wide c → validate wide c ≡ ok tt
  unfolding validate
  IsUsable-validate u = ground (
    arith,
    u.has_url,
    u.has_cluster_id,
    eq_iff c.hydra.url "",
    eq_iff c.hydra.cluster_id "",
    u.has_level,
    u.has_format,
    (IsPort-iff c.metrics.port).1 u.has_port,
  )

-- `Validate` returns no error exactly on the usable configurations.
pub validate_iff : (wide : Char → Char) (c : Config) → (validate wide c ≡ ok tt) ↔ IsUsable wide c
validate_iff wide c = (validate-IsUsable wide c, IsUsable-validate wide c)
