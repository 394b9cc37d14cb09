-- ===== src/Logging/Levels.antt =====
-- The level of a logger for a valid configuration.
use Prim.Native.Char.{Char}
use hydra_operator.Base.{String, ◌≡◌, ◌↔◌, some, true, ok, arith, eq_iff}
use hydra_operator.Base.Text.{to_lower}
use hydra_operator.Config.{Config, contains, known_levels, validate}
use hydra_operator.Config.Validity.{validate_iff}
use hydra_operator.Logging.{Zerolog, new_logger}

-- The names of levels that the configuration knows are levels of zerolog.
pub record ParsesKnown (z : Zerolog) : Type 0 where
  pub parses :
      (name : String)
      → contains known_levels name ≡ true
      → (l : z.Level) × (z.parse_level name ≡ some l)

-- When zerolog parses the names of levels that the configuration knows, the logger of a configuration
-- that `Validate` accepts has the level that is written there, in any case of letters, and writes to
-- the console exactly when its format is `console` in any case.
pub new_logger-level :
    (wide : Char → Char) (z : Zerolog)
    → ParsesKnown z
    → (c : Config) → validate wide c ≡ ok tt
    → (z.parse_level (to_lower wide c.log.level)
        ≡ some (new_logger wide z c.log.level c.log.format).level)
      × (((new_logger wide z c.log.level c.log.format).console ≡ true)
          ↔ (to_lower wide c.log.format ≡ "console"))
unfolding new_logger
new_logger-level wide z known c valid =
    let usable = (validate_iff wide c).0 valid in
    let (l, parsed) = known.parses (to_lower wide c.log.level) usable.has_level in
    (ground arith, eq_iff (to_lower wide c.log.format) "console")
